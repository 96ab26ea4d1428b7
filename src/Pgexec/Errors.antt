-- ===== src/Pgexec/Errors.antt =====
-- The Go errors that package pgexec tells apart, with their wrap chains. PgError and ConnectError
-- are types of pgx; what their Error methods print is kept as a field.
use pdbcore.Prelude.{Bool, true, false, ◌++◌, Option, none, some, Text, codes}

pub record PgError : Type 0 where
  pub code : Text
  pub message : Text
  pub text : Text

pub data Error : Type 0 where
  pg : PgError → Error
  -- *pgconn.ConnectError, which unwraps to its cause
  connect : Text → Error → Error
  -- context.DeadlineExceeded
  deadline : Error
  other : Text → Error
  -- fmt.Errorf("…: %w", err)
  wrap : Text → Error → Error

-- errors.As(err, &pgErr)
unfoldable pub as_pg : Error → Option PgError
as_pg (pg e) = some e
as_pg (connect text err) = as_pg err
as_pg deadline = none
as_pg (other text) = none
as_pg (wrap text err) = as_pg err

-- errors.Is(err, context.DeadlineExceeded)
unfoldable pub is_deadline : Error → Bool
is_deadline (pg e) = false
is_deadline (connect text err) = is_deadline err
is_deadline deadline = true
is_deadline (other text) = false
is_deadline (wrap text err) = is_deadline err

-- errors.As(err, &connErr)
unfoldable pub is_connect : Error → Bool
is_connect (pg e) = false
is_connect (connect text err) = true
is_connect deadline = false
is_connect (other text) = false
is_connect (wrap text err) = is_connect err

-- err.Error()
unfoldable pub error_text : Error → Text
error_text (pg e) = e.text
error_text (connect text err) = text
error_text deadline = codes "context deadline exceeded"
error_text (other text) = text
error_text (wrap text err) = text ++ error_text err
