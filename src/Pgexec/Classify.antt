-- ===== src/Pgexec/Classify.antt =====
-- pgexec/classify.go: the class and the client-facing message of an error.
pub mod Policy
use pdbcore.Pgexec.Errors.{PgError, Error, as_pg, is_deadline, is_connect, error_text}
use pdbcore.Prelude.{
  ◌≡◌, Bool, true, false, List, [], ◌∷◌, Option, none, some, Text, codes, text_eq, elem,
  if◌then◌else◌,
}

pub data Class : Type 0 where
  ok user_input permission conflict resource timeout internal : Class

-- Class.String
unfoldable pub class_string : Class → Text
class_string Class.ok = codes "ok"
class_string Class.user_input = codes "user_input"
class_string Class.permission = codes "permission"
class_string Class.conflict = codes "conflict"
class_string Class.resource = codes "resource"
class_string Class.timeout = codes "timeout"
class_string Class.internal = codes "internal"

pub data Detail : Type 0 where
  prod dev strict : Detail

unfoldable pub parse_detail : Text → Detail
parse_detail s =
    if text_eq s (codes "dev")
    then Detail.dev
    else if text_eq s (codes "strict")
    then Detail.strict
    else Detail.prod

pub record Classified : Type 0 where
  pub class : Class
  pub sqlstate : Text
  pub message : Text
  pub pg_error : Option PgError

-- prefix: the first two bytes of a code.
unfoldable pub code_prefix : Text → Text
code_prefix (a ∷ b ∷ rest) = a ∷ b ∷ []
code_prefix code = codes "??"

abbrev pub conflict_codes : List Text
conflict_codes = codes "23505" ∷ codes "23503" ∷ codes "23P01" ∷ codes "40001" ∷ codes "40P01" ∷ []

unfoldable pub class_of : Text → Class
class_of code =
    if text_eq code (codes "42501")
    then Class.permission
    else if elem code conflict_codes
    then Class.conflict
    else if elem code (codes "23502" ∷ codes "23514" ∷ [])
    then Class.user_input
    else if text_eq code (codes "57014")
    then Class.timeout
    else if elem code (codes "57P01" ∷ codes "57P02" ∷ codes "57P03" ∷ [])
    then Class.resource
    else if elem (code_prefix code) (codes "22" ∷ codes "42" ∷ [])
    then Class.user_input
    else if elem (code_prefix code) (codes "53" ∷ codes "08" ∷ [])
    then Class.resource
    else Class.internal

-- The texts that stand in for a hidden message.
abbrev pub constraint_text : Text
constraint_text = codes "constraint violation"

abbrev pub input_text : Text
input_text = codes "invalid input value"

abbrev pub denied_text : Text
denied_text = codes "permission denied"

abbrev pub operation_text : Text
operation_text = codes "invalid operation"

abbrev pub database_text : Text
database_text = codes "database error"

abbrev pub internal_text : Text
internal_text = codes "internal error"

unfoldable pub sanitize_message : PgError → Bool → Text
sanitize_message e hide =
    if text_eq (code_prefix e.code) (codes "23")
    then (if hide then constraint_text else e.message)
    else if text_eq (code_prefix e.code) (codes "22")
    then (if hide then input_text else e.message)
    else if text_eq (code_prefix e.code) (codes "42")
    then (if text_eq e.code (codes "42501") then denied_text else operation_text)
    else database_text

abbrev is_strict : Detail → Bool
is_strict Detail.strict = true
is_strict _ = false

unfoldable pub pg_message : PgError → Detail → Text
unfolding sanitize_message
pg_message e Detail.dev = e.message
pg_message e Detail.prod = sanitize_message e (is_strict Detail.prod)
pg_message e Detail.strict = sanitize_message e (is_strict Detail.strict)

-- The branch of an error that carries no PgError.
unfoldable pub other_class : Error → Class
other_class err =
    if is_deadline err
    then Class.timeout
    else if is_connect err
    then Class.resource
    else Class.internal

unfoldable pub other_message : Error → Detail → Text
other_message err Detail.dev = error_text err
other_message err Detail.prod = internal_text
other_message err Detail.strict = internal_text

unfoldable pub classify_found : Option PgError → Error → Detail → Classified
unfolding pg_message other_class other_message
classify_found (some e) err detail = record {
  class = class_of e.code;
  sqlstate = e.code;
  message = pg_message e detail;
  pg_error = some e;
}
classify_found none err detail = record {
  class = other_class err;
  sqlstate = [];
  message = other_message err detail;
  pg_error = none;
}

unfoldable pub classify : Option Error → Detail → Classified
unfolding classify_found
classify none detail = record { class = Class.ok; sqlstate = []; message = []; pg_error = none }
classify (some err) detail = classify_found (as_pg err) err detail
