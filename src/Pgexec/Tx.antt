-- ===== src/Pgexec/Tx.antt =====
-- pgexec/tx.go: one transaction with its identity, and the retries. The session is the trace of
-- what was sent to PostgreSQL and a world that decides each reply.
pub mod Attempt
pub mod Local
pub mod Retry
use pdbcore.Prelude.{
  ℕ, zero, suc, ◌+◌, ◌≡◌, Bool, true, false, not, ◌||◌, List, [], ◌∷◌, ◌++◌, Option, none, some,
  Text, codes, text_eq, go_quote, is_empty, snoc, if◌then◌else◌,
}
use pdbcore.Prelude.Int.{ℤ, pos_part, at_least}
use pdbcore.Pgexec.Errors.{Error, other, wrap, as_pg}
use pdbcore.Pgexec.Ident.{quote_ident, valid_role, valid_claim_key}

pub data TxIsoLevel : Type 0 where
  read_committed repeatable_read serializable : TxIsoLevel

unfoldable pub parse_isolation : Text → TxIsoLevel
parse_isolation s =
    if text_eq s (codes "repeatable_read")
    then repeatable_read
    else if text_eq s (codes "serializable")
    then serializable
    else read_committed

abbrev pub default_claims_prefix : Text
default_claims_prefix = codes "pdbq.claims"

-- A claim is a string, or another value with what json.Marshal makes of it (none: it fails).
pub data Claim : Type 0 where
  string : Text → Claim
  json : Option Text → Claim

-- The claims in the order in which the map is walked; the theorems hold for every order.
pub record Identity : Type 0 where
  pub role : Text
  pub claims : List (Text × Claim)
  pub claims_prefix : Text

pub record TxOptions : Type 0 where
  pub isolation : TxIsoLevel
  pub max_retries : ℤ
  pub rls : Bool

-- What RunTx does to the outside.
pub data Event : Type 0 where
  begin : TxIsoLevel → Event
  exec : Text → List Text → Event
  -- the caller's fn, whose statements are its own
  callback : Event
  commit : Event
  rollback : Event

pub record Session (W : Type 0) : Type 0 where
  pub trace : List Event
  pub world : W

-- What the world answers to an event: an error or none, and the world after it.
abbrev pub Backend : Type 0 → Type 0
Backend W = Event → W → Option Error × W

-- The text of a claim; none if it is skipped.
unfoldable pub claim_text : Claim → Option Text
claim_text (string s) = some s
claim_text (json encoded) = encoded

unfoldable pub prefix_of : Identity → Text
prefix_of id = if is_empty id.claims_prefix then default_claims_prefix else id.claims_prefix

unfoldable pub is_serialization_failure : Error → Bool
is_serialization_failure err = elim (as_pg err) [
  | none ↦ false
  | some e ↦ text_eq e.code (codes "40001") || text_eq e.code (codes "40P01")
]

abbrev pub set_config_sql : Text
set_config_sql = codes "SELECT set_config($1, $2, true)"

unfoldable pub set_role_sql : Text → Text
set_role_sql role = codes "SET LOCAL ROLE " ++ quote_ident role

-- A piece of the code that talks to the session and may fail.
abbrev pub Action : Type 0 → Type 0
Action W = Session W → Option Error × Session W

abbrev pub add_context : Text → Option Error → Option Error
add_context text none = none
add_context text (some err) = some (wrap text err)

module _ {W : Type 0} where
  abbrev pub continue : Option Error → Action W → Action W
  continue none k s = k s
  continue (some err) k s = (some err, s)

  -- `if err := m; err != nil { return err }; k`
  infixl 5 ◌>>◌
  unfoldable pub ◌>>◌ : Action W → Action W → Action W
  ◌>>◌ m k s = let (reply, s') = m s in continue reply k s'

  abbrev pub skip : Action W
  skip s = (none, s)

  abbrev pub fail : Error → Action W
  fail err s = (some err, s)

  unfoldable pub annotate : Text → Action W → Action W
  annotate text m s = let (reply, s') = m s in (add_context text reply, s')

module _ {W : Type 0} (backend : Backend W) where
  unfoldable pub send : Event → Action W
  send e s =
      let (reply, w) = backend e s.world in (reply, record { trace = snoc s.trace e; world = w })

  unfoldable pub set_claim : Text → Text → Text → Action W
  set_claim prefix k val =
      annotate (codes "set claim " ++ k ++ codes ": ")
        (send (exec set_config_sql ((prefix ++ codes "." ++ k) ∷ val ∷ [])))

  -- The body of the loop over the claims, by the claim's text and ValidClaimKey(k).
  unfoldable pub apply_claim : Text → Text → Option Text → Bool → Action W
  apply_claim prefix k val false = skip
  apply_claim prefix k none true = skip
  apply_claim prefix k (some val) true = set_claim prefix k val

  unfoldable pub apply_claims : Text → List (Text × Claim) → Action W
  apply_claims prefix [] = skip
  apply_claims prefix ((k, v) ∷ claims) =
      apply_claim prefix k (claim_text v) (valid_claim_key k) >> apply_claims prefix claims

  unfoldable pub apply_role : Text → Action W
  apply_role role =
      if is_empty role
      then skip
      else if not (valid_role role)
      then fail (other (codes "invalid role " ++ go_quote role))
      else annotate (codes "set role: ") (send (exec (set_role_sql role) []))

  unfoldable pub apply_identity : Identity → Action W
  apply_identity id = apply_role id.role >> apply_claims (prefix_of id) id.claims

  -- What runOnce does between the begin and the deferred rollback.
  unfoldable pub in_transaction : TxOptions → Identity → Action W
  in_transaction opts id =
      (if opts.rls then apply_identity id else skip) >> send callback >> send commit

  -- The deferred rollback runs on every way out after a begin; its error is dropped.
  unfoldable pub with_rollback : Action W → Action W
  with_rollback m s = let (result, s') = m s in (result, (send rollback s').1)

  unfoldable pub run_once : TxOptions → Identity → Action W
  run_once opts id = send (begin opts.isolation) >> with_rollback (in_transaction opts id)

  -- The test behind a failed attempt. `cancelled` is ctx.Err() != nil.
  unfoldable pub gives_up : (W → Bool) → TxOptions → ℕ → Error → Session W → Bool
  gives_up cancelled opts attempt err s =
      at_least attempt opts.max_retries || not (is_serialization_failure err) || cancelled s.world

  -- The loop of RunTx; `warnings` are the attempt numbers that were logged. none: the fuel ran out.
  unfoldable pub retry_loop :
      (W → Bool)
      → TxOptions
      → Identity
      → ℕ
      → ℕ
      → List ℕ
      → Session W
      → Option (Option Error × List ℕ × Session W)
  retry_loop cancelled opts id zero attempt warnings s = none
  retry_loop cancelled opts id (suc fuel) attempt warnings s =
      let (result, s') = run_once opts id s in
      elim result [
        | none ↦ some (none, warnings, s')
        | some err ↦
            let again =
              retry_loop cancelled opts id fuel (attempt + 1) (snoc warnings (attempt + 1)) s' in
            if gives_up cancelled opts attempt err s' then some (some err, warnings, s') else again
      ]

  unfoldable pub run_tx :
      (W → Bool) → TxOptions → Identity → Session W → Option (Option Error × List ℕ × Session W)
  unfolding retry_loop gives_up
  run_tx cancelled opts id s = retry_loop cancelled opts id (suc (pos_part opts.max_retries)) 0 [] s
