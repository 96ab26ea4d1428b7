-- ===== src/Pgexec/Samples.antt =====
-- Runs of package pgexec on concrete input, and the theorems about it at such input.
use pdbcore.Prelude.{
  ◌+◌, ◌*◌, ◌≤◌, ◌<◌, ◌↔◌, Text, arith, if◌then◌else◌, ℕ, suc, ◌≡◌, refl, Bool, true, false, List,
  [], ◌∷◌, ◌++◌, Option, none, some, codes, text_eq, is_empty,
}
use pdbcore.Prelude.Int.{pos}
use pdbcore.Prelude.Map.{get, put}
use pdbcore.Prelude.Decimal.{decimal}
use pdbcore.Pgexec.Errors.{PgError, Error, pg, deadline, wrap, as_pg, is_deadline}
use pdbcore.Pgexec.Ident.{double_quote, quote_ident, valid_role, valid_claim_key}
use pdbcore.Pgexec.Ident.Quoting.{read_quoted, read_quoted-quote_ident}
use pdbcore.Pgexec.Classify.{Class, Detail, classify, code_prefix}
use pdbcore.Pgexec.Classify.Policy.{Passes, classify_prod_message}
use pdbcore.Pgexec.Tx.{
  Claim, Identity, TxOptions, begin, exec, callback, commit, rollback, Session, Backend,
  serializable, prefix_of, set_config_sql, set_role_sql, is_serialization_failure, run_once, run_tx,
  annotate, apply_claim, apply_claims, apply_identity, apply_role, claim_text, in_transaction, send,
  set_claim, with_rollback, ◌>>◌,
}
use pdbcore.Pgexec.Pool.{
  PoolConfig, PgxConfig, Opened, opened, connect, configured, params_of, open_pool,
  with_statement_timeout, milliseconds,
}
use pdbcore.Pgexec.Pool.Timeout.{OpenedFrom, connect-statement_timeout}
use pdbcore.Pgexec.Tx.Retry.{Ran, run_tx-Ran}

read_quoted-quote_ident_example :
    read_quoted double_quote (quote_ident (codes "a\"b") ++ codes " ;")
    ≡ some (codes "a\"b", codes " ;")
read_quoted-quote_ident_example = read_quoted-quote_ident (codes "a\"b") (codes " ;") refl

anon_valid : valid_role (codes "anon_1") ≡ true
unfolding valid_role
anon_valid = refl

bad_role : valid_role (codes "a;drop") ≡ false
unfolding valid_role
bad_role = refl

abbrev duplicate : PgError
duplicate = record {
  code = codes "23505";
  message = codes "duplicate key value violates unique constraint";
  text = codes "ERROR: duplicate key value violates unique constraint (SQLSTATE 23505)";
}

abbrev serialization : Error
serialization = wrap (codes "insert: ") (
    pg (record {
      code = codes "40001";
      message = codes "could not serialize access";
      text = codes "ERROR";
    }))

strict_hides : (classify (some (pg duplicate)) Detail.strict).message ≡ codes "constraint violation"
unfolding classify text_eq as_pg code_prefix
strict_hides = refl

timeout_class :
    (classify (some (wrap (codes "query: ") deadline)) Detail.prod).class ≡ Class.timeout
unfolding classify as_pg is_deadline
timeout_class = refl

classify_prod_message_example :
    Passes (as_pg (pg duplicate)) (classify (some (pg duplicate)) Detail.prod).message
classify_prod_message_example = classify_prod_message (pg duplicate)

retried : is_serialization_failure serialization ≡ true
unfolding is_serialization_failure as_pg text_eq
retried = refl

-- A database whose first commits fail: the world counts those that are left.
abbrev contended : Backend ℕ
contended commit (suc n) = (some serialization, n)
contended _ n = (none, n)

abbrev tenant : Identity
tenant = record {
  role = codes "app";
  claims =
      (codes "sub", Claim.string (codes "u1"))
      ∷ (codes "a.b", Claim.string (codes "x"))
      ∷ (codes "n", Claim.json (some (codes "7")))
      ∷ [];
  claims_prefix = [];
}

abbrev twice : TxOptions
twice = record { isolation = serializable; max_retries = pos 2; rls = true }

abbrev idle : Session ℕ
idle = record { trace = []; world = 0 }

abbrev contended_start : Session ℕ
contended_start = record { trace = []; world = 3 }

abbrev never : ℕ → Bool
never w = false

attempt_trace :
    (run_once contended twice tenant idle).1.trace
    ≡ begin serializable
      ∷ exec (set_role_sql (codes "app")) []
      ∷ exec set_config_sql (codes "pdbq.claims.sub" ∷ codes "u1" ∷ [])
      ∷ exec set_config_sql (codes "pdbq.claims.n" ∷ codes "7" ∷ [])
      ∷ callback
      ∷ commit
      ∷ rollback
      ∷ []
unfolding run_once ◌>>◌ send with_rollback in_transaction apply_identity apply_role is_empty
    valid_role annotate apply_claims apply_claim valid_claim_key claim_text set_claim prefix_of
attempt_trace = refl

run_tx-Ran_example :
    (out : Option Error × List ℕ × Session ℕ) × (run_tx contended never twice tenant contended_start
      ≡ some out)
    × Ran contended never twice tenant contended_start out
run_tx-Ran_example = run_tx-Ran contended never twice tenant contended_start

abbrev parsed_url : Text → Opened PgxConfig
parsed_url url = opened (record {
  max_conns = pos 4;
  connect_timeout = pos 0;
  runtime_params = some ((codes "application_name", codes "api") ∷ []);
})

abbrev pool_config : PoolConfig
pool_config = record {
  url = codes "postgres://db";
  max_conns = pos 0;
  connect_timeout = pos 5000000000;
  statement_timeout = pos 2500000;
}

abbrev new_pool : PgxConfig → Opened PgxConfig
new_pool pcfg = opened pcfg

abbrev pool : PgxConfig
pool = record {
  max_conns = pos 4;
  connect_timeout = pos 5000000000;
  runtime_params =
      some ((codes "application_name", codes "api") ∷ (codes "statement_timeout", codes "2") ∷ []);
}

pool_opened : connect parsed_url new_pool pool_config ≡ opened pool
unfolding connect open_pool configured with_statement_timeout put text_eq milliseconds decimal
pool_opened = refl

connect-statement_timeout_example :
    (parsed : PgxConfig) × (ms : ℕ) × OpenedFrom parsed_url new_pool pool_config pool parsed
    × (get (codes "application_name") (params_of (configured pool_config parsed).runtime_params) ≡ (
        if text_eq (codes "statement_timeout") (codes "application_name")
        then some (decimal ms)
        else get (codes "application_name") (params_of parsed.runtime_params)))
    × (ms * 1000000 ≤ 2500000)
    × (2500000 < (ms + 1) * 1000000)
    × ((ms ≡ 0) ↔ (2500000 < 1000000))
connect-statement_timeout_example =
    connect-statement_timeout parsed_url new_pool pool_config pool 2500000
      (codes "application_name") pool_opened refl (omega arith)
