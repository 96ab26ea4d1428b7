-- ===== src/Pgexec/Pool/Timeout.antt =====
-- Which statement timeout a pool's sessions have.
use Prim.Native.Nat.{ℕ, ◌+◌, ◌*◌, ◌/◌, ◌≤◌, ◌<◌}
use pdbcore.Prelude.{◌≡◌, refl, ◌↔◌, true, ◌++◌, some, Text, codes, text_eq, arith, if◌then◌else◌}
use pdbcore.Prelude.Int.{pos, ltz}
use pdbcore.Prelude.Map.{get, get-put}
use pdbcore.Prelude.Decimal.{decimal}
use pdbcore.Pgexec.Pool.{
  PoolConfig, PgxConfig, Opened, opened, failed, params_of, milliseconds, with_statement_timeout,
  configured, open_pool, connect,
}

positive_timeout : (t : ℕ) → 0 < t → ltz (pos 0) (pos t) ≡ true
positive_timeout t h = ground arith

module _ {P : Type 0} (parse_config : Text → Opened PgxConfig)
    (new_pool : PgxConfig → Opened P) where
  -- The pool comes from the settings of Connect on what the URL was parsed to.
  abbrev pub OpenedFrom : PoolConfig → P → PgxConfig → Type 0
  OpenedFrom cfg pool parsed =
      (parse_config cfg.url ≡ opened parsed) × (new_pool (configured cfg parsed) ≡ opened pool)

  open_pool_inv :
      (pcfg : PgxConfig) (pool : P)
      → open_pool parse_config new_pool pcfg ≡ opened pool
      → new_pool pcfg ≡ opened pool
  unfolding open_pool
  open_pool_inv pcfg pool h = ground arith

  by_parsed :
      (cfg : PoolConfig) (pool : P) (r : Opened PgxConfig)
      → parse_config cfg.url ≡ r
      → (elim r as (λ x. Opened P) [
        | failed e ↦ failed (codes "database url: " ++ e)
        | opened pcfg ↦ open_pool parse_config new_pool (configured cfg pcfg)
      ])
        ≡ opened pool
      → (parsed : PgxConfig) × OpenedFrom cfg pool parsed
  by_parsed cfg pool (opened parsed) e h =
      (parsed, (e, open_pool_inv (configured cfg parsed) pool h))
  by_parsed cfg pool (failed t) e h = absurd (cc)

  connect-OpenedFrom :
      (cfg : PoolConfig) (pool : P)
      → connect parse_config new_pool cfg ≡ opened pool
      → (parsed : PgxConfig) × OpenedFrom cfg pool parsed
  unfolding connect
  connect-OpenedFrom cfg pool h = by_parsed cfg pool (parse_config cfg.url) refl h

  param :
      (cfg : PoolConfig) (parsed : PgxConfig) (t : ℕ) (name : Text)
      → cfg.statement_timeout ≡ pos t
      → 0 < t
      → get name (params_of (configured cfg parsed).runtime_params) ≡ (
          if text_eq (codes "statement_timeout") name
          then some (decimal (t / 1000000))
          else get name (params_of parsed.runtime_params))
  unfolding configured with_statement_timeout milliseconds
  param cfg parsed t name same positive =
      rw (same, positive_timeout t positive)
        (get-put (codes "statement_timeout") name (decimal (t / 1000000))
          (params_of parsed.runtime_params))

  -- A pool that Connect opens with a positive statement timeout was made with the runtime parameters
  -- that the URL was parsed to, but for statement_timeout, which is the timeout in whole
  -- milliseconds, rounded down; it is 0 exactly if the timeout is shorter than a millisecond.
  pub connect-statement_timeout :
      (cfg : PoolConfig) (pool : P) (t : ℕ) (name : Text)
      → connect parse_config new_pool cfg ≡ opened pool
      → cfg.statement_timeout ≡ pos t
      → 0 < t
      → (parsed : PgxConfig) × (ms : ℕ) × OpenedFrom cfg pool parsed
        × (get name (params_of (configured cfg parsed).runtime_params) ≡ (
            if text_eq (codes "statement_timeout") name
            then some (decimal ms)
            else get name (params_of parsed.runtime_params)))
        × (ms * 1000000 ≤ t)
        × (t < (ms + 1) * 1000000)
        × ((ms ≡ 0) ↔ (t < 1000000))
  connect-statement_timeout cfg pool t name h same positive =
      let (parsed, from) = connect-OpenedFrom cfg pool h in
      (
        parsed,
        t / 1000000,
        from,
        param cfg parsed t name same positive,
        omega arith,
        omega arith,
        (λ e. omega arith, λ e. omega arith),
      )
