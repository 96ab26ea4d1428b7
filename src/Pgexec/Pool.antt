-- ===== src/Pgexec/Pool.antt =====
-- pgexec/pool.go: the configuration with which Connect opens a pool. pgx's ParseConfig and
-- NewWithConfig are parameters. Durations are nanoseconds.
pub mod Timeout
use pdbcore.Prelude.{ℕ, [], ◌∷◌, ◌++◌, Option, none, some, Text, codes, if◌then◌else◌}
use Prim.Native.Nat.{◌/◌}
use pdbcore.Prelude.Int.{ℤ, pos, ltz, pos_part}
use pdbcore.Prelude.Map.{Map, put}
use pdbcore.Prelude.Decimal.{decimal}

pub record PoolConfig : Type 0 where
  pub url : Text
  pub max_conns : ℤ
  pub connect_timeout : ℤ
  pub statement_timeout : ℤ

-- What Connect sets of pgxpool.Config; the runtime parameters are nil or a map.
pub record PgxConfig : Type 0 where
  pub max_conns : ℤ
  pub connect_timeout : ℤ
  pub runtime_params : Option (Map Text)

-- What a call of pgx gives, or the text of its error.
pub data Opened {ℓ} (A : Type ℓ) : Type ℓ where
  opened : A → Opened A
  failed : Text → Opened A

abbrev pub params_of : Option (Map Text) → Map Text
params_of none = []
params_of (some m) = m

-- time.Duration.Milliseconds and %d, for a positive duration
unfoldable pub milliseconds : ℕ → Text
milliseconds t = decimal (t / 1000000)

unfoldable pub with_statement_timeout : ℤ → Option (Map Text) → Option (Map Text)
with_statement_timeout t params =
    if ltz (pos 0) t
    then some (put (codes "statement_timeout") (milliseconds (pos_part t)) (params_of params))
    else params

-- The settings of Connect on what the URL says.
unfoldable pub configured : PoolConfig → PgxConfig → PgxConfig
configured cfg pcfg = record {
  max_conns = if ltz (pos 0) cfg.max_conns then cfg.max_conns else pcfg.max_conns;
  connect_timeout = cfg.connect_timeout;
  runtime_params = with_statement_timeout cfg.statement_timeout pcfg.runtime_params;
}

module _ {P : Type 0} (parse_config : Text → Opened PgxConfig)
    (new_pool : PgxConfig → Opened P) where
  unfoldable pub open_pool : PgxConfig → Opened P
  open_pool pcfg = elim (new_pool pcfg) [
    | failed e ↦ failed (codes "connect: " ++ e)
    | opened pool ↦ opened pool
  ]

  -- Connect
  unfoldable pub connect : PoolConfig → Opened P
  connect cfg = elim (parse_config cfg.url) [
    | failed e ↦ failed (codes "database url: " ++ e)
    | opened pcfg ↦ open_pool (configured cfg pcfg)
  ]
