-- ===== src/Confx/Load.antt =====
-- confx/load.go: Load and Discover. koanf with its providers is a parameter, as are the files that
-- exist and what package reflect shows of the destination.
pub mod Layers
use pdbcore.Prelude.{
  Bool, List, [], ◌∷◌, ◌++◌, Option, none, some, Text, codes, is_empty, find, if◌then◌else◌,
}
use pdbcore.Confx.Env.{EnvValue, env_value}
use pdbcore.Confx.Fields.{Value, slice_paths}

-- What a call of koanf gives, or the text of its error.
pub data Loaded {ℓ} (A : Type ℓ) : Type ℓ where
  loaded : A → Loaded A
  failed : Text → Loaded A

-- What Load uses of koanf, over its store K, the destination D and the sets of flags F: k.Load of
-- the file, of the variables through a callback, of the flags, and k.Unmarshal; and k.Get, by which the theorems
-- look into a store.
pub record Koanf (K D F : Type 0) : Type 0 where
  pub new : K
  pub load_file : Text → K → Loaded K
  pub load_env : Text → (Text → Text → Text × EnvValue) → K → Loaded K
  pub load_flags : F → K → Loaded K
  pub unmarshal : K → D → Loaded D
  pub at_path : Text → K → Option EnvValue
  pub reflected : D → Value

-- fmt.Errorf around an error
abbrev pub with_context {ℓ} : {A : Type ℓ} → Text → Loaded A → Loaded A
with_context text (loaded a) = loaded a
with_context text (failed e) = failed (text ++ e)

-- `if err != nil { return err }`
infixl 5 ◌>>=◌
abbrev pub ◌>>=◌ {ℓ κ} : {A : Type ℓ} {B : Type κ} → Loaded A → (A → Loaded B) → Loaded B
loaded a >>= f = f a
failed e >>= f = failed e

module _ {K D F : Type 0} (koanf : Koanf K D F) where
  unfoldable pub read_file : Text → K → Loaded K
  read_file path k =
      if is_empty path
      then loaded k
      else with_context (codes "config: read " ++ (path ++ codes ": ")) (koanf.load_file path k)

  unfoldable pub read_env : Text → D → K → Loaded K
  read_env prefix dst k =
      with_context (codes "config: env: ")
        (koanf.load_env prefix (env_value prefix (slice_paths (koanf.reflected dst))) k)

  -- The flags are nil or a set.
  unfoldable pub read_flags : Option F → K → Loaded K
  read_flags none k = loaded k
  read_flags (some flags) k = with_context (codes "config: flags: ") (koanf.load_flags flags k)

  -- Load: the destination that it leaves.
  unfoldable pub load : Text → Text → Option F → D → Loaded D
  load prefix path flags dst = do
    k1 ← read_file path koanf.new
    k2 ← read_env prefix dst k1
    k3 ← read_flags flags k2
    with_context (codes "config: unmarshal: ") (koanf.unmarshal k3 dst)

-- Discover
unfoldable pub discover : (Text → Bool) → List Text → Text
discover exists names = elim (find exists names) [ none ↦ [] | some name ↦ name ]
