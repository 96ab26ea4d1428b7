-- ===== src/Confx/Load/Layers.antt =====
-- Which layer a value of the loaded configuration comes from.
use pdbcore.Prelude.{
  ◌≡◌, refl, ap, sym, ◌∙◌, inl, inr, Option, none, some, Text, codes, ◌++◌, is_empty, if◌then◌else◌,
  Bool-cases,
}
use pdbcore.Confx.Env.{EnvValue, env_value}
use pdbcore.Confx.Fields.{slice_paths}
use pdbcore.Confx.Load.{
  Loaded, loaded, failed, Koanf, with_context, ◌>>=◌, read_file, read_env, read_flags, load,
}

-- The upper layer's value, if it has one.
abbrev pub over : Option EnvValue → Option EnvValue → Option EnvValue
over none below = below
over (some v) below = some v

over-none : (v : Option EnvValue) → over v none ≡ v
over-none none = refl
over-none (some v) = refl

>>=-eq-loaded :
    {A B : Type 0} (m : Loaded A) (f : A → Loaded B) (b : B)
    → (m >>= f) ≡ loaded b
    → (a : A) × (m ≡ loaded a) × (f a ≡ loaded b)
>>=-eq-loaded (loaded a) f b h = (a, refl, h)
>>=-eq-loaded (failed e) f b h = absurd (cc)

with_context_inv :
    {A : Type 0} (text : Text) (m : Loaded A) (a : A)
    → with_context text m ≡ loaded a
    → m ≡ loaded a
with_context_inv text (loaded b) a h = h
with_context_inv text (failed e) a h = absurd (cc)

-- koanf at one path, of which no layer sets a part: a store is empty at first, and each layer that
-- is loaded into it overrides the path, if the layer has it.
pub record Overrides {K D F : Type 0} (koanf : Koanf K D F) (p : Text) : Type 0 where
  pub in_file : Text → Option EnvValue
  pub in_env : Text → (Text → Text → Text × EnvValue) → Option EnvValue
  pub in_flags : F → Option EnvValue
  pub new_empty : koanf.at_path p koanf.new ≡ none
  pub file_over :
      (path : Text) (k k' : K)
      → koanf.load_file path k ≡ loaded k'
      → koanf.at_path p k' ≡ over (in_file path) (koanf.at_path p k)
  pub env_over :
      (prefix : Text) (callback : Text → Text → Text × EnvValue) (k k' : K)
      → koanf.load_env prefix callback k ≡ loaded k'
      → koanf.at_path p k' ≡ over (in_env prefix callback) (koanf.at_path p k)
  pub flags_over :
      (flags : F) (k k' : K)
      → koanf.load_flags flags k ≡ loaded k'
      → koanf.at_path p k' ≡ over (in_flags flags) (koanf.at_path p k)

module _ {K D F : Type 0} (koanf : Koanf K D F) (p : Text) (laws : Overrides koanf p) where
  open laws use {in_file, in_env, in_flags, new_empty, file_over, env_over, flags_over}

  -- What the layers say of the path: no file for an empty path, no flags for nil.
  abbrev pub from_file : Text → Option EnvValue
  from_file path = if is_empty path then none else in_file path

  abbrev pub from_flags : Option F → Option EnvValue
  from_flags none = none
  from_flags (some flags) = in_flags flags

  value-read_file :
      (path : Text) (k k' : K)
      → read_file koanf path k ≡ loaded k'
      → koanf.at_path p k' ≡ over (from_file path) (koanf.at_path p k)
  unfolding read_file
  value-read_file path k k' h = elim (Bool-cases (is_empty path)) [
    | inl e ↦ rw e (ap (koanf.at_path p) (sym (same k k' (rw e at h))))
    | inr e ↦ rw e (
        file_over path k k' (
          with_context_inv (codes "config: read " ++ (path ++ codes ": ")) (koanf.load_file path k)
            k' (rw e at h)))
  ]
    where
      same : (a b : K) → ◌≡◌ {A = Loaded K} (loaded a) (loaded b) → a ≡ b
      same a b e = cc

  value-read_flags :
      (flags : Option F) (k k' : K)
      → read_flags koanf flags k ≡ loaded k'
      → koanf.at_path p k' ≡ over (from_flags flags) (koanf.at_path p k)
  unfolding read_flags
  value-read_flags none k k' h = ap (koanf.at_path p) (sym (cc))
  value-read_flags (some flags) k k' h =
      flags_over flags k k'
        (with_context_inv (codes "config: flags: ") (koanf.load_flags flags k) k' h)

  -- If koanf's layers override one another at a path and Load returns without an error, then the
  -- store that was unmarshalled has at that path the value of the flags, if they set it, else that
  -- of the environment's variables, read by the mapper for the lists of the destination, else that
  -- of the file, if there is one, and none if no layer has it.
  pub load-over :
      (prefix path : Text) (flags : Option F) (dst d : D)
      → load koanf prefix path flags dst ≡ loaded d
      → (k : K) × (koanf.unmarshal k dst ≡ loaded d)
        × (koanf.at_path p k
            ≡ over (from_flags flags) (
                over
                  (in_env prefix (env_value prefix (slice_paths (koanf.reflected dst))))
                  (from_file path)))
  unfolding load read_env
  load-over prefix path flags dst d h =
      let (k1, read1, h1) = >>=-eq-loaded (read_file koanf path koanf.new) _ d h in
      let (k2, read2, h2) = >>=-eq-loaded (read_env koanf prefix dst k1) _ d h1 in
      let (k3, read3, h3) = >>=-eq-loaded (read_flags koanf flags k2) _ d h2 in
      (
        k3,
        with_context_inv (codes "config: unmarshal: ") (koanf.unmarshal k3 dst) d h3,
        value-read_flags flags k2 k3 read3
            ∙ ap (over (from_flags flags)) (
                env_over prefix callback k1 k2 (
                  with_context_inv (codes "config: env: ") (koanf.load_env prefix callback k1) k2
                    read2)
                ∙ ap (over (in_env prefix callback)) (
                    value-read_file path koanf.new k1 read1
                    ∙ ap (over (from_file path)) new_empty
                    ∙ over-none (from_file path))),
      )
    where
      callback : Text → Text → Text × EnvValue
      callback = env_value prefix (slice_paths (koanf.reflected dst))
