-- ===== src/Confx/Variables.antt =====
-- Which environment variable sets a path of the configuration.
use pdbcore.Prelude.{
  ◌≡◌, refl, ap, ◌∙◌, inl, inr, ℕ, Bool, true, false, not, ◌&&◌, ◌||◌, [], ◌∷◌, ◌++◌, Text,
  lower_rune, upper_rune, map, replace_byte, cut_prefix-append, trim_prefix, arith, ◌==◌, ==_iff,
  leb, if◌then◌else◌, Bool-cases,
}
use pdbcore.Prelude.Words.{begins}
use pdbcore.Confx.Env.{fold_underscores, env_key}

-- The name behind the prefix that sets a path: a dot as _, an underscore as __, and capitals.
unfoldable pub env_name : Text → Text
env_name [] = []
env_name (c ∷ s) =
    let rest = env_name s in
    if c == b'.' then b'_' ∷ rest else if c == b'_' then b'_' ∷ b'_' ∷ rest else upper_rune c ∷ rest

unfoldable pub is_path_rune : ℕ → Bool
is_path_rune c = (leb b'a' c && leb c b'z') || (leb b'0' c && leb c b'9') || c == b'.' || c == b'_'

unfoldable pub may_follow : Bool → ℕ → Bool
may_follow fresh c = not fresh || (not (c == b'.') && not (c == b'_'))

-- A path: keys of lower-case letters, digits and underscores with dots between them, none empty
-- and none beginning with an underscore; `fresh` at the beginning of a key.
unfoldable pub is_path : Bool → Text → Bool
unfolding is_path_rune may_follow
is_path fresh [] = not fresh
is_path fresh (c ∷ s) = (is_path_rune c && may_follow fresh c) && is_path (c == b'.') s

lower_rune-upper_rune : (c : ℕ) → is_path_rune c ≡ true → lower_rune (upper_rune c) ≡ c
unfolding lower_rune upper_rune is_path_rune
lower_rune-upper_rune c h = ground arith

-- What EnvKeyMapper does behind the prefix and the lower case.
abbrev decoded : Text → Text
decoded t = replace_byte 0 b'_' (replace_byte b'_' b'.' (fold_underscores t))

decoded_plain :
    (c : ℕ) (t : Text) → (c == b'_') ≡ false → (c == 0) ≡ false → decoded (c ∷ t) ≡ c ∷ decoded t
unfolding fold_underscores replace_byte
decoded_plain c [] h k = rw (h, k) refl
decoded_plain c (d ∷ t) h k = rw (h, h, k) refl

decoded_dot : (t : Text) → begins b'_' t ≡ false → decoded (b'_' ∷ t) ≡ b'.' ∷ decoded t
unfolding fold_underscores replace_byte begins
decoded_dot [] h = refl
decoded_dot (d ∷ t) h = rw h refl

decoded_bar : (t : Text) → decoded (b'_' ∷ b'_' ∷ t) ≡ b'_' ∷ decoded t
unfolding fold_underscores replace_byte
decoded_bar t = refl

lowered : Text → Text
lowered s = map lower_rune (env_name s)

lowered_dot : (c : ℕ) (s : Text) → (c == b'.') ≡ true → lowered (c ∷ s) ≡ b'_' ∷ lowered s
unfolding lowered env_name lower_rune
lowered_dot c s h = rw h refl

lowered_bar :
    (c : ℕ) (s : Text)
    → (c == b'.') ≡ false
    → (c == b'_') ≡ true
    → lowered (c ∷ s) ≡ b'_' ∷ b'_' ∷ lowered s
unfolding lowered env_name lower_rune
lowered_bar c s h k = rw (h, k) refl

lowered_plain :
    (c : ℕ) (s : Text)
    → (c == b'.') ≡ false
    → (c == b'_') ≡ false
    → is_path_rune c ≡ true
    → lowered (c ∷ s) ≡ c ∷ lowered s
unfolding lowered env_name
lowered_plain c s h k r = rw (h, k, lower_rune-upper_rune c r) refl

fresh_dot : (c : ℕ) → may_follow true c ≡ true → (c == b'.') ≡ false
unfolding may_follow
fresh_dot c h = ground arith

fresh_bar : (c : ℕ) → may_follow true c ≡ true → (c == b'_') ≡ false
unfolding may_follow
fresh_bar c h = ground arith

not_zero : (c : ℕ) → is_path_rune c ≡ true → (c == 0) ≡ false
unfolding is_path_rune
not_zero c h = ground arith

-- The parts of the test at one rune.
pub record IsStep (fresh : Bool) (c : ℕ) (s : Text) : Type 0 where
  pub rune : is_path_rune c ≡ true
  pub follows : may_follow fresh c ≡ true
  pub rest : is_path (c == b'.') s ≡ true

pub is_path-IsStep :
    (fresh : Bool) (c : ℕ) (s : Text) → is_path fresh (c ∷ s) ≡ true → IsStep fresh c s
unfolding is_path
is_path-IsStep fresh c s h = record {
  rune = ground arith;
  follows = ground arith;
  rest = ground arith;
}

lowered-begins : (s : Text) → is_path true s ≡ true → begins b'_' (lowered s) ≡ false
lowered-begins [] h = unfold lowered env_name begins in refl
lowered-begins (c ∷ s) h =
    let step = is_path-IsStep true c s h in
    let plain : (c == b'.') ≡ false = fresh_dot c step.follows in
    let bare : (c == b'_') ≡ false = fresh_bar c step.follows in
    rw (lowered_plain c s plain bare step.rune) (unfold begins in bare)

decoded-lowered : (fresh : Bool) (s : Text) → is_path fresh s ≡ true → decoded (lowered s) ≡ s
decoded-lowered fresh [] h = unfold lowered env_name fold_underscores replace_byte in refl
decoded-lowered fresh (c ∷ s) h =
    let step = is_path-IsStep fresh c s h in
    let back = decoded-lowered (c == b'.') s step.rest in
    elim (Bool-cases (c == b'.')) [
      | inl dot ↦
          rw
            (
              lowered_dot c s dot,
              decoded_dot (lowered s) (lowered-begins s (rw dot at step.rest)),
              back,
            )
            (ap (λ (x : ℕ). x ∷ s) (omega (arith, (==_iff c b'.').0 dot)))
      | inr plain ↦ elim (Bool-cases (c == b'_')) [
        | inl bar ↦
            rw (lowered_bar c s plain bar, decoded_bar (lowered s), back)
              (ap (λ (x : ℕ). x ∷ s) (omega (arith, (==_iff c b'_').0 bar)))
        | inr bare ↦
            rw
              (
                lowered_plain c s plain bare step.rune,
                decoded_plain c (lowered s) bare (not_zero c step.rune),
                back,
              )
              refl
      ]
    ]

trim_prefix-append : (prefix s : Text) → trim_prefix (prefix ++ s) prefix ≡ s
unfolding trim_prefix
trim_prefix-append prefix s = rw (cut_prefix-append prefix s, trim_prefix) refl

-- The variable that is named after a path sets that path, whatever the prefix.
pub env_key-env_name :
    (prefix p : Text) → is_path true p ≡ true → env_key prefix (prefix ++ env_name p) ≡ p
unfolding env_key
env_key-env_name prefix p h =
    ap (λ (t : Text). decoded (map lower_rune t)) (trim_prefix-append prefix (env_name p))
    ∙ unfold lowered in decoded-lowered true p h
