-- ===== src/Confx/Env.antt =====
-- confx/load.go: the keys and values of environment variables, and the flags that were set. The
-- names of variables are ASCII, of which lower_rune is the lower case.
use pdbcore.Prelude.{
  not, List, [], ◌∷◌, Text, elem, is_empty, keep, lower_rune, map, replace_byte, trim_prefix, ◌==◌,
  ◌&&◌, if◌then◌else◌,
}
use pdbcore.Prelude.Words.{split, trim_space}

-- strings.ReplaceAll(s, "__", "\x00"), from the left.
unfoldable pub fold_underscores : Text → Text
fold_underscores [] = []
fold_underscores (c ∷ []) = c ∷ []
fold_underscores (c ∷ d ∷ s) =
    let both = fold_underscores s in
    let one = fold_underscores (d ∷ s) in if c == b'_' && d == b'_' then 0 ∷ both else c ∷ one

-- EnvKeyMapper
unfoldable pub env_key : Text → Text → Text
env_key prefix s =
    let lowered = map lower_rune (trim_prefix s prefix) in
    replace_byte 0 b'_' (replace_byte b'_' b'.' (fold_underscores lowered))

-- What an environment variable sets: one value, or the items of a list.
pub data EnvValue : Type 0 where
  single : Text → EnvValue
  items : List Text → EnvValue

-- envValueMapper; `lists` are the paths of the slices.
unfoldable pub env_value : Text → List Text → Text → Text → Text × EnvValue
env_value prefix lists key value =
    let k = env_key prefix key in
    let parts = keep (λ p. not (is_empty p)) (map trim_space (split b',' value)) in
    if not (elem k lists) then (k, single value) else (k, items parts)

-- ChangedFlags: `visited` are the names of the flags that were set, as FlagSet.Visit walks them.
unfoldable pub changed_flags : List Text → List Text → List Text
changed_flags visited except = keep (λ name. not (elem name except)) visited
