-- ===== src/Inflect/Nouns.antt =====
-- inflect/inflect.go: Singularize and Pluralize. All their tests are on ASCII at the end.
use pdbcore.Prelude.{
  ℕ, zero, suc, Bool, true, false, not, ◌||◌, ◌&&◌, [], ◌∷◌, ◌++◌, Option, none, some, Text, codes,
  text_eq, is_empty, elem, cut_prefix, length, ltb, if◌then◌else◌,
}
use mathlib.Core.List.{reverse}
use pdbcore.Prelude.Map.{Map}

abbrev pub is_found : Option Text → Bool
is_found none = false
is_found (some s) = true

-- strings.HasSuffix
unfoldable pub has_suffix : Text → Text → Bool
has_suffix s p = is_found (cut_prefix (reverse s) (reverse p))

unfoldable pub drop : ℕ → Text → Text
drop zero s = s
drop (suc n) [] = []
drop (suc n) (c ∷ s) = drop n s

-- s[:len(s)-n]
unfoldable pub drop_last : ℕ → Text → Text
drop_last n s = reverse (drop n (reverse s))

abbrev pub irregular_plurals : Map Text
irregular_plurals = (codes "person", codes "people") ∷ (codes "child", codes "children") ∷ []

abbrev pub irregular_singulars : Map Text
irregular_singulars = (codes "people", codes "person") ∷ (codes "children", codes "child") ∷ []

-- irregular. No name fits two forms, so the order of the map does not matter.
unfoldable pub irregular : Text → Map Text → Text
irregular s [] = []
irregular s ((from, to) ∷ forms) =
    let rest = irregular s forms in
    if text_eq s from
    then to
    else if has_suffix s (b'_' ∷ from)
    then drop_last (length from) s ++ to
    else rest

unfoldable pub is_vowel : ℕ → Bool
is_vowel b = elem (b ∷ []) (codes "a" ∷ codes "e" ∷ codes "i" ∷ codes "o" ∷ codes "u" ∷ [])

-- The end of Singularize behind the irregular forms.
unfoldable pub regular_singular : Text → Text
regular_singular s =
    if has_suffix s (codes "ies") && ltb 3 (length s)
    then drop_last 3 s ++ codes "y"
    else if has_suffix s (codes "ses")
        || has_suffix s (codes "xes")
        || has_suffix s (codes "zes")
        || has_suffix s (codes "ches")
        || has_suffix s (codes "shes")
    then drop_last 2 s
    else if has_suffix s (codes "s") && not (has_suffix s (codes "ss"))
    then drop_last 1 s
    else s

-- Singularize
unfoldable pub singularize : Text → Text
singularize s =
    let out = irregular s irregular_singulars in
    if not (is_empty out)
    then out
    else if not (is_empty (irregular s irregular_plurals))
    then s
    else regular_singular s

-- isVowel(s[len(s)-2]), for the text backwards without its last byte.
abbrev pub vowel_first : Text → Bool
vowel_first [] = false
vowel_first (b ∷ s) = is_vowel b

-- len(s) > 1 && !isVowel(s[len(s)-2])
unfoldable pub behind_consonant : Text → Bool
behind_consonant s = ltb 1 (length s) && not (vowel_first (drop 1 (reverse s)))

-- The end of Pluralize behind the irregular forms.
unfoldable pub regular_plural : Text → Text
regular_plural s =
    if has_suffix s (codes "y") && behind_consonant s
    then drop_last 1 s ++ codes "ies"
    else if has_suffix s (codes "s")
        || has_suffix s (codes "x")
        || has_suffix s (codes "z")
        || has_suffix s (codes "ch")
        || has_suffix s (codes "sh")
    then s ++ codes "es"
    else s ++ codes "s"

-- Pluralize
unfoldable pub pluralize : Text → Text
pluralize s =
    let out = irregular s irregular_plurals in
    if not (is_empty out)
    then out
    else if not (is_empty (irregular s irregular_singulars))
    then s
    else regular_plural s
