-- ===== src/Smartcomments/Reference.antt =====
-- smartcomments/catalog/hook.go: the value of a @foreignKey tag, "(a, b) references s.t (x, y)".
-- The regular expression leaves no choice, so it is matched from left to right.
use pdbcore.Prelude.{
  ℕ, Bool, ◌||◌, ◌&&◌, [], ◌∷◌, Option, none, some, Text, codes, lower_rune, leb, ◌==◌,
  if◌then◌else◌,
}
use pdbcore.Prelude.Words.{cut_at}
use pdbcore.Prelude.Decimal.{is_digit}

-- [\w$] under (?i): the long s and the Kelvin sign fold to letters.
unfoldable pub is_word : ℕ → Bool
is_word c =
    is_digit c
    || (leb b'a' (lower_rune c) && leb (lower_rune c) b'z')
    || c == b'_'
    || c == b'$'
    || c == 0x17f
    || c == 0x212a

-- \s
unfoldable pub is_white : ℕ → Bool
is_white c = c == 9 || c == 10 || c == 12 || c == 13 || c == 32

-- The longest beginning whose runes pass a test, and the rest.
unfoldable pub span : (ℕ → Bool) → Text → Text × Text
span p [] = ([], [])
span p (c ∷ s) = let (run, rest) = span p s in if p c then (c ∷ run, rest) else ([], c ∷ s)

-- One letter of a keyword under (?i).
abbrev pub folds_to : ℕ → ℕ → Bool
folds_to c d = lower_rune c == d || (c == 0x17f && d == b's')

unfoldable pub match_word : Text → Text → Option Text
match_word [] s = some s
match_word (d ∷ w) [] = none
match_word (d ∷ w) (c ∷ s) = let rest = match_word w s in if folds_to c d then rest else none

-- The values of the groups; a schema that is not there is empty.
pub record Match : Type 0 where
  pub cols : Text
  pub ref_schema : Text
  pub ref_table : Text
  pub ref_cols : Text

infixl 5 ◌>>=◌
abbrev pub ◌>>=◌ : {A B : Type 0} → Option A → (A → Option B) → Option B
none >>= k = none
some a >>= k = k a

-- \(([^)]+)\)
abbrev pub close_group : Text × Option Text → Option (Text × Text)
close_group (inner, none) = none
close_group ([], some rest) = none
close_group (c ∷ inner, some rest) = some (c ∷ inner, rest)

unfoldable pub match_group : Text → Option (Text × Text)
match_group [] = none
match_group (c ∷ s) =
    let group = close_group (cut_at (λ d. d == b')') s) in if c == b'(' then group else none

-- A run of one rune at least.
abbrev pub nonempty_run : Text × Text → Option (Text × Text)
nonempty_run ([], rest) = none
nonempty_run (c ∷ run, rest) = some (c ∷ run, rest)

unfoldable pub match_run : (ℕ → Bool) → Text → Option (Text × Text)
match_run p s = nonempty_run (span p s)

-- (?:([\w$]+)\.)?([\w$]+), behind the first run of word runes.
unfoldable pub match_second : Text → Text → Option (Text × Text × Text)
match_second first [] = some ([], first, [])
match_second first (c ∷ s) =
    let qualified = (do second ← match_run is_word s; some (first, second.0, second.1)) in
    if c == b'.' then qualified else some ([], first, c ∷ s)

-- $
abbrev pub at_end : {A : Type 0} → Text → A → Option A
at_end [] a = some a
at_end (c ∷ s) a = none

-- The names behind the keyword.
unfoldable pub match_names : Text → Option (Text × Text × Text)
match_names s = match_run is_word s >>= (λ first. match_second first.0 first.1)

-- What follows the brackets of the first list.
unfoldable pub match_target : Text → Text → Option Match
match_target cols s = do
  gap ← match_run is_white s
  keyword ← match_word (codes "references") gap.1
  gap2 ← match_run is_white keyword
  name ← match_names gap2.1
  refs ← match_group (span is_white name.2).1
  at_end refs.1 (record { cols = cols; ref_schema = name.0; ref_table = name.1; ref_cols = refs.0 })

-- fkRe.FindStringSubmatch
unfoldable pub match_reference : Text → Option Match
match_reference s = do cols ← match_group s; match_target cols.0 cols.1
