-- ===== src/Pgexec/Ident.antt =====
-- pgexec/ident.go: quoting, and the names that may be put into statements. The proofs are in the
-- child.
pub mod Quoting
use pdbcore.Prelude.{
  ℕ, Bool, true, false, ◌&&◌, ◌||◌, not, [], ◌∷◌, ◌++◌, Text, leb, ◌==◌, if◌then◌else◌, is_empty,
}

-- strings.ReplaceAll(s, q, qq) for a one-byte q.
unfoldable pub double : ℕ → Text → Text
double q [] = []
double q (c ∷ s) = let rest = double q s in if c == q then q ∷ q ∷ rest else c ∷ rest

abbrev pub double_quote : ℕ
double_quote = 0x22

unfoldable pub quote_ident : Text → Text
quote_ident s = double_quote ∷ (double double_quote s ++ double_quote ∷ [])

-- A letter, a digit or an underscore.
unfoldable pub simple_rune : ℕ → Bool
simple_rune r =
    r == b'_'
    || (leb b'a' r && leb r b'z')
    || (leb b'A' r && leb r b'Z')
    || (leb b'0' r && leb r b'9')

-- The loop of `simpleIdent`: the first other rune ends it.
unfoldable pub simple_runes : Text → Bool
unfolding simple_rune
simple_runes [] = true
simple_runes (r ∷ s) = let rest = simple_runes s in if not (simple_rune r) then false else rest

unfoldable pub simple_ident : Text → Bool
unfolding simple_runes is_empty
simple_ident s = simple_runes s && not (is_empty s)

unfoldable pub valid_role : Text → Bool
unfolding simple_ident
valid_role s = simple_ident s

unfoldable pub valid_claim_key : Text → Bool
unfolding simple_ident
valid_claim_key s = simple_ident s
