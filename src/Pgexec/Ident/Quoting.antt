-- ===== src/Pgexec/Ident/Quoting.antt =====
-- What a quoted identifier is to the SQL lexer, and why a plain one needs no doubling.
use pdbcore.Prelude.{
  ℕ, ◌≡◌, refl, Bool, true, false, [], ◌∷◌, ◌++◌, Option, none, some, arith, append-nil,
  append_assoc, Text, ◌==◌, if◌then◌else◌,
}
use pdbcore.Pgexec.Ident.{double, double_quote, quote_ident, simple_runes, valid_role}

-- How PostgreSQL reads the rest of a quoted token: a doubled mark is one mark, a single one ends
-- it. The last argument tells whether the byte before was a mark. The result is the content and
-- the input behind the token.
unfoldable pub quoted_rest : ℕ → Text → Bool → Text → Option (Text × Text)
quoted_rest q [] true acc = some (acc, [])
quoted_rest q [] false acc = none
quoted_rest q (c ∷ s) true acc =
    let inner = quoted_rest q s false (acc ++ q ∷ []) in if c == q then inner else some (acc, c ∷ s)
quoted_rest q (c ∷ s) false acc =
    let mark = quoted_rest q s true acc in
    let plain = quoted_rest q s false (acc ++ c ∷ []) in if c == q then mark else plain

unfoldable pub read_quoted : ℕ → Text → Option (Text × Text)
unfolding quoted_rest
read_quoted q [] = none
read_quoted q (c ∷ s) = let inner = quoted_rest q s false [] in if c == q then inner else none

-- The input does not go on with the mark.
abbrev pub NotAhead : ℕ → Text → Type 0
NotAhead q [] = Unit
NotAhead q (c ∷ s) = (c == q) ≡ false

quoted_rest-mark :
    (q : ℕ) (rest acc : Text) → NotAhead q rest → quoted_rest q rest true acc ≡ some (acc, rest)
unfolding quoted_rest
quoted_rest-mark q [] acc h = refl
quoted_rest-mark q (c ∷ rest) acc h = ground arith

pub quoted_rest-double :
    (q : ℕ) (s rest acc : Text)
    → NotAhead q rest
    → quoted_rest q (double q s ++ q ∷ rest) false acc ≡ some (acc ++ s, rest)
unfolding quoted_rest double
quoted_rest-double q [] rest acc h = ground (arith, quoted_rest-mark q rest acc h, append-nil acc)
quoted_rest-double q (c ∷ s) rest acc h =
    ground (arith, quoted_rest-double q s rest (acc ++ c ∷ []) h, append_assoc acc (c ∷ []) s)

-- The lexer reads a quoted identifier back as the very name, whatever bytes the name holds, and
-- stops right behind it, where what follows does not begin with the mark.
pub read_quoted-quote_ident :
    (s rest : Text)
    → NotAhead double_quote rest
    → read_quoted double_quote (quote_ident s ++ rest) ≡ some (s, rest)
unfolding read_quoted quote_ident
read_quoted-quote_ident s rest h = ground (
  arith,
  quoted_rest-double double_quote s rest [] h,
  append_assoc (double double_quote s) (double_quote ∷ []) rest,
)

double-simple : (s : Text) → simple_runes s ≡ true → double double_quote s ≡ s
unfolding double simple_runes
double-simple [] h = refl
double-simple (c ∷ s) h = ground (arith, double-simple s)

-- A valid role is quoted by putting it between two marks: no byte of it is doubled.
pub quote_ident-valid_role :
    (s : Text) → valid_role s ≡ true → quote_ident s ≡ double_quote ∷ (s ++ double_quote ∷ [])
unfolding quote_ident valid_role
quote_ident-valid_role s h = ground (arith, double-simple s)
