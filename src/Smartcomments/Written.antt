-- ===== src/Smartcomments/Written.antt =====
-- Reading back a reference that is written the way the documentation writes it.
use pdbcore.Prelude.{
  ◌≡◌, refl, ℕ, Bool, true, false, [], ◌∷◌, ◌++◌, some, Text, codes, is_empty, lower_rune, All,
  arith, ◌==◌, append_assoc,
}
use pdbcore.Prelude.Decimal.{is_digit}
use pdbcore.Prelude.Words.{cut_at-found}
use pdbcore.Smartcomments.Reference.{
  is_word, is_white, span, match_word, Match, match_group, match_run, match_second, match_names,
  match_target, match_reference,
}

-- A list between brackets, and a name.
abbrev pub IsInner : Text → Type 0
IsInner s = (is_empty s ≡ false) × All (λ c. (c == b')') ≡ false) s

abbrev pub IsName : Text → Type 0
IsName s = (is_empty s ≡ false) × All (λ c. is_word c ≡ true) s

-- schema.table, or the table alone.
abbrev pub qualified : Text → Text → Text
qualified [] name = name
qualified (c ∷ s) name = c ∷ (s ++ b'.' ∷ name)

abbrev pub written : Match → Text
written m =
    b'('
    ∷ (m.cols
        ++ (codes ") references "
            ++ (qualified m.ref_schema m.ref_table ++ (codes " (" ++ (m.ref_cols ++ codes ")")))))

match_group-closed :
    (inner rest : Text)
    → IsInner inner
    → match_group (b'(' ∷ (inner ++ b')' ∷ rest)) ≡ some (inner, rest)
unfolding match_group
match_group-closed [] rest (ne, h) = absurd (unfold is_empty in cc)
match_group-closed (c ∷ inner) rest (ne, h) =
    rw (cut_at-found (λ d. d == b')') (c ∷ inner) b')' rest h refl) refl

span-stops :
    (p : ℕ → Bool) (s : Text) (c : ℕ) (t : Text)
    → All (λ d. p d ≡ true) s
    → p c ≡ false
    → span p (s ++ c ∷ t) ≡ (s, c ∷ t)
unfolding span
span-stops p [] c t h hc = rw hc refl
span-stops p (d ∷ s) c t (hd, h) hc = rw (hd, span-stops p s c t h hc) refl

match_run-name :
    (s : Text) (c : ℕ) (t : Text)
    → IsName s
    → is_word c ≡ false
    → match_run is_word (s ++ c ∷ t) ≡ some (s, c ∷ t)
unfolding match_run
match_run-name [] c t (ne, h) hc = absurd (unfold is_empty in cc)
match_run-name (d ∷ s) c t (ne, h) hc = rw (span-stops is_word (d ∷ s) c t h hc) refl

is_white-word : (c : ℕ) → is_word c ≡ true → is_white c ≡ false
unfolding is_word is_white is_digit lower_rune
is_white-word c h = ground arith

blank-is_white : is_white b' ' ≡ true
unfolding is_white
blank-is_white = refl

match_run-blank :
    (c : ℕ) (s : Text)
    → is_white c ≡ false
    → match_run is_white (b' ' ∷ c ∷ s) ≡ some (b' ' ∷ [], c ∷ s)
unfolding match_run
match_run-blank c s h = rw (span-stops is_white (b' ' ∷ []) c s (blank-is_white, tt) h) refl

match_word-references :
    (s : Text) → match_word (codes "references") (codes "references" ++ s) ≡ some s
unfolding match_word lower_rune
match_word-references s = refl

bracket-is_white : is_white b'(' ≡ false
unfolding is_white
bracket-is_white = refl

r-is_white : is_white b'r' ≡ false
unfolding is_white
r-is_white = refl

dot-is_word : is_word b'.' ≡ false
unfolding is_word is_digit lower_rune
dot-is_word = refl

blank-is_word : is_word b' ' ≡ false
unfolding is_word is_digit lower_rune
blank-is_word = refl

match_names-qualified :
    (schema name t : Text)
    → All (λ c. is_word c ≡ true) schema
    → IsName name
    → match_names (qualified schema name ++ b' ' ∷ t) ≡ some (schema, name, b' ' ∷ t)
unfolding match_names match_second
match_names-qualified [] name t h hn = rw (match_run-name name b' ' t hn blank-is_word) refl
match_names-qualified (c ∷ s) name t h hn =
    rw
      (
        append_assoc s (b'.' ∷ name) (b' ' ∷ t),
        match_run-name (c ∷ s) b'.' (name ++ b' ' ∷ t) (unfold is_empty in refl, h) dot-is_word,
        match_run-name name b' ' t hn blank-is_word,
      )
      refl

match_run-qualified :
    (schema name t : Text)
    → All (λ c. is_word c ≡ true) schema
    → IsName name
    → match_run is_white (b' ' ∷ (qualified schema name ++ t))
      ≡ some (b' ' ∷ [], qualified schema name ++ t)
match_run-qualified (c ∷ s) name t (hc, h) hn =
    match_run-blank c ((s ++ b'.' ∷ name) ++ t) (is_white-word c hc)
match_run-qualified [] (c ∷ name) t h (ne, (hc, hs)) =
    match_run-blank c (name ++ t) (is_white-word c hc)
match_run-qualified [] [] t h (ne, hs) = absurd (unfold is_empty in cc)

match_target-written :
    (cols schema name refs : Text)
    → All (λ c. is_word c ≡ true) schema
    → IsName name
    → IsInner refs
    → match_target cols
        (codes " references " ++ (qualified schema name ++ (codes " (" ++ (refs ++ codes ")"))))
      ≡ some (record { cols = cols; ref_schema = schema; ref_table = name; ref_cols = refs })
unfolding match_target
match_target-written cols schema name refs h hn hi =
    rw
      (
        match_run-blank b'r'
            (codes "eferences " ++ (qualified schema name ++ (codes " (" ++ (refs ++ codes ")"))))
            r-is_white,
        match_word-references
            (b' ' ∷ (qualified schema name ++ (codes " (" ++ (refs ++ codes ")")))),
        match_run-qualified schema name (codes " (" ++ (refs ++ codes ")")) h hn,
        match_names-qualified schema name (b'(' ∷ (refs ++ codes ")")) h hn,
        span-stops is_white (b' ' ∷ []) b'(' (refs ++ codes ")") (blank-is_white, tt)
            bracket-is_white,
        match_group-closed refs [] hi,
      )
      refl

abbrev tail_of : Match → Text
tail_of m =
    codes " references "
    ++ (qualified m.ref_schema m.ref_table ++ (codes " (" ++ (m.ref_cols ++ codes ")")))

-- The expression reads back a reference that is written with one blank between its parts: lists
-- that are not empty and hold no closing bracket, a table's name that is not empty, and a schema
-- or none, both of word characters.
pub match_reference-written :
    (m : Match)
    → IsInner m.cols
    → All (λ c. is_word c ≡ true) m.ref_schema
    → IsName m.ref_table
    → IsInner m.ref_cols
    → match_reference (written m) ≡ some m
unfolding match_reference
match_reference-written m hc h hn hi =
    rw (match_group-closed m.cols (tail_of m) hc)
      (match_target-written m.cols m.ref_schema m.ref_table m.ref_cols h hn hi)
