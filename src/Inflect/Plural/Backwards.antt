-- ===== src/Inflect/Plural/Backwards.antt =====
-- The rules of Singularize and Pluralize on names that are read from the end.
use pdbcore.Prelude.{
  ◌≡◌, refl, sym, ap, ◌∙◌, ℕ, ◌+◌, Bool, true, false, not, ◌||◌, ◌&&◌, [], ◌∷◌, ◌++◌, Text, codes,
  cut_prefix, length, ltb, ◌==◌, if◌then◌else◌, if-all, arith,
}
use mathlib.Core.List.{reverse, reverse_aux}
use pdbcore.Inflect.Nouns.{
  is_found, has_suffix, drop, drop_last, regular_singular, vowel_first, behind_consonant,
  regular_plural,
}

reverse_aux-append : (s t r : Text) → reverse_aux (s ++ t) r ≡ reverse_aux t (reverse_aux s r)
reverse_aux-append [] t r = refl
reverse_aux-append (c ∷ s) t r = reverse_aux-append s t (c ∷ r)

reverse_aux-reverse_aux : (s r t : Text) → reverse_aux (reverse_aux s r) t ≡ reverse_aux r (s ++ t)
reverse_aux-reverse_aux [] r t = refl
reverse_aux-reverse_aux (c ∷ s) r t = reverse_aux-reverse_aux s (c ∷ r) t

append-nil-text : (s : Text) → s ++ [] ≡ s
append-nil-text [] = refl
append-nil-text (c ∷ s) = ap (◌∷◌ c) (append-nil-text s)

pub reverse-reverse : (s : Text) → reverse (reverse s) ≡ s
reverse-reverse s = reverse_aux-reverse_aux s [] [] ∙ append-nil-text s

-- A text put behind a text that is given backwards.
append-reverse : (r t : Text) → reverse r ++ t ≡ reverse (reverse_aux t r)
append-reverse r t =
    sym (reverse-reverse (reverse r ++ t))
    ∙ ap reverse (reverse_aux-append (reverse r) t [] ∙ ap (reverse_aux t) (reverse-reverse r))

length-reverse_aux : (s r : Text) → length (reverse_aux s r) ≡ length s + length r
length-reverse_aux [] r = omega arith
length-reverse_aux (c ∷ s) r = omega (arith, length-reverse_aux s (c ∷ r))

length-reverse : (r : Text) → length (reverse r) ≡ length r
length-reverse r = omega (arith, length-reverse_aux r [])

pub has_suffix-reverse :
    (r p : Text) → has_suffix (reverse r) p ≡ is_found (cut_prefix r (reverse p))
unfolding has_suffix
has_suffix-reverse r p = ap (λ (t : Text). is_found (cut_prefix t (reverse p))) (reverse-reverse r)

drop_last-reverse : (n : ℕ) (r : Text) → drop_last n (reverse r) ≡ reverse (drop n r)
unfolding drop_last
drop_last-reverse n r = ap (λ (t : Text). reverse (drop n t)) (reverse-reverse r)

-- The rules on texts that are given backwards.
unfoldable pub begins_with : Text → Text → Bool
begins_with r p = is_found (cut_prefix r p)

takes_ies : Text → Bool
takes_ies r = begins_with r (codes "y") && (ltb 1 (length r) && not (vowel_first (drop 1 r)))

takes_es : Text → Bool
takes_es r =
    begins_with r (codes "s")
    || begins_with r (codes "x")
    || begins_with r (codes "z")
    || begins_with r (codes "hc")
    || begins_with r (codes "hs")

pub backward_plural : Text → Text
backward_plural r =
    if takes_ies r
    then codes "sei" ++ drop 1 r
    else if takes_es r
    then codes "se" ++ r
    else codes "s" ++ r

has_ies : Text → Bool
has_ies r = begins_with r (codes "sei") && ltb 3 (length r)

has_es : Text → Bool
has_es r =
    begins_with r (codes "ses")
    || begins_with r (codes "sex")
    || begins_with r (codes "sez")
    || begins_with r (codes "sehc")
    || begins_with r (codes "sehs")

has_s : Text → Bool
has_s r = begins_with r (codes "s") && not (begins_with r (codes "ss"))

pub backward_singular : Text → Text
backward_singular r =
    if has_ies r
    then codes "y" ++ drop 3 r
    else if has_es r
    then drop 2 r
    else if has_s r
    then drop 1 r
    else r

if-reverse :
    (b c : Bool) (x y : Text) (x' y' : Text)
    → b ≡ c
    → x ≡ reverse x'
    → y ≡ reverse y'
    → (if b then x else y) ≡ reverse (if c then x' else y')
if-reverse true true x y x' y' h e k = e
if-reverse false false x y x' y' h e k = k
if-reverse true false x y x' y' h e k = absurd (cc)
if-reverse false true x y x' y' h e k = absurd (cc)

pub regular_plural-reverse : (r : Text) → regular_plural (reverse r) ≡ reverse (backward_plural r)
unfolding regular_plural backward_plural takes_ies takes_es begins_with behind_consonant
regular_plural-reverse r =
    if-reverse _ (takes_ies r) _ _ (codes "sei" ++ drop 1 r)
      (if takes_es r then codes "se" ++ r else codes "s" ++ r)
      (rw (has_suffix-reverse r (codes "y"), length-reverse r, reverse-reverse r) refl)
      (ap (λ (t : Text). t ++ codes "ies") (drop_last-reverse 1 r)
        ∙ append-reverse (drop 1 r) (codes "ies"))
      (if-reverse _ (takes_es r) _ _ (codes "se" ++ r) (codes "s" ++ r)
        (rw
          (
            has_suffix-reverse r (codes "s"),
            has_suffix-reverse r (codes "x"),
            has_suffix-reverse r (codes "z"),
            has_suffix-reverse r (codes "ch"),
            has_suffix-reverse r (codes "sh"),
          )
          refl)
        (append-reverse r (codes "es")) (append-reverse r (codes "s")))

pub regular_singular-reverse :
    (r : Text) → regular_singular (reverse r) ≡ reverse (backward_singular r)
unfolding regular_singular backward_singular has_ies has_es has_s begins_with
regular_singular-reverse r =
    if-reverse _ (has_ies r) _ _ (codes "y" ++ drop 3 r)
      (if has_es r then drop 2 r else if has_s r then drop 1 r else r)
      (rw (has_suffix-reverse r (codes "ies"), length-reverse r) refl)
      (ap (λ (t : Text). t ++ codes "y") (drop_last-reverse 3 r)
        ∙ append-reverse (drop 3 r) (codes "y"))
      (if-reverse _ (has_es r) _ _ (drop 2 r) (if has_s r then drop 1 r else r)
        (rw
          (
            has_suffix-reverse r (codes "ses"),
            has_suffix-reverse r (codes "xes"),
            has_suffix-reverse r (codes "zes"),
            has_suffix-reverse r (codes "ches"),
            has_suffix-reverse r (codes "shes"),
          )
          refl)
        (drop_last-reverse 2 r)
        (if-reverse _ (has_s r) _ _ (drop 1 r) r
          (rw (has_suffix-reverse r (codes "s"), has_suffix-reverse r (codes "ss")) refl)
          (drop_last-reverse 1 r) refl))

-- A text that does not begin with an e.
abbrev pub NoE : Text → Type 0
NoE [] = Unit
NoE (c ∷ r) = (c == b'e') ≡ false

pub no_e : (r : Text) → is_found (cut_prefix r (codes "e")) ≡ false → NoE r
unfolding cut_prefix
no_e [] h = tt
no_e (c ∷ r) h = ground arith

undone_ies : (r : Text) → takes_ies r ≡ true → backward_singular (codes "sei" ++ drop 1 r) ≡ r
unfolding backward_singular takes_ies has_ies begins_with cut_prefix drop
undone_ies [] h = cc
undone_ies (c ∷ []) h = absurd (ground arith)
undone_ies (c ∷ d ∷ r) h = ground arith

undone_es : (r : Text) → takes_es r ≡ true → backward_singular (codes "se" ++ r) ≡ r
unfolding backward_singular takes_es has_ies has_es begins_with cut_prefix drop
undone_es [] h = cc
undone_es (c ∷ []) h = ground arith
undone_es (c ∷ d ∷ r) h = ground arith

undone_s : (r : Text) → NoE r → takes_es r ≡ false → backward_singular (codes "s" ++ r) ≡ r
unfolding backward_singular takes_es has_ies has_es has_s begins_with cut_prefix drop
undone_s [] h k = refl
undone_s (c ∷ r) h k = ground arith

pub backward_undone : (r : Text) → NoE r → backward_singular (backward_plural r) ≡ r
unfolding backward_plural
backward_undone r h =
    if-all (λ (t : Text). backward_singular t ≡ r) (takes_ies r) _ _ (undone_ies r)
      (λ e.
        if-all (λ (t : Text). backward_singular t ≡ r) (takes_es r) _ _ (undone_es r)
          (undone_s r h))

pub backward_plural-s : (r : Text) → (q : Text) × (backward_plural r ≡ b's' ∷ q)
unfolding backward_plural
backward_plural-s r =
    if-all (λ (t : Text). (q : Text) × (t ≡ b's' ∷ q)) (takes_ies r) _ _
      (λ e. (codes "ei" ++ drop 1 r, refl))
      (λ e.
        if-all (λ (t : Text). (q : Text) × (t ≡ b's' ∷ q)) (takes_es r) _ _
          (λ e. (codes "e" ++ r, refl)) (λ e. (r, refl)))
