-- ===== src/Inflect/Plural.antt =====
-- Singular and plural undo one another on regular nouns.
pub mod Backwards
use pdbcore.Prelude.{
  ◌≡◌, refl, sym, ap, ◌∙◌, ◌+◌, false, ◌||◌, ◌&&◌, [], ◌∷◌, ◌++◌, Text, codes, text_eq,
  text_eq_sound, is_empty, cut_prefix, ◌==◌, if◌then◌else◌, Bool-cases, inl, inr,
}
use mathlib.Core.List.{reverse}
use pdbcore.Inflect.Nouns.{
  has_suffix, irregular, irregular_plurals, irregular_singulars, regular_singular, singularize,
  regular_plural, pluralize,
}
use Backwards.{
  reverse-reverse, has_suffix-reverse, begins_with, backward_plural, regular_plural-reverse,
  regular_singular-reverse, NoE, no_e, backward_undone, backward_plural-s,
}

not_form :
    (q from : Text)
    → begins_with (reverse from) (codes "s") ≡ false
    → text_eq (reverse (b's' ∷ q)) from ≡ false
unfolding begins_with cut_prefix
not_form q from h = elim (Bool-cases (text_eq (reverse (b's' ∷ q)) from)) [
  | inr e ↦ e
  | inl e ↦
      let same : b's' ∷ q ≡ reverse from =
        sym (reverse-reverse (b's' ∷ q)) ∙ ap reverse (text_eq_sound _ from e) in
      absurd (let k = rw (sym same) at h in cc)
]

-- No irregular form ends in s.
irregular-s : (q : Text) → irregular (reverse (b's' ∷ q)) irregular_plurals ≡ []
unfolding irregular begins_with cut_prefix
irregular-s q =
    rw
      (
        not_form q (codes "person") refl,
        not_form q (codes "child") refl,
        has_suffix-reverse (b's' ∷ q) (codes "_person"),
        has_suffix-reverse (b's' ∷ q) (codes "_child"),
      )
      refl

irregular_singulars-s : (q : Text) → irregular (reverse (b's' ∷ q)) irregular_singulars ≡ []
unfolding irregular begins_with cut_prefix
irregular_singulars-s q =
    rw
      (
        not_form q (codes "people") refl,
        not_form q (codes "children") refl,
        has_suffix-reverse (b's' ∷ q) (codes "_people"),
        has_suffix-reverse (b's' ∷ q) (codes "_children"),
      )
      refl

singularize-s :
    (q : Text) → singularize (reverse (b's' ∷ q)) ≡ regular_singular (reverse (b's' ∷ q))
unfolding singularize is_empty
singularize-s q = rw (irregular_singulars-s q, irregular-s q) refl

pluralize-regular :
    (s : Text)
    → irregular s irregular_plurals ≡ []
    → irregular s irregular_singulars ≡ []
    → pluralize s ≡ regular_plural s
unfolding pluralize is_empty
pluralize-regular s h k = rw (h, k) refl

singularize-backward_plural :
    (r : Text) → NoE r → singularize (reverse (backward_plural r)) ≡ reverse r
singularize-backward_plural r h =
    let (q, e) = backward_plural-s r in
    ap (λ (t : Text). singularize (reverse t)) e
    ∙ singularize-s q
    ∙ ap (λ (t : Text). regular_singular (reverse t)) (sym e)
    ∙ regular_singular-reverse (backward_plural r)
    ∙ ap reverse (backward_undone r h)

-- Singularize undoes Pluralize on every name that does not end in e and does not end, as a word
-- of its own or behind an underscore, in an irregular form.
pub singularize-pluralize :
    (s : Text)
    → irregular s irregular_plurals ≡ []
    → irregular s irregular_singulars ≡ []
    → has_suffix s (codes "e") ≡ false
    → singularize (pluralize s) ≡ s
unfolding has_suffix
singularize-pluralize s h k e =
    ap singularize (
      pluralize-regular s h k
      ∙ ap regular_plural (sym (reverse-reverse s))
      ∙ regular_plural-reverse (reverse s))
    ∙ singularize-backward_plural (reverse s) (no_e (reverse s) e)
    ∙ reverse-reverse s
