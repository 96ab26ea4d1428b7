-- ===== src/Prelude/Sorting.antt =====
-- sort.Slice, the orders that it is called with, and why it gives one list for all arrangements.
use mathlib.Core.Path.{◌≡◌, refl, sym, subst, ◌∙◌, ap₂}
use mathlib.Core.Logic.{inl, inr}
use mathlib.Core.Logic.Or
use mathlib.Core.Bool.{Bool, true, false, not, Bool-set}
use mathlib.Core.List.{List, [], ◌∷◌, Mem, Perm, Pairwise, mem-cons_self, mem-cons_of_mem, mem-cons}
use mathlib.Core.List.Pairwise
use mathlib.Core.List.Perm
use native.Mathlib.Omega.{arith}
use pdbcore.Prelude.Tests.{if◌then◌else◌, Bool-cases}
use pdbcore.Prelude.Strings.{Text, text_eq, text_eq_iff, text_eq_sound, text_eq_refl}
use pdbcore.Prelude.Map.{text_lt}

-- The order of the names of two schemas' objects: by schema, then by name.
unfoldable pub key_less : Text × Text → Text × Text → Bool
key_less (s, n) (t, m) = if not (text_eq s t) then text_lt s t else text_lt n m

module _ {A : Type 0} where
  -- A strict weak order, what sort.Slice asks of its argument.
  pub record IsWeakOrder (less : A → A → Bool) : Type 0 where
    pub asym : (a b : A) → less a b ≡ true → less b a ≡ false
    pub not_trans : (a b c : A) → less b a ≡ false → less c b ≡ false → less c a ≡ false

  -- Nothing is less than something in front of it.
  abbrev pub IsAscending : (A → A → Bool) → List A → Type 0
  IsAscending less = Pairwise (λ a b. less b a ≡ false)

  -- Elements of a list that the order does not tell apart are one.
  abbrev pub HasNoTies : (A → A → Bool) → List A → Type 0
  HasNoTies less l = (a b : A) → Mem a l → Mem b l → less a b ≡ false → less b a ≡ false → a ≡ b

-- What the documentation of sort.Slice promises: the same elements, in ascending order. Nothing
-- is said of equal elements.
pub record IsSort (sort_slice : (A : Type 0) → (A → A → Bool) → List A → List A) : Type 1 where
  pub permutes : (A : Type 0) (less : A → A → Bool) (l : List A) → Perm (sort_slice A less l) l
  pub ascends :
      (A : Type 0) (less : A → A → Bool) (l : List A)
      → IsWeakOrder less
      → IsAscending less (sort_slice A less l)

pub text_lt_irrefl : (s : Text) → text_lt s s ≡ false
unfolding text_lt
text_lt_irrefl [] = refl
text_lt_irrefl (c ∷ s) = ground (arith, text_lt_irrefl s)

pub text_lt_tri : (s t : Text) → text_lt s t ≡ false → text_lt t s ≡ false → s ≡ t
unfolding text_lt
text_lt_tri [] [] h k = refl
text_lt_tri [] (d ∷ t) h k = cc
text_lt_tri (c ∷ s) [] h k = cc
text_lt_tri (c ∷ s) (d ∷ t) h k = ground (arith, text_lt_tri s t)

text_lt_asym : (s t : Text) → text_lt s t ≡ true → text_lt t s ≡ false
unfolding text_lt
text_lt_asym [] [] h = refl
text_lt_asym [] (d ∷ t) h = refl
text_lt_asym (c ∷ s) [] h = cc
text_lt_asym (c ∷ s) (d ∷ t) h = ground (arith, text_lt_asym s t)

text_lt_not_trans : (s t u : Text) → text_lt t s ≡ false → text_lt u t ≡ false → text_lt u s ≡ false
unfolding text_lt
text_lt_not_trans [] [] [] h k = refl
text_lt_not_trans [] [] (e ∷ u) h k = refl
text_lt_not_trans [] (d ∷ t) [] h k = refl
text_lt_not_trans [] (d ∷ t) (e ∷ u) h k = refl
text_lt_not_trans (c ∷ s) [] u h k = absurd (cc)
text_lt_not_trans (c ∷ s) (d ∷ t) [] h k = absurd (cc)
text_lt_not_trans (c ∷ s) (d ∷ t) (e ∷ u) h k = ground (arith, text_lt_not_trans s t u)

key_less_same : (s n t m : Text) → text_eq s t ≡ true → key_less (s, n) (t, m) ≡ text_lt n m
unfolding key_less
key_less_same s n t m e = rw e refl

key_less_other : (s n t m : Text) → text_eq s t ≡ false → key_less (s, n) (t, m) ≡ text_lt s t
unfolding key_less
key_less_other s n t m e = rw e refl

text_eq_comm : (s t : Text) → text_eq s t ≡ text_eq t s
text_eq_comm s t = ground (arith, text_eq_iff s t, text_eq_iff t s)

key_less_asym : (a b : Text × Text) → key_less a b ≡ true → key_less b a ≡ false
unfolding key_less
key_less_asym (s, n) (t, m) h = ground (arith, text_eq_comm s t, text_lt_asym s t, text_lt_asym n m)

key_less_tri : (a b : Text × Text) → key_less a b ≡ false → key_less b a ≡ false → a ≡ b
unfolding key_less
key_less_tri (s, n) (t, m) h k = elim (Bool-cases (text_eq s t)) [
  | inl e ↦
      ap₂ (λ (x y : Text). (x, y)) (text_eq_sound s t e)
        (text_lt_tri n m (rw e at h) (rw (text_eq_comm t s, e) at k))
  | inr e ↦ absurd (
      let same = text_lt_tri s t (rw e at h) (rw (text_eq_comm t s, e) at k) in
      ground (arith, text_eq_iff s t))
]

key_less_not_trans :
    (a b c : Text × Text) → key_less b a ≡ false → key_less c b ≡ false → key_less c a ≡ false
unfolding key_less
key_less_not_trans (s, n) (t, m) (u, o) h k = ground (
  arith,
  text_eq_iff s t,
  text_eq_iff t s,
  text_eq_iff t u,
  text_eq_iff u t,
  text_eq_iff u s,
  text_lt_not_trans s t u,
  text_lt_not_trans n m o,
  text_lt_tri s t,
  text_lt_tri t u,
)

pub text_order : IsWeakOrder text_lt
text_order = record { asym = text_lt_asym; not_trans = text_lt_not_trans }

module _ {A : Type 0} (less : A → A → Bool) where
  behind_head :
      (a b : A) (l : List A)
      → less a a ≡ false
      → IsAscending less (a ∷ l)
      → Mem b (a ∷ l)
      → less b a ≡ false
  behind_head a b l irrefl (Pairwise.cons h p) m =
      Or.elim (Bool-set (less b a) false) (mem-cons.0 m)
        (λ e. subst (λ x. less x a ≡ false) (sym e) irrefl) (h b)

  -- Two ascending arrangements of a list without ties are one.
  pub IsAscending-unique :
      (l r : List A)
      → ((a : A) → less a a ≡ false)
      → HasNoTies less l
      → IsAscending less l
      → IsAscending less r
      → Perm l r
      → l ≡ r
  IsAscending-unique [] r irrefl ties hl hr p = Perm.nil-eq p
  IsAscending-unique (a ∷ l) [] irrefl ties hl hr p = Perm.eq-nil p
  IsAscending-unique (a ∷ l) (b ∷ r) irrefl ties hl hr p =
      let b_inside : Mem b (a ∷ l) = (Perm.mem_iff p).1 mem-cons_self in
      let a_inside : Mem a (b ∷ r) = (Perm.mem_iff p).0 mem-cons_self in
      let same_head : a ≡ b =
        ties a b mem-cons_self b_inside (behind_head b a r (irrefl b) hr a_inside)
          (behind_head a b l (irrefl a) hl b_inside) in
      let rest_perm = Perm.cons_inv (Perm.trans p (Perm.symm (Perm.cons' same_head Perm.rfl))) in
      ap₂ ◌∷◌ same_head (
        IsAscending-unique l r irrefl
          (λ x y mx my. ties x y (mem-cons_of_mem a mx) (mem-cons_of_mem a my))
          (Pairwise.of_cons hl) (Pairwise.of_cons hr) rest_perm)

module _ {A : Type 0} (key : A → Text × Text) where
  -- The order of objects by what stands for schema and name.
  abbrev pub by_key : A → A → Bool
  by_key a b = key_less (key a) (key b)

  -- Objects of a list with one key are one.
  abbrev pub IsKeyed : List A → Type 0
  IsKeyed l = (a b : A) → Mem a l → Mem b l → key a ≡ key b → a ≡ b

  by_key-IsWeakOrder : IsWeakOrder by_key
  by_key-IsWeakOrder = record {
    asym = λ a b. key_less_asym (key a) (key b);
    not_trans = λ a b c. key_less_not_trans (key a) (key b) (key c);
  }

  by_key_irrefl : (a : A) → by_key a a ≡ false
  by_key_irrefl a =
      key_less_same (key a).0 (key a).1 (key a).0 (key a).1 (text_eq_refl (key a).0)
      ∙ text_lt_irrefl (key a).1

  -- Sorting two arrangements of a list whose objects have their own keys gives one list.
  pub sort_slice-perm :
      (sort_slice : (B : Type 0) → (B → B → Bool) → List B → List B)
      → IsSort sort_slice
      → (l r : List A) → IsKeyed l
      → Perm l r
      → sort_slice A by_key l ≡ sort_slice A by_key r
  sort_slice-perm sort_slice is_sort l r keyed p =
      IsAscending-unique by_key _ _ by_key_irrefl
        (λ a b ma mb h k.
          keyed a b ((Perm.mem_iff (is_sort.permutes A by_key l)).0 ma)
            ((Perm.mem_iff (is_sort.permutes A by_key l)).0 mb) (key_less_tri (key a) (key b) h k))
        (is_sort.ascends A by_key l by_key-IsWeakOrder)
        (is_sort.ascends A by_key r by_key-IsWeakOrder)
        (Perm.trans (is_sort.permutes A by_key l)
          (Perm.trans p (Perm.symm (is_sort.permutes A by_key r))))
