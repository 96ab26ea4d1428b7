-- ===== src/Prelude/Insertion.antt =====
-- Sorting by insertion, which keeps what sort.Slice promises, and sort.Strings by it.
use mathlib.Core.Path.{◌≡◌, refl, sym, subst, ◌∙◌, ap}
use mathlib.Core.Logic.Or
use mathlib.Core.Bool.{Bool, false, Bool-set}
use mathlib.Core.List.{List, [], ◌∷◌, Mem, Perm, Pairwise, mem-cons, not-mem-nil}
use mathlib.Core.List.Perm
use pdbcore.Prelude.Tests.{if◌then◌else◌, if-all}
use pdbcore.Prelude.Strings.{Text}
use pdbcore.Prelude.Map.{text_lt, insert_text, sort_strings}
use pdbcore.Prelude.Sorting.{
  IsWeakOrder, IsAscending, IsSort, IsAscending-unique, text_order, text_lt_irrefl, text_lt_tri,
}

module _ (A : Type 0) (less : A → A → Bool) where
  unfoldable pub insert_by : A → List A → List A
  insert_by x [] = x ∷ []
  insert_by x (y ∷ ys) = let rest = insert_by x ys in if less y x then y ∷ rest else x ∷ y ∷ ys

  unfoldable pub insertion_sort : List A → List A
  insertion_sort [] = []
  insertion_sort (x ∷ xs) = insert_by x (insertion_sort xs)

  insert_by-perm : (x : A) (ys : List A) → Perm (insert_by x ys) (x ∷ ys)
  unfolding insert_by
  insert_by-perm x [] = Perm.rfl
  insert_by-perm x (y ∷ ys) =
      if-all (λ l. Perm l (x ∷ y ∷ ys)) (less y x) _ _
        (λ e. Perm.trans (Perm.cons y (insert_by-perm x ys)) (Perm.swap x y ys)) (λ e. Perm.rfl)

  pub insertion_sort-perm : (xs : List A) → Perm (insertion_sort xs) xs
  unfolding insertion_sort
  insertion_sort-perm [] = Perm.rfl
  insertion_sort-perm (x ∷ xs) =
      Perm.trans (insert_by-perm x (insertion_sort xs)) (Perm.cons x (insertion_sort-perm xs))

  -- Nothing of a list is less than an element.
  abbrev IsBound : A → List A → Type 0
  IsBound a l = (b : A) → Mem b l → less b a ≡ false

  IsBound-cons : (a x : A) (l : List A) → less x a ≡ false → IsBound a l → IsBound a (x ∷ l)
  IsBound-cons a x l hx h b m =
      Or.elim (Bool-set (less b a) false) (mem-cons.0 m)
        (λ e. subst (λ c. less c a ≡ false) (sym e) hx) (h b)

  insert_by-IsAscending :
      IsWeakOrder less
      → (x : A) (ys : List A) → IsAscending less ys
      → IsAscending less (insert_by x ys)
  unfolding insert_by
  insert_by-IsAscending order x [] h = Pairwise.cons (λ b m. absurd (not-mem-nil m)) Pairwise.nil
  insert_by-IsAscending order x (y ∷ ys) (Pairwise.cons hy h) =
      if-all (IsAscending less) (less y x) _ _
        (λ e.
          Pairwise.cons
            (λ b m.
              IsBound-cons y x ys (order.asym y x e) hy b
                ((Perm.mem_iff (insert_by-perm x ys)).0 m))
            (insert_by-IsAscending order x ys h))
        (λ e.
          Pairwise.cons (IsBound-cons x y ys e (λ b m. order.not_trans x y b e (hy b m)))
            (Pairwise.cons hy h))

  pub insertion_sort-IsAscending :
      IsWeakOrder less → (xs : List A) → IsAscending less (insertion_sort xs)
  unfolding insertion_sort
  insertion_sort-IsAscending order [] = Pairwise.nil
  insertion_sort-IsAscending order (x ∷ xs) =
      insert_by-IsAscending order x (insertion_sort xs) (insertion_sort-IsAscending order xs)

pub insertion_sort-IsSort : IsSort insertion_sort
insertion_sort-IsSort = record {
  permutes = insertion_sort-perm;
  ascends = λ A less l order. insertion_sort-IsAscending A less order l;
}

insert_text-eq : (s : Text) (ts : List Text) → insert_text s ts ≡ insert_by Text text_lt s ts
unfolding insert_text insert_by
insert_text-eq s [] = refl
insert_text-eq s (t ∷ ts) = rw (insert_text-eq s ts) refl

sort_strings-eq : (ts : List Text) → sort_strings ts ≡ insertion_sort Text text_lt ts
unfolding sort_strings insertion_sort
sort_strings-eq [] = refl
sort_strings-eq (t ∷ ts) =
    insert_text-eq t (sort_strings ts) ∙ ap (insert_by Text text_lt t) (sort_strings-eq ts)

-- sort.Strings rearranges.
pub sort_strings-rearranges : (ts : List Text) → Perm (sort_strings ts) ts
sort_strings-rearranges ts =
    subst (λ l. Perm l ts) (sym (sort_strings-eq ts)) (insertion_sort-perm Text text_lt ts)

-- Sorted strings do not depend on how they were arranged.
pub sort_strings-perm : (l r : List Text) → Perm l r → sort_strings l ≡ sort_strings r
sort_strings-perm l r p =
    sort_strings-eq l
    ∙ IsAscending-unique text_lt _ _ text_lt_irrefl (λ a b ma mb. text_lt_tri a b)
        (insertion_sort-IsAscending Text text_lt text_order l)
        (insertion_sort-IsAscending Text text_lt text_order r)
        (Perm.trans (insertion_sort-perm Text text_lt l)
          (Perm.trans p (Perm.symm (insertion_sort-perm Text text_lt r))))
    ∙ sym (sort_strings-eq r)
