-- ===== src/Introspect/Readers/Whole.antt =====
-- What holds of every catalog that Introspect gives.
use pdbcore.Prelude.{
  ◌≡◌, refl, sym, ap, subst, ◌∙◌, Bool, true, false, ◌||◌, List, [], ◌∷◌, Text, any, All,
  All-weaken, arith,
}
use mathlib.Core.Bool.{Bool-set}
use mathlib.Core.List.{Mem, Perm, mem-cons_self, mem-cons_of_mem, mem-cons, foldr, not-mem-nil}
use mathlib.Core.List.Perm
use mathlib.Core.Logic.Or
use pdbcore.Prelude.Sorting.{IsSort}
use pdbcore.Introspect.Catalog.{Table, Column, Enum, Catalog}
use pdbcore.Introspect.EnumTables.{Answer, ok, convert_enum_tables}
use pdbcore.Introspect.EnumTables.Refs.{is_backing, Resolves}
use pdbcore.Introspect.Hash.{sort_stable, IsRearranged, sort_stable-IsRearranged}
use pdbcore.Introspect.Readers.{Rows}
use pdbcore.Introspect.Readers.Build.{read_catalog, introspect}
use pdbcore.Introspect.Readers.Readable.{
  ResultAll, bind-ResultAll, AllFresh, read_catalog-ResultAll, IsServable, fresh-Servable,
  convert-Servable,
}

or_comm : (a b c : Bool) → a || (b || c) ≡ b || (a || c)
or_comm a b c = ground arith

module _ {A : Type 0} where
  any-foldr : (p : A → Bool) (l : List A) → any p l ≡ foldr (λ x b. p x || b) false l
  unfolding any
  any-foldr p [] = refl
  any-foldr p (x ∷ l) = ap (λ b. p x || b) (any-foldr p l)

  any-perm : (p : A → Bool) (l r : List A) → Perm l r → any p l ≡ any p r
  any-perm p l r h =
      any-foldr p l
      ∙ Perm.foldr-eq Bool-set (λ x b. p x || b) (λ a b c. or_comm (p a) (p b) c) h false
      ∙ sym (any-foldr p r)

  module _ (P : A → Type 0) (prop : (a : A) → IsProp (P a)) where
    All-at : (l : List A) (a : A) → All P l → Mem a l → P a
    All-at [] a h m = absurd (not-mem-nil m)
    All-at (x ∷ l) a (hx, h) m =
        Or.elim (prop a) (mem-cons.0 m) (λ e. subst P (sym e) hx) (All-at l a h)

    All-of : (l : List A) → ((a : A) → Mem a l → P a) → All P l
    All-of [] f = tt
    All-of (x ∷ l) f = (f x mem-cons_self, All-of l (λ a m. f a (mem-cons_of_mem x m)))

    All-perm : (l r : List A) → Perm l r → All P l → All P r
    All-perm l r p h = All-of r (λ a m. All-at l a h ((Perm.mem_iff p).1 m))

All-prop :
    {A : Type 0} (P : A → Type 0) → ((a : A) → IsProp (P a)) → (l : List A) → IsProp (All P l)
All-prop P prop [] h k = refl
All-prop P prop (x ∷ l) (h, hs) (k, ks) = λ i. (prop x h k i, All-prop P prop l hs ks i)

Resolves-prop : (enums : List Enum) (c : Column) → IsProp (Resolves enums c)
Resolves-prop enums c f g = λ i e. Bool-set _ _ (f e) (g e) i

IsServable-rearranged : (c d : Catalog) → IsRearranged c d → IsServable c → IsServable d
IsServable-rearranged c d same h = record {
  readable =
      All-perm (λ (t : Table). t.privileges.may_select ≡ true) (λ t. Bool-set _ _) c.tables d.tables
        same.tables_perm h.readable;
  resolved =
      All-perm (λ (t : Table). All (Resolves d.enums) t.columns)
        (λ t. All-prop (Resolves d.enums) (Resolves-prop d.enums) t.columns) c.tables d.tables
        same.tables_perm
        (All-weaken _ _ c.tables
          (λ t k.
            All-weaken _ _ t.columns
              (λ col r e.
                sym (any-perm (is_backing col.enum_ref) c.enums d.enums same.enums_perm) ∙ r e)
              k)
          h.resolved);
}

-- Whatever the queries answer, in every catalog that Introspect gives the role may select from
-- each table, and each column that is typed as an enum by its EnumRef finds that enum.
pub introspect-IsServable :
    (sort_slice : (A : Type 0) → (A → A → Bool) → List A → List A) (db : Rows)
    (enum_rows : Text → Answer) (schemas : List Text) (cat : Catalog)
    → IsSort sort_slice
    → introspect sort_slice db enum_rows schemas ≡ ok cat
    → IsServable cat
unfolding introspect
introspect-IsServable sort_slice db enum_rows schemas cat is_sort e =
    subst (ResultAll IsServable) e (
      bind-ResultAll AllFresh IsServable (read_catalog db schemas) _
        (read_catalog-ResultAll db schemas)
        λ c h.
          bind-ResultAll IsServable IsServable (convert_enum_tables enum_rows c) _
            (convert-Servable enum_rows c (fresh-Servable c h))
            λ d k.
              IsServable-rearranged d (sort_stable sort_slice d)
                (sort_stable-IsRearranged sort_slice is_sort d) k)
