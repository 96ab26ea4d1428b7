-- ===== src/Introspect/EnumTables/Closed.antt =====
-- The references of a catalog after the conversion: those between tables, and those to enums.
use pdbcore.Prelude.{
  ◌≡◌, refl, ◌∙◌, subst, arith, Bool, true, false, not, ◌||◌, List, [], ◌∷◌, Text, text_eq,
  text_eq_iff, map, keep, All, if-all,
}
use pdbcore.Prelude.Map.{Map}
use pdbcore.Introspect.Catalog.{ForeignKey, Table, Catalog, table_key}
use pdbcore.Introspect.EnumTables.{
  Answer, Result, failed, ok, Converted, collect, is_key, rebind_table, rebuild,
  convert_enum_tables,
}

-- There is a table of that name.
unfoldable pub exists_table : List Table → Text → Bool
exists_table [] k = false
exists_table (t ∷ ts) k = text_eq (table_key t.schema t.name) k || exists_table ts k

-- Every foreign key of every table refers to a table.
abbrev pub IsClosed : List Table → List Table → Type 0
IsClosed all ts =
    All
      (λ (t : Table).
        All (λ (fk : ForeignKey). exists_table all (table_key fk.ref_schema fk.ref_table) ≡ true)
          t.foreign_keys)
      ts

exists_table-rebuild :
    (vcs : Map Text) (ts : List Table) (k : Text)
    → is_key vcs k ≡ false
    → exists_table
        (map
          (rebind_table vcs)
          (keep (λ (t : Table). not (is_key vcs (table_key t.schema t.name))) ts))
        k
      ≡ exists_table ts k
unfolding exists_table keep rebind_table
exists_table-rebuild vcs [] k h = refl
exists_table-rebuild vcs (t ∷ ts) k h =
    ground (arith, exists_table-rebuild vcs ts k h, text_eq_iff (table_key t.schema t.name) k)

pub keep-All :
    {A : Type 0} (P : A → Type 0) (Q : A → Type 0) (p : A → Bool) (xs : List A)
    → ((x : A) → p x ≡ true → P x → Q x)
    → All P xs
    → All Q (keep p xs)
unfolding keep
keep-All P Q p [] f h = tt
keep-All P Q p (x ∷ xs) f (hx, h) =
    if-all (All Q) (p x) _ _ (λ e. (f x e hx, keep-All P Q p xs f h)) (λ e. keep-All P Q p xs f h)

pub map-All :
    {A : Type 0} (P : A → Type 0) (Q : A → Type 0) (f : A → A) (xs : List A)
    → ((x : A) → P x → Q (f x))
    → All P xs
    → All Q (map f xs)
map-All P Q f [] g h = tt
map-All P Q f (x ∷ xs) g (hx, h) = (g x hx, map-All P Q f xs g h)

rebuild-IsClosed :
    (cat : Catalog) (acc : Converted)
    → IsClosed cat.tables cat.tables
    → IsClosed (rebuild cat acc).tables (rebuild cat acc).tables
unfolding rebuild rebind_table
rebuild-IsClosed cat (vcs, []) h = h
rebuild-IsClosed cat (vcs, e ∷ es) h =
    map-All _ _ (rebind_table vcs) _
      (λ t.
        keep-All _ _ _ t.foreign_keys
          (λ fk unconverted kept. exists_table-rebuild vcs cat.tables _ (ground arith) ∙ kept))
      (keep-All _ _ _ cat.tables (λ t e' k. k) h)

pub ok_injective : {A : Type 0} {a b : A} → ok a ≡ ok b → a ≡ b
ok_injective h = cc

-- The conversion leaves no foreign key dangling: if every foreign key of a catalog refers to one
-- of its tables, then so it is in the converted catalog, although tables have left it.
pub convert_enum_tables-IsClosed :
    (db : Text → Answer) (cat cat' : Catalog)
    → IsClosed cat.tables cat.tables
    → convert_enum_tables db cat ≡ ok cat'
    → IsClosed cat'.tables cat'.tables
unfolding convert_enum_tables
convert_enum_tables-IsClosed db cat cat' h e = by_collected (collect db cat.tables ([], [])) refl
  where
    by_collected :
        (r : Result Converted)
        → collect db cat.tables ([], []) ≡ r
        → IsClosed cat'.tables cat'.tables
    by_collected (failed err) c = absurd (cc)
    by_collected (ok acc) c =
        subst (λ (x : Catalog). IsClosed x.tables x.tables)
          (ok_injective (rw (c, convert_enum_tables) at e)) (rebuild-IsClosed cat acc h)
