-- ===== src/Smartcomments/Tagged.antt =====
-- How the catalog that the hook leaves belongs to the one that it was given.
use pdbcore.Prelude.{
  ◌≡◌, refl, subst, ◌∙◌, ◌⊎◌, inl, inr, Bool, ◌&&◌, List, [], ◌∷◌, some, Text, text_eq, find, keep,
  all, All, All-weaken, Bool-cases,
}
use mathlib.Core.List.{Mem}
use pdbcore.Smarttags.{Tags}
use pdbcore.Introspect.Catalog.{Column, ForeignKey, Table, Catalog, column, table, table_key}
use pdbcore.Smartcomments.{Index, build_index}
use pdbcore.Smartcomments.Hook.{
  is_some, columns_exist, tag_column, tag_columns, apply_table_tags, apply_tables, table_shown,
  transform_catalog, tags_at,
}
use pdbcore.Smartcomments.Keys.{IsSound, IsOldOrSound, apply_table_tags-All}

find-tag_columns :
    (tags_of : Column → Tags) (name : Text) (cols : List Column)
    → is_some (find (λ c. text_eq c.name name) (tag_columns tags_of cols))
      ≡ is_some (find (λ c. text_eq c.name name) cols)
unfolding tag_columns tag_column find
find-tag_columns tags_of name [] = refl
find-tag_columns tags_of name (c ∷ cols) = elim (Bool-cases (text_eq c.name name)) [
  | inl e ↦ rw e refl
  | inr e ↦ rw e (find-tag_columns tags_of name cols)
]

-- A table of the same name with columns of the same names.
pub record IsSameShape (t u : Table) : Type 0 where
  pub same_schema : u.schema ≡ t.schema
  pub same_name : u.name ≡ t.name
  pub same_columns : (cols : List Text) → columns_exist u cols ≡ columns_exist t cols

module _ (tags_of : Column → Tags) (t u : Table)
    (e : u.columns ≡ tag_columns tags_of t.columns) where
  column-tagged : (name : Text) → is_some (column u name) ≡ is_some (column t name)
  unfolding column
  column-tagged name = rw e (find-tag_columns tags_of name t.columns)

  columns_exist-tagged : (cols : List Text) → columns_exist u cols ≡ columns_exist t cols
  unfolding columns_exist all
  columns_exist-tagged [] = refl
  columns_exist-tagged (c ∷ cols) = rw (column-tagged c, columns_exist-tagged cols) refl

apply_table_tags-IsSameShape :
    (c : Catalog) (tags : Tags) (ix : Index) (t : Table)
    → IsSameShape t (apply_table_tags c tags ix t).1
unfolding apply_table_tags
apply_table_tags-IsSameShape c tags ix t = record {
  same_schema = refl;
  same_name = refl;
  same_columns = columns_exist-tagged _ t (apply_table_tags c tags ix t).1 refl;
}

-- Two lists whose elements belong to one another, in order.
abbrev pub AllPairs : {A B : Type 0} → (A → B → Type 0) → List A → List B → Type 0
AllPairs R [] [] = Unit
AllPairs R (a ∷ l) (b ∷ r) = R a b × AllPairs R l r
AllPairs R [] (b ∷ r) = ⊥
AllPairs R (a ∷ l) [] = ⊥

AllPairs-weaken :
    (R S : Table → Table → Type 0) (l r : List Table)
    → ((a b : Table) → R a b → S a b)
    → AllPairs R l r
    → AllPairs S l r
AllPairs-weaken R S [] [] f h = tt
AllPairs-weaken R S (a ∷ l) (b ∷ r) f (h, hs) = (f a b h, AllPairs-weaken R S l r f hs)
AllPairs-weaken R S [] (b ∷ r) f h = h
AllPairs-weaken R S (a ∷ l) [] f h = h

-- The same shape, and no keys but the old ones and those that are sound in a catalog.
abbrev IsStep : Catalog → Table → Table → Type 0
IsStep c t u = IsSameShape t u × All (IsOldOrSound c t) u.foreign_keys

apply_tables-AllPairs :
    (c : Catalog) (ts : List Table) (ix : Index) → AllPairs (IsStep c) ts (apply_tables c ts ix).1
unfolding apply_tables
apply_tables-AllPairs c [] ix = tt
apply_tables-AllPairs c (t ∷ ts) ix =
    let tags = tags_at (table_key t.schema t.name) ix.tables.exact in
    (
      (apply_table_tags-IsSameShape c tags ix t, apply_table_tags-All c tags ix t),
      apply_tables-AllPairs c ts (apply_table_tags c tags ix t).0,
    )

module _ (schema name : Text) where
  -- The test of Catalog.Table.
  abbrev is_named : Table → Bool
  is_named t = text_eq t.schema schema && text_eq t.name name

  is_named-same : (t u : Table) → IsSameShape t u → is_named u ≡ is_named t
  is_named-same t u h = rw (h.same_schema, h.same_name) refl

  -- What is found in the one list has its counterpart found in the other.
  find-AllPairs :
      (R : Table → Table → Type 0)
      → ((t u : Table) → R t u → IsSameShape t u)
      → (l r : List Table) (t : Table) → AllPairs R l r
      → find is_named l ≡ some t
      → (u : Table) × (find is_named r ≡ some u) × IsSameShape t u
  unfolding find
  find-AllPairs R shape [] [] t h e = absurd (cc)
  find-AllPairs R shape (a ∷ l) (b ∷ r) t (h, hs) e = elim (Bool-cases (is_named a)) [
    | inl q ↦
        let same : some a ≡ some t = rw q at e in
        (
          b,
          rw (is_named-same a b (shape a b h), q) refl,
          subst (λ x. IsSameShape x b) (cc) (shape a b h),
        )
    | inr q ↦
        let (u, found, same) = find-AllPairs R shape l r t hs (rw q at e) in
        (u, rw (is_named-same a b (shape a b h), q) found, same)
  ]
  find-AllPairs R shape [] (b ∷ r) t h e = absurd h
  find-AllPairs R shape (a ∷ l) [] t h e = absurd h

-- A table that the hook has left, in the catalog that it leaves: the shape that it had, and no
-- keys but those that it had and sound ones.
pub record IsTagged (final : Catalog) (t u : Table) : Type 0 where
  pub shape : IsSameShape t u
  pub keys : All (λ fk. Mem fk t.foreign_keys ⊎ IsSound final u fk) u.foreign_keys

module _ (c d : Catalog) (pairs : AllPairs (IsStep c) c.tables d.tables) where
  IsSound-final :
      (t u : Table) (fk : ForeignKey) → IsSameShape t u → IsSound c t fk → IsSound d u fk
  unfolding table
  IsSound-final t u fk shape sound =
      let (target, found, same) =
        find-AllPairs fk.ref_schema fk.ref_table (IsStep c) (λ a b h. h.0) c.tables d.tables
          sound.target pairs sound.found in
      record {
        some_columns = sound.some_columns;
        as_many = sound.as_many;
        local = shape.same_columns fk.columns ∙ sound.local;
        target = target;
        found = found;
        remote = same.same_columns fk.ref_columns ∙ sound.remote;
      }

  or_sound-final :
      (t u : Table) (fk : ForeignKey)
      → IsSameShape t u
      → IsOldOrSound c t fk
      → Mem fk t.foreign_keys ⊎ IsSound d u fk
  or_sound-final t u fk shape (inl m) = inl m
  or_sound-final t u fk shape (inr sound) = inr (IsSound-final t u fk shape sound)

  IsTagged-final : (t u : Table) → IsStep c t u → IsTagged d t u
  IsTagged-final t u (shape, keys) = record {
    shape = shape;
    keys = All-weaken _ _ u.foreign_keys (λ fk. or_sound-final t u fk shape) keys;
  }

-- The tables that TransformCatalog leaves are those whose comments do not omit them, in order,
-- each with its name and its columns' names; and every foreign key of one is a key that the table
-- had or has columns of the table and refers to as many columns of a table that is left.
pub transform_catalog-IsTagged :
    (c : Catalog)
    → AllPairs
        (IsTagged (transform_catalog c).1)
        (keep (table_shown (build_index c)) c.tables)
        (transform_catalog c).1.tables
unfolding transform_catalog
transform_catalog-IsTagged c =
    let ix = build_index c in
    let shown : Catalog = record c { tables = keep (table_shown ix) c.tables } in
    let pairs = apply_tables-AllPairs shown shown.tables ix in
    AllPairs-weaken _ _ _ _ (IsTagged-final shown (transform_catalog c).1 pairs) pairs
