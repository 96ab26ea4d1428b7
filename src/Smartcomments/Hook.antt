-- ===== src/Smartcomments/Hook.antt =====
-- smartcomments/catalog/hook.go: what the tags of the comments do to the catalog. Warnings, which
-- are only logged, are not modelled. The tables of the catalog are changed in place; only their
-- names and the names of their columns are read of a table that a key refers to, and those stay.
use pdbcore.Prelude.{
  Bool, true, false, not, ◌||◌, ◌&&◌, List, [], ◌∷◌, ◌++◌, Option, none, some, Text, codes,
  is_empty, elem, keep, length, snoc, trim_prefix, ◌==◌, if◌then◌else◌, all,
}
use pdbcore.Prelude.Map.{Map, get, put}
use pdbcore.Prelude.Words.{cut_at, split, trim_space}
use pdbcore.Smarttags.{Tags, values, has_tag, first, split_list, omits, omits_everything}
use pdbcore.Introspect.Catalog.{
  Column, Constraint, ForeignKey, Privileges, Table, Function, Catalog, column, table, table_key,
}
use pdbcore.Introspect.Catalog.{Index as TableIndex}
use pdbcore.Smartcomments.{Index, build_index}
use pdbcore.Smartcomments.Reference.{Match, match_reference}

-- A map of tags at a key: the nil map, which has no tags, for a missing key.
unfoldable pub tags_at : Text → Map Tags → Tags
tags_at k m = elim (get k m) [ none ↦ [] | some tags ↦ tags ]

abbrev pub is_some : {A : Type 0} → Option A → Bool
is_some none = false
is_some (some a) = true

-- columnsExist
unfoldable pub columns_exist : Table → List Text → Bool
columns_exist t cols = all (λ c. is_some (column t c)) cols

-- What strings.Cut gives behind the separator.
abbrev pub or_empty : Option Text → Text
or_empty none = []
or_empty (some rest) = rest

-- A segment "@name value" behind a bar.
unfoldable pub add_segment : Text → Tags → Tags
add_segment part tags =
    let marked = trim_prefix (trim_space part) (codes "@") in
    let (name, behind) = cut_at (λ c. c == b' ') marked in
    let value = trim_space (or_empty behind) in
    if not (is_empty marked) then put name (snoc (values tags name) value) tags else tags

unfoldable pub add_segments : List Text → Tags → Tags
add_segments [] tags = tags
add_segments (part ∷ parts) tags = add_segments parts (add_segment part tags)

-- The tags of the relation fields, under the name of the key.
unfoldable pub name_fields : Text → Text → Index → Index
name_fields k rest ix =
    let tags = add_segments (split b'|' rest) [] in
    if not (is_empty rest) then record ix { constraints = put k tags ix.constraints } else ix

-- The tests of parseForeignKey on a key and the table that it refers to.
unfoldable pub checked_key : Table → ForeignKey → Option Table → Option ForeignKey
checked_key t fk none = none
checked_key t fk (some ref) =
    if length fk.columns == 0 || not (length fk.columns == length fk.ref_columns)
    then none
    else if not (columns_exist t fk.columns)
    then none
    else if not (columns_exist ref fk.ref_columns)
    then none
    else some fk

unfoldable pub key_of_match : Table → Text → Match → ForeignKey
key_of_match t spec m = record {
  name = codes "@foreignKey " ++ spec;
  columns = split_list m.cols;
  ref_schema = if is_empty m.ref_schema then t.schema else m.ref_schema;
  ref_table = m.ref_table;
  ref_columns = split_list m.ref_cols;
  comment = [];
}

-- A key that was parsed, and the index with its fields' tags.
abbrev pub with_fields : Text → Text → Index → Option ForeignKey → Index × Option ForeignKey
with_fields schema rest ix none = (ix, none)
with_fields schema rest ix (some fk) = (name_fields (table_key schema fk.name) rest ix, some fk)

abbrev pub key_of : Catalog → Table → Text → Option Match → Option ForeignKey
key_of c t spec none = none
key_of c t spec (some m) =
    let fk = key_of_match t spec m in checked_key t fk (table c fk.ref_schema fk.ref_table)

-- parseForeignKey
unfoldable pub parse_foreign_key : Catalog → Table → Text → Index → Index × Option ForeignKey
parse_foreign_key c t v ix =
    let (spec, behind) = cut_at (λ d. d == b'|') v in
    with_fields t.schema (or_empty behind) ix (key_of c t spec (match_reference (trim_space spec)))

abbrev pub snoc_some : {A : Type 0} → List A → Option A → List A
snoc_some xs none = xs
snoc_some xs (some x) = snoc xs x

-- The loop over the @foreignKey tags: the index and the keys so far.
unfoldable pub add_foreign_keys :
    Catalog → Table → List Text → Index × List ForeignKey → Index × List ForeignKey
add_foreign_keys c t [] acc = acc
add_foreign_keys c t (v ∷ vs) (ix, fks) =
    let (ix1, fk) = parse_foreign_key c t v ix in add_foreign_keys c t vs (ix1, snoc_some fks fk)

-- The loop over the @unique tags.
unfoldable pub add_uniques : Table → List Text → List Constraint → List Constraint
add_uniques t [] us = us
add_uniques t (v ∷ vs) us =
    let cols = split_list v in
    let u : Constraint = record { name = codes "@unique " ++ v; columns = cols; comment = [] } in
    let skipped = add_uniques t vs us in
    let added = add_uniques t vs (snoc us u) in
    if length cols == 0 || not (columns_exist t cols) then skipped else added

-- The @primaryKey tag.
unfoldable pub tagged_primary_key : Table → Text → Option Constraint
tagged_primary_key t v =
    let cols = split_list v in
    if is_empty v || is_some t.primary_key || not (columns_exist t cols)
    then t.primary_key
    else some (record { name = codes "@primaryKey"; columns = cols; comment = [] })

unfoldable pub gate : List Text → Privileges → Privileges
gate actions p = record p {
  may_insert = p.may_insert && not (elem (codes "create") actions);
  may_update = p.may_update && not (elem (codes "update") actions);
  may_delete = p.may_delete && not (elem (codes "delete") actions);
}

-- The column's own part of the loop over the columns; without tags nothing is set.
unfoldable pub tag_column : Tags → Column → Column
tag_column tags col =
    let required = if has_tag tags (codes "notNull") then true else col.not_null in
    record col { not_null = if has_tag tags (codes "nullable") then false else required }

unfoldable pub tag_columns : (Column → Tags) → List Column → List Column
tag_columns tags_of [] = []
tag_columns tags_of (col ∷ cols) = tag_column (tags_of col) col ∷ tag_columns tags_of cols

unfoldable pub add_indexes : (Column → Tags) → List Column → List TableIndex → List TableIndex
add_indexes tags_of [] ixs = ixs
add_indexes tags_of (col ∷ cols) ixs =
    let ctags = tags_of col in
    let synthetic : TableIndex = record {
      name = codes "@filterable " ++ col.name;
      columns = col.name ∷ [];
      is_unique = false;
      method = codes "btree";
    } in
    let same = add_indexes tags_of cols ixs in
    let more = add_indexes tags_of cols (snoc ixs synthetic) in
    if has_tag ctags (codes "filterable") || has_tag ctags (codes "sortable") then more else same

-- The tags of a column, by its table's key.
unfoldable pub tags_of_column : Index → Table → Column → Tags
tags_of_column ix t col = tags_at (table_key t.schema t.name ++ b'.' ∷ col.name) ix.columns.exact

-- Whether the constraint of a name is not omitted.
unfoldable pub is_shown : Index → Text → Text → Bool
is_shown ix schema name = not (omits_everything (tags_at (table_key schema name) ix.constraints))

-- applyTableCatalogTags: the index and the table as they are left.
unfoldable pub apply_table_tags : Catalog → Tags → Index → Table → Index × Table
apply_table_tags c tags ix t =
    let (ix1, fks) = add_foreign_keys c t (values tags (codes "foreignKey")) (ix, t.foreign_keys) in
    let uniques = add_uniques t (values tags (codes "unique")) t.uniques in
    (
      ix1,
      record t {
        privileges = gate (omits tags) t.privileges;
        primary_key = tagged_primary_key t (first tags (codes "primaryKey"));
        columns = tag_columns (tags_of_column ix1 t) t.columns;
        indexes = add_indexes (tags_of_column ix1 t) t.columns t.indexes;
        uniques = keep (λ (u : Constraint). is_shown ix1 t.schema u.name) uniques;
        foreign_keys = keep (λ (fk : ForeignKey). is_shown ix1 t.schema fk.name) fks;
      },
    )

-- The loop over the tables that are left.
unfoldable pub apply_tables : Catalog → List Table → Index → Index × List Table
apply_tables c [] ix = (ix, [])
apply_tables c (t ∷ ts) ix =
    let (ix1, t1) = apply_table_tags c (tags_at (table_key t.schema t.name) ix.tables.exact) ix t in
    let (ix2, ts2) = apply_tables c ts ix1 in (ix2, t1 ∷ ts2)

unfoldable pub table_shown : Index → Table → Bool
table_shown ix t = not (omits_everything (tags_at (table_key t.schema t.name) ix.tables.exact))

unfoldable pub function_shown : Index → Function → Bool
function_shown ix f =
    not (omits_everything (tags_at (table_key f.schema f.name) ix.functions.exact))

-- TransformCatalog: the new index of the hook and the catalog.
unfoldable pub transform_catalog : Catalog → Index × Catalog
transform_catalog c =
    let ix = build_index c in
    let shown = record c { tables = keep (table_shown ix) c.tables } in
    let (ix1, tables) = apply_tables shown shown.tables ix in
    (ix1, record shown { tables = tables; functions = keep (function_shown ix1) c.functions })
