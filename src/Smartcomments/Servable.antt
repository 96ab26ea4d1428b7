-- ===== src/Smartcomments/Servable.antt =====
-- What the roles may select and what the columns resolve to, behind the hook of the comments.
use pdbcore.Prelude.{◌≡◌, true, List, [], ◌∷◌, All, keep}
use pdbcore.Smarttags.{Tags}
use pdbcore.Introspect.Catalog.{Table, Column, Enum, Catalog, table_key}
use pdbcore.Introspect.EnumTables.Closed.{keep-All}
use pdbcore.Introspect.EnumTables.Refs.{Resolves}
use pdbcore.Introspect.Readers.Readable.{IsServable}
use pdbcore.Smartcomments.{Index, build_index}
use pdbcore.Smartcomments.Hook.{
  tags_at, gate, tag_column, tag_columns, apply_table_tags, apply_tables, table_shown,
  transform_catalog,
}

tag_columns-All :
    (enums : List Enum) (tags_of : Column → Tags) (cols : List Column)
    → All (Resolves enums) cols
    → All (Resolves enums) (tag_columns tags_of cols)
unfolding tag_columns tag_column
tag_columns-All enums tags_of [] h = tt
tag_columns-All enums tags_of (c ∷ cols) (hc, h) = (hc, tag_columns-All enums tags_of cols h)

-- What the hook does to one table keeps that it is readable and that its references resolve.
module _ (c : Catalog) (tags : Tags) (ix : Index) (t : Table) where
  apply_table_tags-readable :
      t.privileges.may_select ≡ true → (apply_table_tags c tags ix t).1.privileges.may_select ≡ true
  unfolding apply_table_tags gate
  apply_table_tags-readable h = h

  apply_table_tags-resolved :
      (enums : List Enum)
      → All (Resolves enums) t.columns
      → All (Resolves enums) (apply_table_tags c tags ix t).1.columns
  unfolding apply_table_tags
  apply_table_tags-resolved enums h = tag_columns-All enums _ t.columns h

apply_tables-readable :
    (c : Catalog) (ts : List Table) (ix : Index)
    → All (λ (t : Table). t.privileges.may_select ≡ true) ts
    → All (λ (t : Table). t.privileges.may_select ≡ true) (apply_tables c ts ix).1
unfolding apply_tables
apply_tables-readable c [] ix h = tt
apply_tables-readable c (t ∷ ts) ix (ht, h) =
    let tags = tags_at (table_key t.schema t.name) ix.tables.exact in
    (
      apply_table_tags-readable c tags ix t ht,
      apply_tables-readable c ts (apply_table_tags c tags ix t).0 h,
    )

apply_tables-resolved :
    (c : Catalog) (enums : List Enum) (ts : List Table) (ix : Index)
    → All (λ (t : Table). All (Resolves enums) t.columns) ts
    → All (λ (t : Table). All (Resolves enums) t.columns) (apply_tables c ts ix).1
unfolding apply_tables
apply_tables-resolved c enums [] ix h = tt
apply_tables-resolved c enums (t ∷ ts) ix (ht, h) =
    let tags = tags_at (table_key t.schema t.name) ix.tables.exact in
    (
      apply_table_tags-resolved c tags ix t enums ht,
      apply_tables-resolved c enums ts (apply_table_tags c tags ix t).0 h,
    )

pub transform_catalog-IsServable : (c : Catalog) → IsServable c → IsServable (transform_catalog c).1
unfolding transform_catalog
transform_catalog-IsServable c h =
    let ix = build_index c in
    let shown : Catalog = record c { tables = keep (table_shown ix) c.tables } in
    record {
      readable = apply_tables-readable shown shown.tables ix (
          keep-All (λ (t : Table). t.privileges.may_select ≡ true) _ (table_shown ix) c.tables
            (λ t e k. k) h.readable);
      resolved = apply_tables-resolved shown c.enums shown.tables ix (
          keep-All (λ (t : Table). All (Resolves c.enums) t.columns) _ (table_shown ix) c.tables
            (λ t e k. k) h.resolved);
    }
