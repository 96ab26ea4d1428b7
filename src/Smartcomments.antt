-- ===== src/Smartcomments.antt =====
-- smartcomments/catalog/index.go: the tags of every commented object, by qualified and by plain
-- name. The hook of hook.go, which builds the index anew, is in the children.
pub mod Plain
pub mod Reference
pub mod Hook
pub mod Keys
pub mod Tagged
pub mod Servable
pub mod Registered
pub mod Written
mod Samples
mod HookSamples
use pdbcore.Prelude.{
  map, not, List, [], ◌∷◌, ◌++◌, Option, none, some, Text, codes, is_empty, if◌then◌else◌,
}
use pdbcore.Prelude.Map.{Map, get, put}
use pdbcore.Smarttags.{Tags, parse, first}
use pdbcore.Introspect.Catalog.{
  Column, Constraint, ForeignKey, Table, Enum, Function, Catalog, table_key,
}

-- The two maps of one kind of object. In the second a nil entry marks an ambiguous name.
pub record Maps : Type 0 where
  pub exact : Map Tags
  pub by : Map (Option Tags)

pub record Index : Type 0 where
  pub tables : Maps
  pub columns : Maps
  pub enums : Maps
  pub functions : Maps
  pub constraints : Map Tags

abbrev pub no_maps : Maps
no_maps = record { exact = []; by = [] }

-- What `index` is called with: the two keys and the comment.
pub record Entry : Type 0 where
  pub exact_key : Text
  pub by_key : Text
  pub comment : Text

-- The new entry of the second map, by the old one.
abbrev pub unless_seen : Option (Option Tags) → Tags → Option Tags
unless_seen none tags = some tags
unless_seen (some old) tags = none

unfoldable pub index_tags : Entry → Option Tags → Maps → Maps
index_tags e none m = m
index_tags e (some tags) m = record {
  exact = put e.exact_key tags m.exact;
  by = put e.by_key (unless_seen (get e.by_key m.by) tags) m.by;
}

-- index
unfoldable pub index_object : Entry → Maps → Maps
index_object e m = index_tags e (parse e.comment).0 m

unfoldable pub table_entry : Table → Entry
table_entry t = record {
  exact_key = table_key t.schema t.name;
  by_key = t.name;
  comment = t.comment;
}

unfoldable pub column_entry : Table → Column → Entry
column_entry t c = record {
  exact_key = table_key t.schema t.name ++ b'.' ∷ c.name;
  by_key = t.name ++ b'.' ∷ c.name;
  comment = c.comment;
}

unfoldable pub enum_entry : Enum → Entry
enum_entry e = record {
  exact_key = table_key e.schema e.name;
  by_key = e.name;
  comment = e.comment;
}

unfoldable pub function_entry : Function → Entry
function_entry f = record {
  exact_key = table_key f.schema f.name;
  by_key = f.name;
  comment = f.comment;
}

module _ {A : Type 0} (entry : A → Entry) where
  -- for _, x := range xs { index(…) }
  unfoldable pub index_each : List A → Maps → Maps
  index_each [] m = m
  index_each (x ∷ xs) m = index_each xs (index_object (entry x) m)

unfoldable pub put_tags : Text → Option Tags → Map Tags → Map Tags
put_tags k none m = m
put_tags k (some tags) m = put k tags m

unfoldable pub index_foreign_keys : Text → List ForeignKey → Map Tags → Map Tags
index_foreign_keys schema [] m = m
index_foreign_keys schema (fk ∷ fks) m =
    index_foreign_keys schema fks (put_tags (table_key schema fk.name) (parse fk.comment).0 m)

unfoldable pub index_uniques : Text → List Constraint → Map Tags → Map Tags
index_uniques schema [] m = m
index_uniques schema (u ∷ us) m =
    index_uniques schema us (put_tags (table_key schema u.name) (parse u.comment).0 m)

-- One round of the loop over the tables.
unfoldable pub index_table : Table → Index → Index
index_table t ix = record ix {
  tables = index_object (table_entry t) ix.tables;
  columns = index_each (column_entry t) t.columns ix.columns;
  constraints =
      index_uniques t.schema t.uniques (index_foreign_keys t.schema t.foreign_keys ix.constraints);
}

unfoldable pub index_tables : List Table → Index → Index
index_tables [] ix = ix
index_tables (t ∷ ts) ix = index_tables ts (index_table t ix)

abbrev pub no_index : Index
no_index = record {
  tables = no_maps;
  columns = no_maps;
  enums = no_maps;
  functions = no_maps;
  constraints = [];
}

-- BuildIndex
unfoldable pub build_index : Catalog → Index
build_index c =
    let ix = index_tables c.tables no_index in
    record ix {
      enums = index_each enum_entry c.enums ix.enums;
      functions = index_each function_entry c.functions ix.functions;
    }

-- A map of tags at a key: nil for a missing key and for a nil entry.
abbrev pub or_nil : Option (Option Tags) → Option Tags
or_nil none = none
or_nil (some tags) = tags

unfoldable pub lookup : Maps → Text → Text → Option Tags
lookup m schema name =
    if not (is_empty schema) then get (table_key schema name) m.exact else or_nil (get name m.by)

-- Index.Table, Enum, Function
unfoldable pub table_tags : Index → Text → Text → Option Tags
table_tags ix schema name = lookup ix.tables schema name

unfoldable pub enum_tags : Index → Text → Text → Option Tags
enum_tags ix schema name = lookup ix.enums schema name

unfoldable pub function_tags : Index → Text → Text → Option Tags
function_tags ix schema name = lookup ix.functions schema name

-- Index.Column
unfoldable pub column_tags : Index → Text → Text → Text → Option Tags
column_tags ix schema name col =
    if not (is_empty schema)
    then get (table_key schema name ++ b'.' ∷ col) ix.columns.exact
    else or_nil (get (name ++ b'.' ∷ col) ix.columns.by)

-- Index.Constraint
unfoldable pub constraint_tags : Index → Text → Text → Option Tags
constraint_tags ix schema name =
    if is_empty name then none else get (table_key schema name) ix.constraints

-- Index.RenamedTable; a nil map has no values.
unfoldable pub renamed_table : Index → Text → Text → Text
renamed_table ix schema name = elim (table_tags ix schema name) [
  | none ↦ name
  | some tags ↦ let new = first tags (codes "name") in if not (is_empty new) then new else name
]

-- Index.RenamedColumn and Index.RenamedColumns
unfoldable pub renamed_column : Index → Text → Text → Text → Text
renamed_column ix schema table column = elim (column_tags ix schema table column) [
  | none ↦ column
  | some tags ↦ let new = first tags (codes "name") in if not (is_empty new) then new else column
]

unfoldable pub renamed_columns : Index → Text → Text → List Text → List Text
renamed_columns ix schema table cols = map (renamed_column ix schema table) cols
