-- ===== src/Introspect/Samples.antt =====
-- Catalogs at small inputs.
use pdbcore.Prelude.{
  find, keep, elem, is_empty, ◌≡◌, refl, ◌↔◌, true, false, [], ◌∷◌, none, some, Text, codes,
  text_eq,
}
use pdbcore.Introspect.Catalog.{
  Enum, column, table_key, kind_text, Table, Column, Catalog, rel_table,
}
use pdbcore.Introspect.Diff.{
  Json, diff, version_line, diff_string_set, report, removed_line, added_line, diff_tables,
  table_map, diff_table, or_coarse, diff_columns, column_map, add_to_set, aspect, changed_line,
  column_added, column_changed, column_removed, composite_map, diff_maps, diff_named, enum_map,
  function_map, set_of, signature, table_aspect_changes, type_desc,
}
use pdbcore.Prelude.Map.{sorted_keys, put, get, index_by, insert_text, keys, sort_strings, text_lt}
use pdbcore.Prelude.Words.{cut_at, join, split, begins, trim_space, is_space}
use pdbcore.Introspect.Diff.Complete.{SameCatalog, diff_iff}
use pdbcore.Introspect.EnumTables.{
  Answer, rows, scanned, ok, is_tagged, is_text_family, pick_column, tagged_unique,
  enum_value_column, tagged_description, enum_description_column, sql_ident, enum_query, scan_rows,
  table_enum, read_answer, read_enum_table, collect_table, collect, is_key, set_enum_ref,
  rebind_columns, rebind_key, rebind_keys, rebind_table, rebuild, convert_enum_tables,
}
use pdbcore.Smarttags.{parse, tag_lines, tag_of, add_tag, has_tag, values, is_blank}
use pdbcore.Pgexec.Ident.{double}
use pdbcore.Introspect.EnumTables.Closed.{IsClosed, exists_table, convert_enum_tables-IsClosed}
use pdbcore.Introspect.EnumTables.Refs.{AllResolve, convert_enum_tables-AllResolve}
use pdbcore.Introspect.Encoding

abbrev json : Json
json = record {
  column = λ c. c.name;
  table = λ t. Encoding.table.enc t;
  enum = λ e. e.name;
  composite = λ c. c.name;
  function = λ f. f.name;
  text = λ s. s;
  kind = λ k. [];
  bool = λ b. [];
  constraint = λ c. [];
  constraints = λ cs. [];
  foreign_keys = λ fs. [];
  indexes = λ is. [];
  privileges = λ p. [];
}

abbrev id_column : Column
id_column = record {
  name = codes "id";
  position = 1;
  pg_type = codes "int4";
  type_schema = codes "pg_catalog";
  is_array = false;
  not_null = true;
  has_default = false;
  is_generated = false;
  comment = [];
  enum_ref = [];
}

abbrev users : Table
users = record {
  schema = codes "public";
  name = codes "users";
  kind = rel_table;
  comment = [];
  rls_enabled = false;
  columns = id_column ∷ [];
  primary_key = none;
  uniques = [];
  foreign_keys = [];
  indexes = [];
  privileges = record {
    may_select = true;
    may_insert = true;
    may_update = true;
    may_delete = true;
  };
}

abbrev before : Catalog
before = record {
  format_version = 3;
  server_version = codes "16.1";
  schemas = codes "public" ∷ [];
  tables = users ∷ [];
  enums = [];
  composites = [];
  functions = [];
}

abbrev after : Catalog
after = record before {
  tables = record users { columns = record id_column { not_null = false } ∷ [] } ∷ [];
}

nullable :
    diff json before after
    ≡ codes "table public.users: column id type changed (int4 not null -> int4)" ∷ []
unfolding diff version_line diff_string_set report removed_line added_line diff_tables table_map
    diff_table or_coarse diff_columns column_map add_to_set aspect changed_line column_added
    column_changed column_removed composite_map diff_maps diff_named enum_map function_map set_of
    signature table_aspect_changes type_desc table_key kind_text sorted_keys put get index_by
    insert_text keys sort_strings text_lt text_eq join
nullable = refl

diff_iff_example : (diff json before after ≡ []) ↔ SameCatalog json before after
diff_iff_example = diff_iff json Encoding.table_injective before after

abbrev text_column : Text → Column
text_column name = record id_column { name = name; pg_type = codes "text" }

abbrev moods : Table
moods = record users {
  name = codes "moods";
  comment = codes "@enum";
  columns = text_column (codes "m") ∷ [];
  primary_key = some (record { name = codes "pk"; columns = codes "m" ∷ []; comment = [] });
}

abbrev people : Table
people = record users {
  name = codes "people";
  columns = text_column (codes "mood") ∷ [];
  foreign_keys =
      record {
        name = codes "fk";
        columns = codes "mood" ∷ [];
        ref_schema = codes "public";
        ref_table = codes "moods";
        ref_columns = codes "m" ∷ [];
        comment = [];
      }
      ∷ [];
}

abbrev with_moods : Catalog
with_moods = record before { tables = moods ∷ people ∷ [] }

abbrev db : Text → Answer
db sql = rows (scanned (codes "glad") [] ∷ scanned (codes "sad") [] ∷ []) none

abbrev moods_enum : Enum
moods_enum = record {
  schema = codes "public";
  name = codes "moods";
  values = codes "glad" ∷ codes "sad" ∷ [];
  comment = codes "@enum";
  value_descriptions = [] ∷ [] ∷ [];
  is_table_backed = true;
}

abbrev converted : Catalog
converted = record with_moods {
  enums = moods_enum ∷ [];
  tables =
      record people {
        columns = record (text_column (codes "mood")) { enum_ref = codes "public.moods" } ∷ [];
        foreign_keys = [];
      }
      ∷ [];
}

moods_sql :
    enum_query moods (codes "m")
    ≡ codes "SELECT \"m\"::text, '' FROM \"public\".\"moods\" ORDER BY 1"
unfolding enum_query sql_ident double enum_description_column tagged_description is_tagged parse
    begins trim_space column find has_tag text_eq is_empty tag_lines split table_key is_space join
moods_sql = refl

moods_converted : convert_enum_tables db with_moods ≡ ok converted
unfolding is_tagged is_text_family pick_column tagged_unique enum_value_column tagged_description
    enum_description_column sql_ident enum_query scan_rows table_enum read_answer read_enum_table
    collect_table collect is_key set_enum_ref rebind_columns rebind_key rebind_keys rebind_table
    rebuild convert_enum_tables parse tag_lines tag_of add_tag has_tag values is_blank table_key
    column put get find keep elem is_empty text_eq double split begins trim_space join is_space
    cut_at
moods_converted = refl

convert_enum_tables-IsClosed_example : IsClosed converted.tables converted.tables
convert_enum_tables-IsClosed_example =
    convert_enum_tables-IsClosed db with_moods converted (tt, ((moods_exists, tt), tt))
      moods_converted
  where
    moods_exists :
        exists_table with_moods.tables (table_key (codes "public") (codes "moods")) ≡ true
    moods_exists = unfold exists_table text_eq table_key in refl

convert_enum_tables-AllResolve_example : AllResolve converted.enums converted.tables
convert_enum_tables-AllResolve_example =
    convert_enum_tables-AllResolve db with_moods converted (((unbound, tt), ((unbound, tt), tt)))
      moods_converted
  where
    unbound : {A : Type 0} → is_empty [] ≡ false → A
    unbound h = unfold is_empty in absurd (cc)
