-- ===== src/Introspect/ReaderSamples.antt =====
-- A database with a table that the role may read and one that it may not.
use pdbcore.Prelude.{◌≡◌, refl, true, false, [], ◌∷◌, none, Text, codes, text_eq, is_empty}
use pdbcore.Prelude.Insertion.{insertion_sort, insert_by, insertion_sort-IsSort}
use pdbcore.Introspect.Catalog.{Catalog, Privileges, rel_table}
use pdbcore.Prelude.Map.{sort_strings, insert_text}
use pdbcore.Prelude.Words.{begins, trim_space, trim_left, trim_right, split}
use pdbcore.Smarttags.{parse, tag_lines}
use pdbcore.Introspect.Hash.{sort_stable}
use pdbcore.Introspect.EnumTables.{
  Answer, query_failed, ok, convert_enum_tables, collect, collect_table, enum_value_column,
  tagged_unique, is_tagged, rebuild,
}
use pdbcore.Introspect.Readers.{
  fetched, read_rows, each_row, add_column, update_table, add_table, TableRow, ColumnRow, letter_p,
  Rows,
}
use pdbcore.Introspect.Readers.Build.{introspect, read_catalog}
use pdbcore.Introspect.Readers.Readable.{IsServable}
use pdbcore.Prelude.Int.{pos}
use pdbcore.Plugin.{Plugin, new_registry}
use pdbcore.Plugin.{transform_catalog as run_registry}
use pdbcore.Smartcomments.{Index}
use pdbcore.Smartcomments.Registered.{new_index, smart_comments, Serves, introspect-registry}

abbrev rights : Privileges
rights = record { may_select = true; may_insert = false; may_update = false; may_delete = false }

abbrev no_rights : Privileges
no_rights = record {
  may_select = false;
  may_insert = false;
  may_update = false;
  may_delete = false;
}

abbrev row : Text → Privileges → TableRow
row name privileges = record {
  schema = codes "public";
  name = name;
  letter = letter_p;
  rls_enabled = true;
  comment = [];
  privileges = privileges;
}

abbrev id_of : Text → ColumnRow
id_of name = record {
  schema = codes "public";
  table_name = name;
  name = codes "id";
  position = 1;
  type_schema = codes "pg_catalog";
  pg_type = codes "int4";
  is_array = false;
  not_null = true;
  has_default = false;
  is_generated = false;
  comment = [];
}

abbrev given : Rows
given = record {
  server_version = ok (codes "16.1");
  tables =
      fetched (ok (row (codes "users") rights) ∷ ok (row (codes "secrets") no_rights) ∷ []) none;
  columns = fetched (ok (id_of (codes "secrets")) ∷ ok (id_of (codes "users")) ∷ []) none;
  constraints = fetched [] none;
  indexes = fetched [] none;
  enums = fetched [] none;
  composites = fetched [] none;
  functions = fetched [] none;
}

abbrev no_enums : Text → Answer
no_enums q = query_failed []

abbrev expected : Catalog
expected = record {
  format_version = 3;
  server_version = codes "16.1";
  schemas = codes "public" ∷ [];
  tables =
      record {
        schema = codes "public";
        name = codes "users";
        kind = rel_table;
        comment = [];
        rls_enabled = true;
        columns =
            record {
              name = codes "id";
              position = 1;
              pg_type = codes "int4";
              type_schema = codes "pg_catalog";
              is_array = false;
              not_null = true;
              has_default = false;
              is_generated = false;
              comment = [];
              enum_ref = [];
            }
            ∷ [];
        primary_key = none;
        uniques = [];
        foreign_keys = [];
        indexes = [];
        privileges = rights;
      }
      ∷ [];
  enums = [];
  composites = [];
  functions = [];
}

introspected : introspect insertion_sort given no_enums [] ≡ ok expected
unfolding introspect read_catalog read_rows each_row convert_enum_tables collect add_column
    update_table add_table text_eq collect_table enum_value_column tagged_unique is_tagged parse
    begins trim_space trim_left trim_right is_empty sort_stable rebuild sort_strings insert_text
    insertion_sort insert_by tag_lines split
introspected = refl

-- A plugin that changes nothing of the catalog.
abbrev idle : Plugin (Index × Catalog) Text
idle = record {
  name = codes "idle";
  priority = pos 100;
  catalog_hook = none;
  inflection_hook = none;
}

introspect-registry_example :
    IsServable expected
    × Serves (run_registry (new_registry (smart_comments ∷ idle ∷ [])) [] (new_index, expected)).1
introspect-registry_example =
    introspect-registry insertion_sort given no_enums [] expected [] (idle ∷ []) []
      insertion_sort-IsSort introspected tt ((λ s h. h), tt)
