-- ===== src/Smartcomments/Samples.antt =====
-- An index at a small catalog.
use pdbcore.Prelude.{is_empty, text_eq, ◌≡◌, refl, true, false, [], ◌∷◌, none, some, Text, codes}
use pdbcore.Introspect.Catalog.{Table, Catalog, rel_table}
use pdbcore.Prelude.Map.{get, put}
use pdbcore.Prelude.Words.{begins, trim_space, is_space, split, cut_at, join}
use pdbcore.Smarttags.{parse, tag_lines, add_tag, is_blank, tag_of, values}
use pdbcore.Smartcomments.{
  index_tables, lookup, index_table, index_object, index_tags, table_entry, column_entry,
  index_each, index_foreign_keys, index_uniques, put_tags, build_index, table_tags,
}

abbrev table_of : Text → Text → Table
table_of schema comment = record {
  schema = schema;
  name = codes "t";
  kind = rel_table;
  comment = comment;
  rls_enabled = false;
  columns = [];
  primary_key = none;
  uniques = [];
  foreign_keys = [];
  indexes = [];
  privileges = record {
    may_select = true;
    may_insert = true;
    may_update = true;
    may_delete = true;
  };
}

abbrev catalog : Catalog
catalog = record {
  format_version = 3;
  server_version = codes "16.1";
  schemas = codes "a" ∷ codes "b" ∷ [];
  tables = table_of (codes "a") (codes "@name x") ∷ table_of (codes "b") [] ∷ [];
  enums = [];
  composites = [];
  functions = [];
}

one_commented :
    table_tags (build_index catalog) [] (codes "t") ≡ some ((codes "name", codes "x" ∷ []) ∷ [])
unfolding table_tags build_index index_tables lookup index_table index_object index_tags table_entry
    column_entry index_each index_foreign_keys index_uniques put_tags begins trim_space is_space
    split cut_at join parse tag_lines add_tag is_blank tag_of values is_empty text_eq get put
one_commented = refl
