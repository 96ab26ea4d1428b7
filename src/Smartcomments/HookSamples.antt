-- ===== src/Smartcomments/HookSamples.antt =====
-- The hook at a catalog with a logical key and an omitted table.
use pdbcore.Prelude.{
  ◌≡◌, refl, true, false, [], ◌∷◌, none, some, Text, codes, keep, is_empty, map, All, lower_rune,
  elem, find, all, any, text_eq,
}
use pdbcore.Prelude.Decimal.{is_digit}
use pdbcore.Prelude.Map.{get, put}
use pdbcore.Prelude.Words.{
  begins, trim_space, is_space, trim_left, trim_right, split, cut_at, join, fields, fields_from,
}
use pdbcore.Smarttags.{
  parse, tag_lines, add_tag, is_blank, tag_of, values, split_list, omits_everything,
}
use pdbcore.Introspect.Catalog.{
  column, table, table_key, Column, ForeignKey, Table, Catalog, rel_view,
}
use pdbcore.Smartcomments.{
  index_tables, index_table, index_object, index_tags, table_entry, column_entry, index_each,
  index_foreign_keys, index_uniques, put_tags, build_index,
}
use pdbcore.Smartcomments.Reference.{
  Match, match_reference, match_names, match_target, match_second, match_run, match_group,
  match_word, span, is_white, is_word,
}
use pdbcore.Smartcomments.Hook.{
  transform_catalog, apply_tables, apply_table_tags, add_foreign_keys, parse_foreign_key,
  key_of_match, checked_key, name_fields, add_segments, tags_at, is_shown, table_shown,
  tagged_primary_key, columns_exist,
}
use pdbcore.Smartcomments.Tagged.{AllPairs, IsTagged, transform_catalog-IsTagged}
use pdbcore.Smartcomments.Written.{written, match_reference-written}

abbrev reference : Match
reference = record {
  cols = codes "user_id";
  ref_schema = codes "app";
  ref_table = codes "users";
  ref_cols = codes "id";
}

app-words : All (λ c. is_word c ≡ true) (codes "app")
unfolding is_word is_digit lower_rune
app-words = (refl, (refl, (refl, tt)))

users-words : All (λ c. is_word c ≡ true) (codes "users")
unfolding is_word is_digit lower_rune
users-words = (refl, (refl, (refl, (refl, (refl, tt)))))

match_reference-written_example : match_reference (written reference) ≡ some reference
match_reference-written_example =
    match_reference-written reference
      (unfold is_empty in refl, (refl, (refl, (refl, (refl, (refl, (refl, (refl, tt))))))))
      app-words (unfold is_empty in refl, users-words) (unfold is_empty in refl, (refl, (refl, tt)))

abbrev col : Text → Column
col name = record {
  name = name;
  position = 1;
  pg_type = codes "int4";
  type_schema = codes "pg_catalog";
  is_array = false;
  not_null = false;
  has_default = false;
  is_generated = false;
  comment = [];
  enum_ref = [];
}

abbrev view : Text → Text → Text → Table
view name comment key = record {
  schema = codes "app";
  name = name;
  kind = rel_view;
  comment = comment;
  rls_enabled = false;
  columns = col key ∷ [];
  primary_key = none;
  uniques = [];
  foreign_keys = [];
  indexes = [];
  privileges = record {
    may_select = true;
    may_insert = true;
    may_update = true;
    may_delete = true;
  };
}

abbrev given : Catalog
given = record {
  format_version = 3;
  server_version = codes "16.1";
  schemas = codes "app" ∷ [];
  tables =
      view (codes "logs") (codes "@omit") (codes "id")
      ∷ view (codes "posts") (codes "@foreignKey (user_id) references app.users (id)")
          (codes "user_id")
      ∷ view (codes "users") (codes "@primaryKey id") (codes "id")
      ∷ [];
  enums = [];
  composites = [];
  functions = [];
}

transform_catalog-IsTagged_example :
    AllPairs
      (IsTagged (transform_catalog given).1)
      (keep (table_shown (build_index given)) given.tables)
      (transform_catalog given).1.tables
transform_catalog-IsTagged_example = transform_catalog-IsTagged given

keys_test :
    map
      (λ (t : Table). map (λ (fk : ForeignKey). fk.ref_table) t.foreign_keys)
      (transform_catalog given).1.tables
    ≡ (codes "users" ∷ []) ∷ [] ∷ []
unfolding transform_catalog apply_tables apply_table_tags add_foreign_keys parse_foreign_key
    key_of_match checked_key columns_exist name_fields add_segments table_shown tags_at is_shown
    match_reference match_names match_target match_second match_run match_group match_word span
    is_white is_word is_digit lower_rune keep elem values get put text_eq find all any is_empty
    build_index index_tables index_table index_object index_tags table_entry column_entry index_each
    index_foreign_keys index_uniques put_tags begins trim_space is_space trim_left trim_right split
    cut_at join parse tag_lines add_tag is_blank tag_of split_list fields fields_from
    omits_everything column table table_key
keys_test = refl

-- A tag without column names gives a primary key without columns.
primary_key_test :
    tagged_primary_key (view (codes "v") [] (codes "id")) (codes ",")
    ≡ some (record { name = codes "@primaryKey"; columns = []; comment = [] })
unfolding tagged_primary_key is_empty columns_exist all split_list fields
primary_key_test = refl
