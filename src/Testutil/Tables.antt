-- ===== src/Testutil/Tables.antt =====
-- testutil/catalog.go: the tables of the fixture.
use pdbcore.Prelude.{true, false, [], ◌∷◌, none, some, codes}
use pdbcore.Introspect.Catalog.{rel_table, rel_view, Table}
use pdbcore.Testutil.Literals.{
  array, required, defaulted, generated, plain_column, constraint, index, foreign_key,
  all_privileges,
}

abbrev pub users : Table
users = record {
  schema = codes "public";
  name = codes "users";
  kind = rel_table;
  comment = [];
  rls_enabled = false;
  columns =
      ((generated (required (plain_column (codes "id") 1 (codes "int4") (codes "pg_catalog"))))
        ∷ (required (plain_column (codes "email") 2 (codes "text") (codes "pg_catalog")))
        ∷ (plain_column (codes "full_name") 3 (codes "text") (codes "pg_catalog"))
        ∷ (plain_column (codes "mood") 4 (codes "mood") (codes "public"))
        ∷ (plain_column (codes "settings") 5 (codes "jsonb") (codes "pg_catalog"))
        ∷ (array (plain_column (codes "tags") 6 (codes "_text") (codes "pg_catalog")))
        ∷ (defaulted
            (required (plain_column (codes "balance") 7 (codes "int8") (codes "pg_catalog"))))
        ∷ (defaulted (
            required
              (plain_column (codes "created_at") 8 (codes "timestamptz") (codes "pg_catalog"))))
        ∷ (plain_column (codes "address") 9 (codes "address") (codes "public"))
        ∷ (array (plain_column (codes "prev_addresses") 10 (codes "_address") (codes "public")))
        ∷ (array (plain_column (codes "moods") 11 (codes "_mood") (codes "public")))
        ∷ []);
  primary_key = some (constraint (codes "users_pkey") ((codes "id") ∷ []));
  uniques = ((constraint (codes "users_email_key") ((codes "email") ∷ [])) ∷ []);
  foreign_keys = [];
  indexes =
      ((index (codes "users_email_key") ((codes "email") ∷ []) true (codes "btree"))
        ∷ (index (codes "users_mood_idx") ((codes "mood") ∷ []) false (codes "btree"))
        ∷ (index (codes "users_moods_idx") ((codes "moods") ∷ []) false (codes "gin"))
        ∷ (index (codes "users_pkey") ((codes "id") ∷ []) true (codes "btree"))
        ∷ (index (codes "users_settings_idx") ((codes "settings") ∷ []) false (codes "gin"))
        ∷ (index (codes "users_tags_idx") ((codes "tags") ∷ []) false (codes "gin"))
        ∷ []);
  privileges = all_privileges;
}

abbrev pub posts : Table
posts = record {
  schema = codes "public";
  name = codes "posts";
  kind = rel_table;
  comment = [];
  rls_enabled = true;
  columns =
      ((generated (required (plain_column (codes "id") 1 (codes "int4") (codes "pg_catalog"))))
        ∷ (required (plain_column (codes "author_id") 2 (codes "int4") (codes "pg_catalog")))
        ∷ (required (plain_column (codes "title") 3 (codes "text") (codes "pg_catalog")))
        ∷ (plain_column (codes "body") 4 (codes "text") (codes "pg_catalog"))
        ∷ (defaulted
            (required (plain_column (codes "published") 5 (codes "bool") (codes "pg_catalog"))))
        ∷ []);
  primary_key = some (constraint (codes "posts_pkey") ((codes "id") ∷ []));
  uniques = [];
  foreign_keys =
      ((foreign_key (codes "posts_author_id_fkey") ((codes "author_id") ∷ []) (codes "public")
          (codes "users") ((codes "id") ∷ []) ([]))
        ∷ []);
  indexes =
      ((index (codes "posts_author_id_idx") ((codes "author_id") ∷ []) false (codes "btree"))
        ∷ (index (codes "posts_pkey") ((codes "id") ∷ []) true (codes "btree"))
        ∷ (index (codes "posts_title_idx") ((codes "title") ∷ []) false (codes "btree"))
        ∷ []);
  privileges = all_privileges;
}

abbrev pub comments : Table
comments = record {
  schema = codes "public";
  name = codes "comments";
  kind = rel_table;
  comment = [];
  rls_enabled = false;
  columns =
      ((generated (required (plain_column (codes "id") 1 (codes "int4") (codes "pg_catalog"))))
        ∷ (required (plain_column (codes "post_id") 2 (codes "int4") (codes "pg_catalog")))
        ∷ (plain_column (codes "parent_id") 3 (codes "int4") (codes "pg_catalog"))
        ∷ (required (plain_column (codes "body") 4 (codes "text") (codes "pg_catalog")))
        ∷ []);
  primary_key = some (constraint (codes "comments_pkey") ((codes "id") ∷ []));
  uniques = [];
  foreign_keys =
      ((foreign_key (codes "comments_parent_id_fkey") ((codes "parent_id") ∷ []) (codes "public")
          (codes "comments") ((codes "id") ∷ []) (codes "@costMultiplier 3"))
        ∷ (foreign_key (codes "comments_post_id_fkey") ((codes "post_id") ∷ []) (codes "public")
            (codes "posts") ((codes "id") ∷ []) ([]))
        ∷ []);
  indexes =
      ((index (codes "comments_parent_id_idx") ((codes "parent_id") ∷ []) false (codes "btree"))
        ∷ (index (codes "comments_pkey") ((codes "id") ∷ []) true (codes "btree"))
        ∷ (index (codes "comments_post_id_idx") ((codes "post_id") ∷ []) false (codes "btree"))
        ∷ []);
  privileges = all_privileges;
}

abbrev pub places : Table
places = record {
  schema = codes "public";
  name = codes "places";
  kind = rel_table;
  comment = [];
  rls_enabled = false;
  columns =
      ((generated (required (plain_column (codes "id") 1 (codes "int4") (codes "pg_catalog"))))
        ∷ (plain_column (codes "owner_id") 2 (codes "int4") (codes "pg_catalog"))
        ∷ (required (plain_column (codes "name") 3 (codes "text") (codes "pg_catalog")))
        ∷ (plain_column (codes "location") 4 (codes "geometry") (codes "public"))
        ∷ (plain_column (codes "area") 5 (codes "geography") (codes "public"))
        ∷ []);
  primary_key = some (constraint (codes "places_pkey") ((codes "id") ∷ []));
  uniques = [];
  foreign_keys =
      ((foreign_key (codes "places_owner_id_fkey") ((codes "owner_id") ∷ []) (codes "public")
          (codes "users") ((codes "id") ∷ []) ([]))
        ∷ []);
  indexes =
      ((index (codes "places_area_idx") ((codes "area") ∷ []) false (codes "gist"))
        ∷ (index (codes "places_location_idx") ((codes "location") ∷ []) false (codes "gist"))
        ∷ (index (codes "places_owner_id_idx") ((codes "owner_id") ∷ []) false (codes "btree"))
        ∷ (index (codes "places_pkey") ((codes "id") ∷ []) true (codes "btree"))
        ∷ []);
  privileges = all_privileges;
}

abbrev pub events : Table
events = record {
  schema = codes "public";
  name = codes "events";
  kind = rel_table;
  comment = [];
  rls_enabled = false;
  columns =
      ((generated (required (plain_column (codes "id") 1 (codes "int4") (codes "pg_catalog"))))
        ∷ (required (plain_column (codes "name") 2 (codes "text") (codes "pg_catalog")))
        ∷ (record (required
            (plain_column (codes "type_code") 3 (codes "text") (codes "pg_catalog"))) {
              enum_ref = codes "public.event_type";
            })
        ∷ []);
  primary_key = some (constraint (codes "events_pkey") ((codes "id") ∷ []));
  uniques = [];
  foreign_keys = [];
  indexes =
      ((index (codes "events_pkey") ((codes "id") ∷ []) true (codes "btree"))
        ∷ (index (codes "events_type_code_idx") ((codes "type_code") ∷ []) false (codes "btree"))
        ∷ []);
  privileges = all_privileges;
}

abbrev pub metrics : Table
metrics = record {
  schema = codes "public";
  name = codes "metrics";
  kind = rel_view;
  comment = [];
  rls_enabled = false;
  columns =
      ((plain_column (codes "name") 1 (codes "text") (codes "pg_catalog"))
        ∷ (plain_column (codes "value") 2 (codes "int4") (codes "pg_catalog"))
        ∷ []);
  primary_key = none;
  uniques = [];
  foreign_keys = [];
  indexes = [];
  privileges = all_privileges;
}
