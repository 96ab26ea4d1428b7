-- ===== src/Testutil/Functions.antt =====
-- testutil/catalog.go: the enums, composite types and functions of the fixture.
use pdbcore.Prelude.{true, false, List, [], ◌∷◌, codes}
use pdbcore.Introspect.Catalog.{Enum, Composite, stable, volatile, Function}
use pdbcore.Testutil.Literals.{plain_column, argument, function}

abbrev pub enums : List Enum
enums =
    ((record {
      schema = codes "public";
      name = codes "event_type";
      values = ((codes "conference") ∷ (codes "hackathon") ∷ (codes "meetup") ∷ []);
      comment = codes "@enum\nKind of event.";
      value_descriptions =
          ((codes "A large formal gathering") ∷ [] ∷ (codes "Casual get-together") ∷ []);
      is_table_backed = true;
    })
      ∷ (record {
        schema = codes "public";
        name = codes "mood";
        values = ((codes "sad") ∷ (codes "ok") ∷ (codes "happy") ∷ []);
        comment = [];
        value_descriptions = [];
        is_table_backed = false;
      })
      ∷ [])

abbrev pub composites : List Composite
composites =
    ((record {
      schema = codes "public";
      name = codes "address";
      fields =
          ((plain_column (codes "street") 1 (codes "text") (codes "pg_catalog"))
            ∷ (plain_column (codes "city") 2 (codes "text") (codes "pg_catalog"))
            ∷ (plain_column (codes "mood") 3 (codes "mood") (codes "public"))
            ∷ []);
    })
      ∷ (record {
        schema = codes "public";
        name = codes "jwt";
        fields =
            ((plain_column (codes "exp") 1 (codes "int8") (codes "pg_catalog"))
              ∷ (plain_column (codes "user_id") 2 (codes "int4") (codes "pg_catalog"))
              ∷ (plain_column (codes "role") 3 (codes "text") (codes "pg_catalog"))
              ∷ []);
      })
      ∷ [])

abbrev pub functions : List Function
functions =
    ((function (codes "public") (codes "search_posts")
        ((argument (codes "term") (codes "text") (codes "pg_catalog")) ∷ []) (codes "posts")
        (codes "public") true stable)
      ∷ (function (codes "public") (codes "users_post_count")
          ((argument (codes "u") (codes "users") (codes "public")) ∷ []) (codes "int8")
          (codes "pg_catalog") false stable)
      ∷ (function (codes "public") (codes "users_recent_posts")
          ((argument (codes "u") (codes "users") (codes "public"))
            ∷ (argument (codes "n") (codes "int4") (codes "pg_catalog"))
            ∷ [])
          (codes "posts") (codes "public") true stable)
      ∷ (function (codes "public") (codes "users_tag_words")
          ((argument (codes "u") (codes "users") (codes "public")) ∷ []) (codes "text")
          (codes "pg_catalog") true stable)
      ∷ (function (codes "public") (codes "retry_probe") [] (codes "int4") (codes "pg_catalog")
          false volatile)
      ∷ (function (codes "public") (codes "add_numbers")
          ((argument (codes "a") (codes "int4") (codes "pg_catalog"))
            ∷ (argument (codes "b") (codes "int4") (codes "pg_catalog"))
            ∷ [])
          (codes "int4") (codes "pg_catalog") false volatile)
      ∷ (function (codes "public") (codes "publish_post")
          ((argument (codes "post_id") (codes "int4") (codes "pg_catalog")) ∷ []) (codes "posts")
          (codes "public") false volatile)
      ∷ (function (codes "public") (codes "unpublish_post")
          ((argument (codes "post_id") (codes "int4") (codes "pg_catalog")) ∷ []) (codes "posts")
          (codes "public") false volatile)
      ∷ (function (codes "public") (codes "word_lengths")
          ((argument (codes "words") (codes "_text") (codes "pg_catalog")) ∷ []) (codes "int4")
          (codes "pg_catalog") false volatile)
      ∷ (function (codes "public") (codes "authenticate")
          ((argument (codes "user_email") (codes "text") (codes "pg_catalog")) ∷ []) (codes "jwt")
          (codes "public") false volatile)
      ∷ (function (codes "public") (codes "posts_excerpt")
          ((argument (codes "p") (codes "posts") (codes "public"))
            ∷ (argument (codes "max_chars") (codes "int4") (codes "pg_catalog"))
            ∷ [])
          (codes "text") (codes "pg_catalog") false stable)
      ∷ (function (codes "public") (codes "best_mood") [] (codes "mood") (codes "public") false
          stable)
      ∷ (function (codes "public") (codes "all_moods") [] (codes "_mood") (codes "public") false
          stable)
      ∷ (function (codes "public") (codes "mood_moods") [] (codes "mood") (codes "public") true
          stable)
      ∷ (function (codes "public") (codes "describe_mood")
          ((argument (codes "m") (codes "mood") (codes "public")) ∷ []) (codes "text")
          (codes "pg_catalog") false stable)
      ∷ (function (codes "public") (codes "bump_mood")
          ((argument (codes "m") (codes "mood") (codes "public")) ∷ []) (codes "mood")
          (codes "public") false volatile)
      ∷ [])
