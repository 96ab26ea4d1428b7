-- ===== src/Smartcomments/Registered.antt =====
-- smartcomments/catalog/hook.go in the registry of plugin/plugin.go: the hook as a plugin. What the
-- hooks share is the catalog, beside the index that the hook keeps.
use pdbcore.Prelude.{◌≡◌, List, [], ◌∷◌, ◌++◌, none, some, Text, Bool, codes, All, All-append}
use pdbcore.Prelude.Int.{pos}
use pdbcore.Prelude.Sorting.{IsSort}
use pdbcore.Introspect.Catalog.{Catalog}
use pdbcore.Introspect.EnumTables.{Answer, ok}
use pdbcore.Introspect.Readers.{Rows}
use pdbcore.Introspect.Readers.Build.{introspect}
use pdbcore.Introspect.Readers.Readable.{IsServable}
use pdbcore.Introspect.Readers.Whole.{introspect-IsServable}
use pdbcore.Plugin.{Plugin, new_registry}
use pdbcore.Plugin.{transform_catalog as run_registry}
use pdbcore.Plugin.Kept.{Keeps, transform_catalog-keeps}
use pdbcore.Smartcomments.{Index, build_index}
use pdbcore.Smartcomments.Hook.{transform_catalog}
use pdbcore.Smartcomments.Servable.{transform_catalog-IsServable}

abbrev pub zero_catalog : Catalog
zero_catalog = record {
  format_version = 0;
  server_version = [];
  schemas = [];
  tables = [];
  enums = [];
  composites = [];
  functions = [];
}

-- The index of a hook that New makes.
abbrev pub new_index : Index
new_index = build_index zero_catalog

-- Hook, with Name and Priority; TransformCatalog gives no error.
unfoldable pub smart_comments : Plugin (Index × Catalog) Text
smart_comments = record {
  name = codes "smart-comments";
  priority = pos 50;
  catalog_hook = some (λ s. (none, transform_catalog s.1));
  inflection_hook = none;
}

abbrev pub Serves : Index × Catalog → Type 0
Serves s = IsServable s.1

smart_comments-Keeps : Keeps Serves smart_comments
unfolding smart_comments
smart_comments-Keeps s h = transform_catalog-IsServable s.1 h

-- Whatever the queries answer: in every catalog that Introspect gives, and in what TransformCatalog
-- of a registry of the smart-comments hook and any other plugins leaves of it, whatever the
-- comments say, whichever plugins are disabled and whether or not a hook fails, the role may select
-- from each table, and each column that is typed as an enum by its EnumRef finds that enum; where
-- the hooks of the other plugins keep that.
pub introspect-registry :
    (sort_slice : (A : Type 0) → (A → A → Bool) → List A → List A) (db : Rows)
    (enum_rows : Text → Answer) (schemas : List Text) (cat : Catalog)
    (before after : List (Plugin (Index × Catalog) Text)) (disabled : List Text)
    → IsSort sort_slice
    → introspect sort_slice db enum_rows schemas ≡ ok cat
    → All (Keeps Serves) before
    → All (Keeps Serves) after
    → IsServable cat
      × Serves
          (run_registry
            (new_registry (before ++ smart_comments ∷ after))
            disabled
            (new_index, cat)).1
introspect-registry sort_slice db enum_rows schemas cat before after disabled is_sort e hb ha =
    let servable = introspect-IsServable sort_slice db enum_rows schemas cat is_sort e in
    (
      servable,
      transform_catalog-keeps Serves (before ++ smart_comments ∷ after) disabled (new_index, cat)
          (All-append (Keeps Serves) before (smart_comments ∷ after) hb (smart_comments-Keeps, ha))
          servable,
    )
