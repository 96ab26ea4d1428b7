-- ===== src/Testutil.antt =====
-- testutil/catalog.go: the catalog of the fixture that the tests of the products share.
mod Literals
mod Tables
mod Functions
mod Samples
use pdbcore.Prelude.{[], ◌∷◌, codes}
use pdbcore.Introspect.Catalog.{catalog_format_version, Catalog}
use Tables.{comments, events, metrics, places, posts, users}
use Functions.{enums, composites, functions}

-- FixtureCatalog
abbrev pub fixture_catalog : Catalog
fixture_catalog = record {
  format_version = catalog_format_version;
  server_version = codes "16.0";
  schemas = ((codes "public") ∷ []);
  tables = (comments ∷ events ∷ metrics ∷ places ∷ posts ∷ users ∷ []);
  enums = enums;
  composites = composites;
  functions = functions;
}
