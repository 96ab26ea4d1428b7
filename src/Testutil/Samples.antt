-- ===== src/Testutil/Samples.antt =====
-- The catalog of the fixture: every foreign key refers to a table of it.
use pdbcore.Prelude.{refl, text_eq}
use pdbcore.Introspect.Catalog.{table_key}
use pdbcore.Introspect.EnumTables.Closed.{IsClosed, exists_table}
use pdbcore.Testutil.{fixture_catalog}

fixture_catalog-IsClosed : IsClosed fixture_catalog.tables fixture_catalog.tables
unfolding exists_table table_key text_eq
fixture_catalog-IsClosed = ((refl, (refl, tt)), (tt, (tt, ((refl, tt), ((refl, tt), (tt, tt))))))
