-- ===== src/Introspect.antt =====
-- introspect/: the catalog and its lookups (Catalog), its order and hash (Hash), the lines that tell
-- two catalogs apart (Diff), the tables that become enums (EnumTables) and the making of a catalog
-- from the rows of the queries (Readers).
pub mod Catalog
pub mod Diff
mod Encoding
pub mod EnumTables
pub mod Hash
pub mod Readers
mod Samples
mod ReaderSamples
