-- ===== src/Pgexec.antt =====
-- pgexec/: statements, identity and errors of a PostgreSQL session. One child per source file.
pub mod Ident
pub mod Errors
pub mod Classify
pub mod Tx
pub mod Pool
mod Samples
