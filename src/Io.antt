-- ===== src/Io.antt =====
-- crates/statguardian-io: reading data from files, tables, clouds and databases.
pub mod Errors
pub mod System
pub mod Paths
pub mod Formats
pub mod Batches
pub mod Delta
pub mod Cloud
pub mod Sql
pub mod Iceberg
pub mod Reader
pub mod Rows
