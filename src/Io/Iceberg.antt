-- ===== src/Io/Iceberg.antt =====
-- crates/statguardian-io/src/iceberg.rs: from the metadata of an Iceberg table to its files.
pub mod Steps
pub mod Metadata
pub mod Files
pub mod Reader
pub mod Snapshots
pub mod Walk
