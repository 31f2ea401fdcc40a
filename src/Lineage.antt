-- ===== src/Lineage.antt =====
-- crates/statguardian-lineage: where tables come from and what depends on them.
pub mod Model
pub mod Storage
