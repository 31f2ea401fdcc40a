-- ===== src/Engine.antt =====
-- crates/statguardian-engine: a plan run over a data frame.
pub mod Batch
pub mod Run
pub mod Streaming
