-- ===== src/Metrics.antt =====
-- crates/statguardian-metrics: the report of a run over one data frame.
pub mod Report
