-- ===== src/Stats.antt =====
-- crates/statguardian-stats: statistics of columns.
pub mod Hll
pub mod Floats
pub mod Drift
pub mod Profiler
