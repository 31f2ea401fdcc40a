-- ===== src/Validators.antt =====
-- crates/statguardian-validators: the checks of a contract and what they find.
pub mod Violation
pub mod Frame
pub mod Schema
pub mod Rules
