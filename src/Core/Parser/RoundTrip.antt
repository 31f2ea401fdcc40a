-- ===== src/Core/Parser/RoundTrip.antt =====
-- crates/statguardian-core/src/parser: what was made for a contract is parsed to the contract.
pub mod Words
pub mod Fields
pub mod Rules
pub mod Contract
