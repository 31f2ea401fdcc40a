-- ===== src/Core/Parser.antt =====
-- crates/statguardian-core/src/parser: from the text of contracts to their data.
pub mod Tree
pub mod Words
pub mod Fields
pub mod Rules
pub mod Contract
pub mod Print
pub mod RoundTrip
