-- ===== src/Stream.antt =====
-- crates/statguardian-stream: reading newline-delimited JSON under limits.
pub mod Reader
pub mod Ndjson
pub mod Json
pub mod Sanitize
pub mod Report
pub mod Validator
pub mod Agent
