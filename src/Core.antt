-- ===== src/Core.antt =====
-- crates/statguardian-core: contracts, and their compilation to an execution plan.
pub mod Ast
pub mod Errors
pub mod Parser
pub mod Dag
pub mod Optimizer
pub mod Compiler
pub mod Windows
