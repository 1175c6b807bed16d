-- ===== src/Primitive.antt =====
-- The primitives of crates/tcb/src/primitive.
pub mod Queue
pub mod StateOps
pub mod Contract
pub mod Monotone
pub mod DomainOps
pub mod RuleOps
pub mod Noop
pub mod ErrorOps
pub mod ComputeOps
