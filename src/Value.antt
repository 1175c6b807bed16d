-- ===== src/Value.antt =====
-- The data model, crates/tcb/src/value.rs.
pub mod Data
pub mod ImMap
pub mod Accessors
pub mod Compare
pub mod DispatchKey
pub mod Json
