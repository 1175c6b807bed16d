-- ===== src/Control.antt =====
-- The control flow of crates/tcb/src/control.
pub mod Refs
pub mod Dispatch
pub mod WhileLoop
