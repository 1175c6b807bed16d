-- ===== src/Deterministic.antt =====
-- Determinism, crates/tcb/src/deterministic.rs.
pub mod Encode
pub mod Bytes
pub mod Injective
pub mod OrderFree
pub mod Random
