-- ===== src/ExecContext/Laws.antt =====
-- The typed view and the object carry the same data, crates/tcb/src/exec_context.rs.
use evorule_tcb.Prelude.{◌≡◌, refl}
use evorule_tcb.ExecContext.{ExecContext, from_value, to_value}

-- A context is read back, in every field, from the object that it is written as.
pub context_from_value-to_value : (c : ExecContext) → from_value (to_value c) ≡ c
unfolding from_value to_value
context_from_value-to_value c = refl
