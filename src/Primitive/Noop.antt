-- ===== src/Primitive/Noop.antt =====
-- The primitive without effect, crates/tcb/src/primitive/noop_ops.rs.
use evorule_tcb.Error.{Result, ok}
use evorule_tcb.Instruction.{GenericInstruction}
use evorule_tcb.State.{State}
use evorule_tcb.Engine.{Registry}

unfoldable pub exec_noop : Registry → State → GenericInstruction → Result State
exec_noop R s i = ok s
