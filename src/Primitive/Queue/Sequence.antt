-- ===== src/Primitive/Queue/Sequence.antt =====
-- The direct execution of a list of instructions, crates/tcb/src/primitive/queue_ops.rs.
use evorule_tcb.Prelude.{some, ◌==◌, if◌then◌else◌, and_then, unwrap_or}
use evorule_tcb.Value.Data.{Value, list, Items, nil, cons}
use evorule_tcb.Value.ImMap
use evorule_tcb.Error.{type_error, Result, ok, err}
use evorule_tcb.ExecCtlCtx.{ExecCtlCtx}
use evorule_tcb.Instruction.{GenericInstruction}
use evorule_tcb.State.{State}
use evorule_tcb.Engine.{
  Outcome, ◌>>=◌, attempt, Registry, ContextOp, Handle, Executor, pure_executor, ops_executor,
}
use evorule_tcb.Engine
use evorule_tcb.Value.Accessors
use evorule_tcb.Value.Accessors.{empty_list, as_str, type_name}
use evorule_tcb.Instruction

abbrev pub instruction_list : Value → Result Items
unfolding type_name
instruction_list (list instructions) = ok instructions
instruction_list v = err (type_error "List" (type_name v))

-- An instruction without a type is skipped.
unfoldable pub run_sequence : Handle → Items → State → ExecCtlCtx → Outcome
unfolding Accessors.get as_str Instruction.from_value
run_sequence h nil s c = some (ok s, c)
run_sequence h (cons item instr_list) s c =
    let rest = run_sequence h instr_list s c in
    if unwrap_or (and_then (Accessors.get item "type") as_str) "" == ""
    then rest
    else attempt (Instruction.from_value item) c (λ child_instr.
      Engine.◌>>=◌ (h.execute s child_instr c) (λ p. run_sequence h instr_list p.0 p.1))

unfoldable pub exec_instruction_sequence : Executor
unfolding ImMap.get run_sequence
exec_instruction_sequence h s i c =
    attempt (instruction_list (unwrap_or (ImMap.get i.params "instructions") empty_list)) c
      (λ instr_list. run_sequence h instr_list s c)
