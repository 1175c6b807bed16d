-- ===== src/Control/WhileLoop/Drain.antt =====
-- Termination of the drain and of the loop, crates/tcb/src/control/while_loop.rs: each round of a drain
-- that goes on has executed an instruction, and the budget of instructions bounds these.
use evorule_tcb.Prelude.{String, ◌<◌, ◌≡◌, Bool}
use evorule_tcb.Value.Data.{Value, bool}
use evorule_tcb.Value.ImMap
use evorule_tcb.ExecCtlCtx.{ExecCtlCtx}
use evorule_tcb.Instruction.{GenericInstruction}
use evorule_tcb.State.{State}
use evorule_tcb.Engine.{Handle}
use evorule_tcb.Engine.Contract.{EndsAll}
use evorule_tcb.ExecCtlCtx.Laws.{IsWithin}
use evorule_tcb.Instruction
use evorule_tcb.State.Exec.{update_exec_field}
use evorule_tcb.Registry.Execute.Contract.{Advances}
use evorule_tcb.Engine.Returns.{ReturnsIn}
use evorule_tcb.Control.WhileLoop.{set_trace_source}

-- A handle that serves the states with some property: it keeps to the contract, counts each instruction
-- that it answers, and answers every execution on such a state, with such a state or an error. What the
-- loop itself writes into the context leaves the property as it is.
pub record Serves (h : Handle) (P : State → Type 0) : Type 0 where
  pub ends : EndsAll h
  pub advances :
      (s : State) (i : GenericInstruction) (c : ExecCtlCtx) → Advances c (h.execute s i c)
  pub returns :
      (s : State) (i : GenericInstruction) (c : ExecCtlCtx) → P s → ReturnsIn P (h.execute s i c)
  pub queue_set : (s : State) (v : Value) → P s → P (update_exec_field s "queue" v)
  pub instruction_set : (s : State) (v : Value) → P s → P (update_exec_field s "instruction" v)
  pub source_set : (s : State) (t : String) → P s → P (set_trace_source s t)
  pub finished :
      (s : State) (b : Bool) → P s → P (update_exec_field s "__terminated_by_max_steps" (bool b))

-- What is known of the context after an execution that returned a state.
pub record Later (c d : ExecCtlCtx) : Type 0 where
  pub within : IsWithin d
  pub same_max : d.max_instructions ≡ c.max_instructions
  pub counted : c.instruction_count < d.instruction_count
