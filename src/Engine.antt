-- ===== src/Engine.antt =====
-- What an executor is, crates/tcb/src/instruction/mod.rs: `ExecutorFn` and `ContextOpFn`, with the
-- control context passed in and handed back.
pub mod Contract
pub mod Fuel
pub mod Returns
use evorule_tcb.Prelude.{ℕ, String, Bool, Option, none, some}
use evorule_tcb.Value.Data.{Value}
use evorule_tcb.Value.ImMap
use evorule_tcb.Error.{Result, ok, err}
use evorule_tcb.State.{State}
use evorule_tcb.State.Run.{Run}
use evorule_tcb.Instruction.{GenericInstruction}
use evorule_tcb.ExecCtlCtx.{ExecCtlCtx}

-- What a run leaves behind: its result and the control context. It is `none` where the fuel of the
-- model has run out, and where a loop of the source never ends.
abbrev pub Outcome : Type 0
Outcome = Option (Result State × ExecCtlCtx)

-- The `?` operator after an execution.
infixl 5 ◌>>=◌
abbrev pub ◌>>=◌ : Outcome → (State × ExecCtlCtx → Outcome) → Outcome
none >>= next = none
some (ok s, c) >>= next = next (s, c)
some (err e, c) >>= next = some (err e, c)

-- The `?` operator after a computation that does not execute anything.
abbrev pub attempt {ℓ} : {A : Type ℓ} → Result A → ExecCtlCtx → (A → Outcome) → Outcome
attempt (ok a) c next = next a
attempt (err e) c next = some (err e, c)

-- The `?` operator after a write to a path, which executes nothing either.
abbrev pub proceed : Run → ExecCtlCtx → (State → Outcome) → Outcome
proceed none c next = none
proceed (some (ok s)) c next = next s
proceed (some (err e)) c next = some (err e, c)

-- What is known of the instruction types, and the texts that the primitives print.
pub record Registry : Type 0 where
  pub has : String → Bool
  pub describe : (context instr_type : String) → Value → String
  pub position : (context : String) → ℕ → String
  pub debug : Value → String
  pub show : ℕ → String

abbrev pub ContextOp : Type 0
ContextOp = Value → Value → Value

-- The registry as an executor sees it.
pub record Handle : Type 0 where
  pub execute : State → GenericInstruction → ExecCtlCtx → Outcome
  pub registry : Registry
  pub context_op : String → Option ContextOp

abbrev pub Executor : Type 0
Executor = Handle → State → GenericInstruction → ExecCtlCtx → Outcome

-- An executor that neither executes anything nor uses the control context.
abbrev pub pure_executor : (Registry → State → GenericInstruction → Result State) → Executor
pure_executor f h s i c = some (f h.registry s i, c)

-- A run beside an unchanged control context.
abbrev pub beside : Run → ExecCtlCtx → Outcome
beside none c = none
beside (some r) c = some (r, c)

-- An executor that writes to a path.
abbrev pub writing_executor : (Registry → State → GenericInstruction → Run) → Executor
writing_executor f h s i c = beside (f h.registry s i) c

-- An executor that reads the operations on the context besides.
abbrev pub ops_executor :
    ((String → Option ContextOp) → Registry → State → GenericInstruction → Run) → Executor
ops_executor f h s i c = beside (f h.context_op h.registry s i) c
