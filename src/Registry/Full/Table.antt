-- ===== src/Registry/Full/Table.antt =====
-- The executors of the tables of crates/tcb/src/primitive/mod.rs and crates/tcb/src/control/mod.rs, each
-- with the contract that it keeps.
use evorule_tcb.Prelude.{String, refl, inl, inr, Option, List, arith, Bool-cases}
use evorule_tcb.Error.{Result}
use evorule_tcb.ExecCtlCtx.{ExecCtlCtx}
use evorule_tcb.Instruction.{GenericInstruction}
use evorule_tcb.State.{State}
use evorule_tcb.State.Run.{Run}
use evorule_tcb.Engine.{Registry, ContextOp, pure_executor, writing_executor, ops_executor}
use evorule_tcb.Engine.Contract.{
  After, After-refl, Respects-pure_executor, Respects-writing_executor, Respects-ops_executor,
}
use evorule_tcb.Engine.Fuel.{
  equal, IsMonotone-pure_executor, IsMonotone-writing_executor, IsMonotone-ops_executor,
}
use evorule_tcb.Platform.{Floats, Crates}
use evorule_tcb.ExecCtlCtx
use evorule_tcb.Registry.{Explainer}
use evorule_tcb.Registry.Full.{
  primitive_fns, control_fns, trace_executor, create_full_registry, register_all,
  with_default_context_ops,
}
use evorule_tcb.Registry.Full.Contract.{
  Sound, AllSound, FnsSound, AllSound-inject_explainers, AllSound-register_all,
}
use evorule_tcb.Audit.TraceStep.{exec_trace_step, audit_on}
use evorule_tcb.Control.Dispatch.Contract.{Respects-exec_dispatch}
use evorule_tcb.Control.Dispatch.Monotone.{IsMonotone-exec_dispatch}
use evorule_tcb.Control.WhileLoop.Contract.{Respects-exec_while_loop}
use evorule_tcb.Control.WhileLoop.Monotone.{IsMonotone-exec_while_loop}
use evorule_tcb.Primitive.Contract.{
  Respects-exec_instruction_sequence, Respects-exec_execute_try_catch,
  Respects-exec_execute_parallel, Respects-exec_apply_rule,
}
use evorule_tcb.Primitive.Monotone.{
  IsMonotone-exec_instruction_sequence, IsMonotone-exec_execute_try_catch,
  IsMonotone-exec_execute_parallel, IsMonotone-exec_apply_rule,
}

Sound-pure_executor :
    (f : Registry → State → GenericInstruction → Result State) → Sound (pure_executor f)
Sound-pure_executor f = record {
  respects = Respects-pure_executor f;
  monotone = IsMonotone-pure_executor f;
}

Sound-writing_executor :
    (f : Registry → State → GenericInstruction → Run) → Sound (writing_executor f)
Sound-writing_executor f = record {
  respects = Respects-writing_executor f;
  monotone = IsMonotone-writing_executor f;
}

Sound-ops_executor :
    (f : (String → Option ContextOp) → Registry → State → GenericInstruction → Run)
    → Sound (ops_executor f)
Sound-ops_executor f = record {
  respects = Respects-ops_executor f;
  monotone = IsMonotone-ops_executor f;
}

After-ticked : (c : ExecCtlCtx) → After c (ExecCtlCtx.next_tick c).1
unfolding ExecCtlCtx.next_tick
After-ticked c = record {
  same_depth = refl;
  same_max_depth = refl;
  same_max_instructions = refl;
  counted = omega arith;
  within = λ w. ground arith;
}

After-trace_step :
    (C : Crates) (s : State) (i : GenericInstruction) (c : ExecCtlCtx)
    → After c (exec_trace_step C s i c).1
unfolding exec_trace_step
After-trace_step C s i c = elim (Bool-cases (audit_on s)) [
  | inl p ↦ rw p (After-ticked c)
  | inr p ↦ rw p (After-refl c)
]

Sound-trace_executor : (C : Crates) → Sound (trace_executor C)
unfolding trace_executor
Sound-trace_executor C = record {
  respects = record { ends = λ h k s i c. After-trace_step C s i c };
  monotone = record { below = λ R ops m n k s i c. equal };
}

infixr 5 ◌&◌
abbrev ◌&◌ {ℓ κ} : {A : Type ℓ} {B : Type κ} → A → B → A × B
a & b = (a, b)

module _ (F : Floats) (C : Crates) where
  pub FnsSound-primitive_fns : FnsSound (primitive_fns F C)
  unfolding primitive_fns
  FnsSound-primitive_fns =
      let p = λ (f : Registry → State → GenericInstruction → Result State). Sound-pure_executor f in
      let w = λ (f : Registry → State → GenericInstruction → Run). Sound-writing_executor f in
      Sound-ops_executor _
      & w _
      & Sound-ops_executor _
      & p _
      & p _
      & p _
      & record {
        respects = Respects-exec_instruction_sequence;
        monotone = IsMonotone-exec_instruction_sequence;
      }
      & p _
      & w _
      & w _
      & record { respects = Respects-exec_apply_rule; monotone = IsMonotone-exec_apply_rule }
      & w _
      & w _
      & w _
      & w _
      & w _
      & w _
      & w _
      & w _
      & w _
      & Sound-trace_executor C
      & record {
        respects = Respects-exec_execute_try_catch;
        monotone = IsMonotone-exec_execute_try_catch;
      }
      & record {
        respects = Respects-exec_execute_parallel F;
        monotone = IsMonotone-exec_execute_parallel F;
      }
      & p _
      & tt

  pub FnsSound-control_fns : FnsSound (control_fns F C)
  unfolding control_fns
  FnsSound-control_fns =
      record { respects = Respects-exec_dispatch C; monotone = IsMonotone-exec_dispatch C }
      & record { respects = Respects-exec_while_loop F; monotone = IsMonotone-exec_while_loop F }
      & tt

  pub AllSound-create_full_registry :
      (explainers : List (String × Explainer))
      → AllSound (create_full_registry F C explainers).instructions
  unfolding create_full_registry with_default_context_ops
  AllSound-create_full_registry explainers =
      AllSound-inject_explainers
        (register_all F C (register_all F C (with_default_context_ops F C) (primitive_fns F C))
          (control_fns F C))
        explainers
        (AllSound-register_all F C (control_fns F C)
          (register_all F C (with_default_context_ops F C) (primitive_fns F C))
          (AllSound-register_all F C (primitive_fns F C) (with_default_context_ops F C) tt
            FnsSound-primitive_fns)
          FnsSound-control_fns)
