-- ===== src/Control/WhileLoop/Monotone.antt =====
-- The loop of crates/tcb/src/control/while_loop.rs is monotone in the fuel of its handle.
use evorule_tcb.Prelude.{
  ℕ, zero, suc, ◌+◌, ◌-◌, String, Bool, true, false, not, ◌&&◌, Option, none, some, unwrap_or,
}
use evorule_tcb.Value.Data.{
  Value, null, bool, integer, float, string, list, object, bytes, Items, nil, cons,
}
use evorule_tcb.Value.ImMap
use evorule_tcb.ExecCtlCtx.{ExecCtlCtx}
use evorule_tcb.Instruction.{GenericInstruction}
use evorule_tcb.State.{State}
use evorule_tcb.Engine.{Outcome, Registry, Handle}
use evorule_tcb.Engine.Fuel.{◌⊑◌, equal, ⊑->>=, ⊑-attempt, ⊑-if, Below, with_execute, IsMonotone}
use evorule_tcb.Platform.{Floats}
use evorule_tcb.Value.Accessors.{empty_list}
use evorule_tcb.Instruction
use evorule_tcb.State.Exec.{exec_field}
use evorule_tcb.Control.Dispatch.{is_running}
use evorule_tcb.Control.WhileLoop.{
  exec_while_loop, Settings, trace_if, pop_front, drained, drain_step, drain, drain_queue, run_all,
  steps, body_items, check_condition, settings, step_limit,
}

module _ (R : Registry) (ops : String → Option (Value → Value → Value))
    (m n : State → GenericInstruction → ExecCtlCtx → Outcome) (below : Below m n) where
  abbrev low : Handle
  low = with_execute R ops m

  abbrev high : Handle
  high = with_execute R ops n

  ⊑-trace_if : (b : Bool) (s : State) (c : ExecCtlCtx) → trace_if b low s c ⊑ trace_if b high s c
  unfolding trace_if
  ⊑-trace_if true s c = below s (Instruction.simple "trace_step") c
  ⊑-trace_if false s c = equal

  ⊑-pop_front :
      (g : Settings) (p q : State → ExecCtlCtx → Outcome) (s : State) (v : Value) (vs : Items)
      (c : ExecCtlCtx)
      → ((t : State) (d : ExecCtlCtx) → p t d ⊑ q t d)
      → pop_front low g p s v vs c ⊑ pop_front high g q s v vs c
  unfolding pop_front
  ⊑-pop_front g p q s v vs c r =
      ⊑-if _ _ _ _ _
        (⊑-attempt (Instruction.from_value v) c _ _ λ i. ⊑->>= _ _ (below _ i c) λ t d.
          ⊑->>= (λ x. p x.0 x.1) (λ x. q x.0 x.1)
            (⊑-trace_if (g.audit_on && g.drain_meta_trace) t d) r)
        (⊑-trace_if g.audit_on _ c)

  ⊑-drained : (g : Settings) (s : State) (c : ExecCtlCtx) → drained low g s c ⊑ drained high g s c
  unfolding drained
  ⊑-drained g s c =
      ⊑-if _ _ _ _ _ (⊑-trace_if g.audit_on s c) (⊑->>= _ _ (below _ _ c) (⊑-trace_if g.audit_on))

  pub ⊑-drain_step :
      (g : Settings) (p q : State → ExecCtlCtx → Outcome) (s : State) (queue : Value)
      (c : ExecCtlCtx)
      → ((t : State) (d : ExecCtlCtx) → p t d ⊑ q t d)
      → drain_step low g p s queue c ⊑ drain_step high g q s queue c
  unfolding drain_step
  ⊑-drain_step g p q s (list (cons v vs)) c r =
      ⊑-if (is_running s) _ _ _ _ (⊑-pop_front g p q s v vs c r) equal
  ⊑-drain_step g p q s (list nil) c r = ⊑-drained g s c
  ⊑-drain_step g p q s null c r = equal
  ⊑-drain_step g p q s (bool b) c r = equal
  ⊑-drain_step g p q s (integer z) c r = equal
  ⊑-drain_step g p q s (float x) c r = equal
  ⊑-drain_step g p q s (string t) c r = equal
  ⊑-drain_step g p q s (object e) c r = equal
  ⊑-drain_step g p q s (bytes bs) c r = equal

  ⊑-drain :
      (f : ℕ) (g : Settings) (s : State) (c : ExecCtlCtx) → drain f low g s c ⊑ drain f high g s c
  unfolding drain
  ⊑-drain zero g s c = equal
  ⊑-drain (suc f) g s c =
      ⊑-drain_step g (drain f low g) (drain f high g) s
        (unwrap_or (exec_field s "queue") empty_list) c (⊑-drain f g)

  ⊑-drain_queue :
      (g : Settings) (s : State) (c : ExecCtlCtx) → drain_queue low g s c ⊑ drain_queue high g s c
  unfolding drain_queue
  ⊑-drain_queue g s c = ⊑-drain (suc (c.max_instructions - c.instruction_count)) g s c

  ⊑-run_all : (vs : Items) (s : State) (c : ExecCtlCtx) → run_all low vs s c ⊑ run_all high vs s c
  unfolding run_all
  ⊑-run_all nil s c = equal
  ⊑-run_all (cons v vs) s c =
      ⊑-attempt (Instruction.from_value v) c _ _ λ i. ⊑->>= _ _ (below s i c) (⊑-run_all vs)

  ⊑-steps :
      (F : Floats) (g : Settings) (condition : Option Value) (max_steps left step last_step : ℕ)
      (holds : Bool) (body : Option Value) (s : State) (c : ExecCtlCtx)
      → steps F low g condition max_steps left step last_step holds body s c
        ⊑ steps F high g condition max_steps left step last_step holds body s c
  unfolding steps
  ⊑-steps F g condition max_steps zero step last_step holds body s c = equal
  ⊑-steps F g condition max_steps (suc left) step last_step holds none s c = equal
  ⊑-steps F g condition max_steps (suc left) step last_step holds (some body) s c =
      ⊑-attempt (check_condition F R s condition) c _ _ λ go. ⊑-if (not go) _ _ _ _ equal (
        ⊑->>= _ _ (⊑-run_all (body_items body) s c) λ t d. ⊑->>= _ _ (⊑-drain_queue g t d) λ u e.
          ⊑-if (not (is_running u)) _ _ _ _ equal
            (⊑-steps F g condition max_steps left (step + 1) step true (some body) u e))

pub IsMonotone-exec_while_loop : (F : Floats) → IsMonotone (exec_while_loop F)
unfolding exec_while_loop
IsMonotone-exec_while_loop F = record {
  below = λ R ops m n k s i c.
      ⊑-steps R ops m n k F (settings s) (ImMap.get i.params "condition") (step_limit i)
        (step_limit i) 0 0 false (ImMap.get i.params "body") s c;
}
