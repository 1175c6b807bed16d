-- ===== src/Control/WhileLoop/Contract.antt =====
-- The loop of crates/tcb/src/control/while_loop.rs keeps to the contract of the executors.
use evorule_tcb.Prelude.{
  ℕ, zero, suc, ◌+◌, ◌-◌, Bool, true, false, not, ◌&&◌, Option, none, some, unwrap_or,
}
use evorule_tcb.Value.Data.{
  Value, null, bool, integer, float, string, list, object, bytes, Items, nil, cons,
}
use evorule_tcb.Value.ImMap
use evorule_tcb.ExecCtlCtx.{ExecCtlCtx}
use evorule_tcb.Instruction.{GenericInstruction}
use evorule_tcb.State.{State}
use evorule_tcb.Engine.{Outcome, Handle}
use evorule_tcb.Engine.Contract.{
  After-refl, Ends, Ends->>=, Ends-attempt, Ends-if, EndsAll, Respects,
}
use evorule_tcb.Platform.{Floats}
use evorule_tcb.Value.Accessors.{empty_list}
use evorule_tcb.Instruction
use evorule_tcb.State.Exec.{exec_field}
use evorule_tcb.Control.Dispatch.{is_running}
use evorule_tcb.Control.WhileLoop.{
  exec_while_loop, Settings, trace_if, pop_front, drained, drain_step, drain, drain_queue, run_all,
  steps, body_items, check_condition, settings, step_limit,
}

module _ (h : Handle) (k : EndsAll h) where
  pub Ends-trace_if : (b : Bool) (s : State) (c : ExecCtlCtx) → Ends c (trace_if b h s c)
  unfolding trace_if
  Ends-trace_if true s c = k s (Instruction.simple "trace_step") c
  Ends-trace_if false s c = After-refl c

  Ends-pop_front :
      (g : Settings) (rest : State → ExecCtlCtx → Outcome) (s : State) (v : Value) (vs : Items)
      (c : ExecCtlCtx)
      → ((t : State) (d : ExecCtlCtx) → Ends d (rest t d))
      → Ends c (pop_front h g rest s v vs c)
  unfolding pop_front
  Ends-pop_front g rest s v vs c r =
      Ends-if c _ _ _
        (Ends-attempt c (Instruction.from_value v) _ λ i.
          Ends->>= c (h.execute _ i c) _ (k _ i c) λ t d.
            Ends->>= d (trace_if (g.audit_on && g.drain_meta_trace) h t d) (λ q. rest q.0 q.1)
              (Ends-trace_if (g.audit_on && g.drain_meta_trace) t d) r)
        (Ends-trace_if g.audit_on _ c)

  Ends-drained : (g : Settings) (s : State) (c : ExecCtlCtx) → Ends c (drained h g s c)
  unfolding drained
  Ends-drained g s c =
      Ends-if c _ _ _ (Ends-trace_if g.audit_on s c)
        (Ends->>= c (h.execute _ _ c) _ (k _ _ c) (Ends-trace_if g.audit_on))

  Ends-drain_step :
      (g : Settings) (rest : State → ExecCtlCtx → Outcome) (s : State) (queue : Value)
      (c : ExecCtlCtx)
      → ((t : State) (d : ExecCtlCtx) → Ends d (rest t d))
      → Ends c (drain_step h g rest s queue c)
  unfolding drain_step
  Ends-drain_step g rest s (list (cons v vs)) c r =
      Ends-if c (is_running s) _ _ (Ends-pop_front g rest s v vs c r) (After-refl c)
  Ends-drain_step g rest s (list nil) c r = Ends-drained g s c
  Ends-drain_step g rest s null c r = After-refl c
  Ends-drain_step g rest s (bool b) c r = After-refl c
  Ends-drain_step g rest s (integer n) c r = After-refl c
  Ends-drain_step g rest s (float x) c r = After-refl c
  Ends-drain_step g rest s (string t) c r = After-refl c
  Ends-drain_step g rest s (object m) c r = After-refl c
  Ends-drain_step g rest s (bytes bs) c r = After-refl c

  pub Ends-drain : (f : ℕ) (g : Settings) (s : State) (c : ExecCtlCtx) → Ends c (drain f h g s c)
  unfolding drain
  Ends-drain zero g s c = tt
  Ends-drain (suc f) g s c =
      Ends-drain_step g (drain f h g) s (unwrap_or (exec_field s "queue") empty_list) c
        (Ends-drain f g)

  pub Ends-drain_queue : (g : Settings) (s : State) (c : ExecCtlCtx) → Ends c (drain_queue h g s c)
  unfolding drain_queue
  Ends-drain_queue g s c = Ends-drain (suc (c.max_instructions - c.instruction_count)) g s c

  pub Ends-run_all : (vs : Items) (s : State) (c : ExecCtlCtx) → Ends c (run_all h vs s c)
  unfolding run_all
  Ends-run_all nil s c = After-refl c
  Ends-run_all (cons v vs) s c =
      Ends-attempt c (Instruction.from_value v) _
        λ i. Ends->>= c (h.execute s i c) _ (k s i c) (Ends-run_all vs)

  Ends-steps :
      (F : Floats) (g : Settings) (condition : Option Value) (max_steps left step last_step : ℕ)
      (holds : Bool) (body : Option Value) (s : State) (c : ExecCtlCtx)
      → Ends c (steps F h g condition max_steps left step last_step holds body s c)
  unfolding steps
  Ends-steps F g condition max_steps zero step last_step holds body s c = After-refl c
  Ends-steps F g condition max_steps (suc left) step last_step holds none s c =
      Ends-attempt c (check_condition F h.registry s condition) _ λ go. After-refl c
  Ends-steps F g condition max_steps (suc left) step last_step holds (some body) s c =
      Ends-attempt c (check_condition F h.registry s condition) _ λ go.
        Ends-if c (not go) _ _ (After-refl c) (
          Ends->>= c (run_all h (body_items body) s c) _ (Ends-run_all (body_items body) s c) λ t d.
            Ends->>= d (drain_queue h g t d) _ (Ends-drain_queue g t d) λ u e.
              Ends-if e (not (is_running u)) _ _ (After-refl e)
                (Ends-steps F g condition max_steps left (step + 1) step true (some body) u e))

pub Respects-exec_while_loop : (F : Floats) → Respects (exec_while_loop F)
unfolding exec_while_loop
Respects-exec_while_loop F = record {
  ends = λ h k s i c.
      Ends-steps h k F (settings s) (ImMap.get i.params "condition") (step_limit i) (step_limit i) 0
        0 false (ImMap.get i.params "body") s c;
}
