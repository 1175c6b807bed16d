-- ===== src/Registry/Execute/Monotone.antt =====
-- The fuel of the model of `execute`, crates/tcb/src/instruction/registry.rs, changes no result.
use evorule_tcb.Prelude.{ℕ, zero, suc, ◌≤◌, String, ◌≡◌, refl, Option, none, some, arith}
use evorule_tcb.Error.{Result, ok, err}
use evorule_tcb.ExecCtlCtx.{ExecCtlCtx}
use evorule_tcb.Instruction.{GenericInstruction}
use evorule_tcb.State.{State}
use evorule_tcb.Engine.{Outcome, Registry, ContextOp}
use evorule_tcb.Engine.Fuel.{◌⊑◌, out_of_fuel, equal, ⊑-some, Below, with_execute, IsMonotone}
use evorule_tcb.Platform.{Crates}
use evorule_tcb.ExecCtlCtx
use evorule_tcb.Registry.{InstructionRegistry, InstructionDef, get, has, get_context_operation}
use evorule_tcb.Registry.Execute.{
  execute, execute_inner, handle, exited, entered, expanded, expansion, run_entry,
}

-- Every executor that the registry finds is monotone in the fuel of the handle.
abbrev pub AllMonotone : InstructionRegistry → Type 0
AllMonotone reg = (t : String) (def : InstructionDef) → get reg t ≡ some def → IsMonotone def.exec

⊑-exited : {o p : Outcome} → o ⊑ p → exited o ⊑ exited p
unfolding exited
⊑-exited out_of_fuel = out_of_fuel
⊑-exited equal = equal

⊑-entered :
    (r : Result ExecCtlCtx) (c : ExecCtlCtx) (m n : ExecCtlCtx → Outcome)
    → ((d : ExecCtlCtx) → m d ⊑ n d)
    → entered r c m ⊑ entered r c n
unfolding entered
⊑-entered (err e) c m n h = equal
⊑-entered (ok d) c m n h = ⊑-exited (h d)

⊑-expanded :
    (m n : State → GenericInstruction → ExecCtlCtx → Outcome) (i : GenericInstruction)
    (c : ExecCtlCtx) (x : Option (Result (State × GenericInstruction)))
    → Below m n
    → expanded m i c x ⊑ expanded n i c x
⊑-expanded m n i c none h = equal
⊑-expanded m n i c (some (err e)) h = equal
⊑-expanded m n i c (some (ok (s, j))) h = h s j c

⊑-run_entry :
    (entry : Option InstructionDef) (R : Registry) (ops : String → Option ContextOp)
    (m n : State → GenericInstruction → ExecCtlCtx → Outcome) (s : State) (i : GenericInstruction)
    (c : ExecCtlCtx) (p q : Outcome)
    → ((def : InstructionDef) → entry ≡ some def → IsMonotone def.exec)
    → Below m n
    → p ⊑ q
    → run_entry entry (with_execute R ops m) s i c p
      ⊑ run_entry entry (with_execute R ops n) s i c q
⊑-run_entry (some def) R ops m n s i c p q keep h k = (keep def refl).below R ops m n h s i c
⊑-run_entry none R ops m n s i c p q keep h k = k

module _ (C : Crates) (texts : Registry) (reg : InstructionRegistry) (keep : AllMonotone reg) where
  both-Below :
      (f g : ℕ)
      → f ≤ g
      → Below (execute C texts reg f) (execute C texts reg g)
        × Below (execute_inner C texts reg f) (execute_inner C texts reg g)
  unfolding execute execute_inner handle
  both-Below zero g h = (λ s i c. out_of_fuel, λ s i c. out_of_fuel)
  both-Below (suc f) zero h = absurd (omega (arith, h))
  both-Below (suc f) (suc g) h =
      let (outer, inner) = both-Below f g (omega (arith, h)) in
      (
        λ s i c.
            ⊑-entered (ExecCtlCtx.enter c) c (execute_inner C texts reg f s i)
              (execute_inner C texts reg g s i) (inner s i),
        λ s i c.
            ⊑-run_entry (get reg i.instruction_type) (record texts { has = has reg })
              (get_context_operation reg) (execute C texts reg f) (execute C texts reg g) s i c
              (expanded (execute_inner C texts reg f) i c (expansion C s i))
              (expanded (execute_inner C texts reg g) i c (expansion C s i))
              (keep i.instruction_type) outer
              (⊑-expanded (execute_inner C texts reg f) (execute_inner C texts reg g) i c
                (expansion C s i) inner),
      )

  pub execute-Below : (f g : ℕ) → f ≤ g → Below (execute C texts reg f) (execute C texts reg g)
  execute-Below f g h = (both-Below f g h).0

  -- When the registered executors are monotone in the fuel of the handle, a result of `execute` on some
  -- fuel is its result on any greater fuel.
  pub execute_stable :
      (f g : ℕ) (s : State) (i : GenericInstruction) (c : ExecCtlCtx)
      (r : Result State × ExecCtlCtx)
      → f ≤ g
      → execute C texts reg f s i c ≡ some r
      → execute C texts reg g s i c ≡ some r
  execute_stable f g s i c r h e = ⊑-some (execute-Below f g h s i c) e
