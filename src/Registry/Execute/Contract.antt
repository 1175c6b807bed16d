-- ===== src/Registry/Execute/Contract.antt =====
-- What an execution does to the control context, crates/tcb/src/instruction/registry.rs with
-- crates/tcb/src/exec_ctl_ctx.rs, when the executors of the registry keep to the contract.
use evorule_tcb.Prelude.{ℕ, zero, suc, ◌<◌, String, ◌≡◌, refl, Option, none, some, arith}
use evorule_tcb.Error.{Result, ok, err}
use evorule_tcb.ExecCtlCtx.{ExecCtlCtx}
use evorule_tcb.Instruction.{GenericInstruction}
use evorule_tcb.State.{State}
use evorule_tcb.Engine.{Outcome, Registry, Handle}
use evorule_tcb.Engine.Contract.{After, After-refl, Ends, EndsAll, Respects}
use evorule_tcb.Platform.{Crates}
use evorule_tcb.ExecCtlCtx
use evorule_tcb.ExecCtlCtx.Laws.{enter-IsWithin, exit-IsWithin}
use evorule_tcb.Registry.{InstructionRegistry, InstructionDef, get}
use evorule_tcb.Registry.Execute.{
  execute, execute_inner, handle, exited, entered, expanded, expansion, run_entry,
}

-- Every executor that the registry finds keeps to the contract.
abbrev pub AllRespect : InstructionRegistry → Type 0
AllRespect reg = (t : String) (def : InstructionDef) → get reg t ≡ some def → Respects def.exec

After-exit :
    (c d e : ExecCtlCtx) → ExecCtlCtx.enter c ≡ ok d → After d e → After c (ExecCtlCtx.exit e)
unfolding ExecCtlCtx.enter ExecCtlCtx.exit
After-exit c d e h a = record {
  same_depth = ground (arith, a.same_depth);
  same_max_depth = ground (arith, a.same_max_depth);
  same_max_instructions = ground (arith, a.same_max_instructions);
  counted = ground (arith, a.counted);
  within = λ w. exit-IsWithin e (a.within (enter-IsWithin c d w h));
}

Ends-exited :
    (c d : ExecCtlCtx) (o : Outcome) → ExecCtlCtx.enter c ≡ ok d → Ends d o → Ends c (exited o)
unfolding exited
Ends-exited c d none h k = tt
Ends-exited c d (some (r, e)) h k = After-exit c d e h k

Ends-entered :
    (c : ExecCtlCtx) (r : Result ExecCtlCtx) (inner : ExecCtlCtx → Outcome)
    → ExecCtlCtx.enter c ≡ r
    → ((d : ExecCtlCtx) → Ends d (inner d))
    → Ends c (entered r c inner)
unfolding entered
Ends-entered c (err e) inner h k = After-refl c
Ends-entered c (ok d) inner h k = Ends-exited c d (inner d) h (k d)

Ends-expanded :
    (inner : State → GenericInstruction → ExecCtlCtx → Outcome) (i : GenericInstruction)
    (c : ExecCtlCtx) (x : Option (Result (State × GenericInstruction)))
    → ((s : State) (j : GenericInstruction) (d : ExecCtlCtx) → Ends d (inner s j d))
    → Ends c (expanded inner i c x)
Ends-expanded inner i c none k = After-refl c
Ends-expanded inner i c (some (err e)) k = After-refl c
Ends-expanded inner i c (some (ok (s, j))) k = k s j c

Ends-run_entry :
    (entry : Option InstructionDef) (h : Handle) (s : State) (i : GenericInstruction)
    (c : ExecCtlCtx) (fallback : Outcome)
    → ((def : InstructionDef) → entry ≡ some def → Respects def.exec)
    → EndsAll h
    → Ends c fallback
    → Ends c (run_entry entry h s i c fallback)
Ends-run_entry (some def) h s i c fallback keep k l = (keep def refl).ends h k s i c
Ends-run_entry none h s i c fallback keep k l = l

-- An answered execution has counted at least one instruction.
abbrev pub Advances : ExecCtlCtx → Outcome → Type 0
Advances c (some (ok s, d)) = c.instruction_count < d.instruction_count
Advances c _ = Unit

Advances-exited :
    (c d : ExecCtlCtx) (o : Outcome) → ExecCtlCtx.enter c ≡ ok d → Ends d o → Advances c (exited o)
unfolding ExecCtlCtx.enter ExecCtlCtx.exit exited
Advances-exited c d none h k = tt
Advances-exited c d (some (err x, e)) h k = tt
Advances-exited c d (some (ok s, e)) h k = ground (arith, k.counted)

Advances-entered :
    (c : ExecCtlCtx) (r : Result ExecCtlCtx) (inner : ExecCtlCtx → Outcome)
    → ExecCtlCtx.enter c ≡ r
    → ((d : ExecCtlCtx) → Ends d (inner d))
    → Advances c (entered r c inner)
unfolding entered
Advances-entered c (err e) inner h k = tt
Advances-entered c (ok d) inner h k = Advances-exited c d (inner d) h (k d)

module _ (C : Crates) (texts : Registry) (reg : InstructionRegistry) (keep : AllRespect reg) where
  both-Ends :
      (f : ℕ)
      → ((s : State) (i : GenericInstruction) (c : ExecCtlCtx)
          → Ends c (execute C texts reg f s i c))
        × ((s : State) (i : GenericInstruction) (c : ExecCtlCtx)
            → Ends c (execute_inner C texts reg f s i c))
  unfolding execute execute_inner handle
  both-Ends zero = (λ s i c. tt, λ s i c. tt)
  both-Ends (suc f) =
      let (outer, inner) = both-Ends f in
      (
        λ s i c.
            Ends-entered c (ExecCtlCtx.enter c) (execute_inner C texts reg f s i) refl (inner s i),
        λ s i c.
            Ends-run_entry (get reg i.instruction_type) (handle C texts reg (execute C texts reg f))
              s i c (expanded (execute_inner C texts reg f) i c (expansion C s i))
              (keep i.instruction_type) outer
              (Ends-expanded (execute_inner C texts reg f) i c (expansion C s i) inner),
      )

  -- When every registered executor keeps to the contract of the control context, so does `execute`:
  -- whatever it returns, an error included, the depth and the limits of the context are what they were,
  -- the instruction counter has not gone back, and a context within its limits stays within them.
  pub execute-Ends :
      (f : ℕ) (s : State) (i : GenericInstruction) (c : ExecCtlCtx)
      → Ends c (execute C texts reg f s i c)
  execute-Ends f = (both-Ends f).0

  pub execute-Advances :
      (f : ℕ) (s : State) (i : GenericInstruction) (c : ExecCtlCtx)
      → Advances c (execute C texts reg f s i c)
  unfolding execute
  execute-Advances zero s i c = tt
  execute-Advances (suc f) s i c =
      Advances-entered c (ExecCtlCtx.enter c) (execute_inner C texts reg f s i) refl
        ((both-Ends f).1 s i)
