-- ===== src/Engine/Contract.antt =====
-- What an execution may do to the control context, crates/tcb/src/exec_ctl_ctx.rs, with one rule for
-- each way to build an executor.
use evorule_tcb.Prelude.{
  ◌≤◌, String, ◌≡◌, refl, ◌∙◌, Bool, true, false, Option, none, some, arith, if◌then◌else◌,
}
use evorule_tcb.Error.{Result, ok, err}
use evorule_tcb.State.{State}
use evorule_tcb.State.Run.{Run}
use evorule_tcb.Instruction.{GenericInstruction}
use evorule_tcb.ExecCtlCtx.{ExecCtlCtx}
use evorule_tcb.ExecCtlCtx.Laws.{IsWithin}
use evorule_tcb.Engine.{
  Outcome, ◌>>=◌, attempt, Registry, Handle, ContextOp, Executor, pure_executor, ops_executor,
  proceed, beside, writing_executor,
}

-- The depth and the limits are what they were, the instruction counter has not gone back, and the
-- limits are kept.
pub record After (c d : ExecCtlCtx) : Type 0 where
  pub same_depth : d.depth ≡ c.depth
  pub same_max_depth : d.max_depth ≡ c.max_depth
  pub same_max_instructions : d.max_instructions ≡ c.max_instructions
  pub counted : c.instruction_count ≤ d.instruction_count
  pub within : IsWithin c → IsWithin d

pub After-refl : (c : ExecCtlCtx) → After c c
After-refl c = record {
  same_depth = refl;
  same_max_depth = refl;
  same_max_instructions = refl;
  counted = omega arith;
  within = λ w. w;
}

pub After-trans : (c d e : ExecCtlCtx) → After c d → After d e → After c e
After-trans c d e p q = record {
  same_depth = q.same_depth ∙ p.same_depth;
  same_max_depth = q.same_max_depth ∙ p.same_max_depth;
  same_max_instructions = q.same_max_instructions ∙ p.same_max_instructions;
  counted = omega (arith, p.counted, q.counted);
  within = λ w. q.within (p.within w);
}

-- Whatever the outcome, an error included, it ends after `c`.
abbrev pub Ends : ExecCtlCtx → Outcome → Type 0
Ends c none = Unit
Ends c (some (r, d)) = After c d

pub Ends-now : (c : ExecCtlCtx) (r : Result State) → Ends c (some (r, c))
Ends-now c r = After-refl c

pub Ends-later : (c d : ExecCtlCtx) (o : Outcome) → After c d → Ends d o → Ends c o
Ends-later c d none p q = tt
Ends-later c d (some (r, e)) p q = After-trans c d e p q

pub Ends->>= :
    (c : ExecCtlCtx) (o : Outcome) (next : State × ExecCtlCtx → Outcome)
    → Ends c o
    → ((s : State) (d : ExecCtlCtx) → Ends d (next (s, d)))
    → Ends c (o >>= next)
Ends->>= c none next p q = tt
Ends->>= c (some (ok s, d)) next p q = Ends-later c d (next (s, d)) p (q s d)
Ends->>= c (some (err e, d)) next p q = p

pub Ends-attempt {ℓ} :
    {A : Type ℓ} (c : ExecCtlCtx) (m : Result A) (next : A → Outcome)
    → ((a : A) → Ends c (next a))
    → Ends c (attempt m c next)
Ends-attempt c (ok a) next q = q a
Ends-attempt c (err e) next q = After-refl c

pub Ends-proceed :
    (c : ExecCtlCtx) (m : Run) (next : State → Outcome)
    → ((s : State) → Ends c (next s))
    → Ends c (proceed m c next)
Ends-proceed c none next q = tt
Ends-proceed c (some (ok s)) next q = q s
Ends-proceed c (some (err e)) next q = After-refl c

Ends-beside : (c : ExecCtlCtx) (m : Run) → Ends c (beside m c)
Ends-beside c none = tt
Ends-beside c (some r) = After-refl c

-- The handle ends every execution after the context that it was given.
abbrev pub EndsAll : Handle → Type 0
EndsAll h = (s : State) (i : GenericInstruction) (c : ExecCtlCtx) → Ends c (h.execute s i c)

-- The executor keeps to the contract if the handle does.
pub record Respects (e : Executor) : Type 0 where
  pub ends :
      (h : Handle)
      → EndsAll h
      → (s : State) (i : GenericInstruction) (c : ExecCtlCtx) → Ends c (e h s i c)

pub Respects-pure_executor :
    (f : Registry → State → GenericInstruction → Result State) → Respects (pure_executor f)
Respects-pure_executor f = record { ends = λ h k s i c. After-refl c }

pub Respects-writing_executor :
    (f : Registry → State → GenericInstruction → Run) → Respects (writing_executor f)
Respects-writing_executor f = record { ends = λ h k s i c. Ends-beside c (f h.registry s i) }

pub Ends-if :
    (c : ExecCtlCtx) (b : Bool) (x y : Outcome) → Ends c x → Ends c y → Ends c (if b then x else y)
Ends-if c true x y p q = p
Ends-if c false x y p q = q

pub Respects-ops_executor :
    (f : (String → Option ContextOp) → Registry → State → GenericInstruction → Run)
    → Respects (ops_executor f)
Respects-ops_executor f = record {
  ends = λ h k s i c. Ends-beside c (f h.context_op h.registry s i);
}
