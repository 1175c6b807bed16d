-- ===== src/Engine/Fuel.antt =====
-- More fuel changes no result: the order on outcomes, with one rule for each way to build an executor.
use evorule_tcb.Prelude.{String, ◌≡◌, Bool, true, false, Option, none, some, if◌then◌else◌}
use evorule_tcb.Error.{Result, ok, err}
use evorule_tcb.State.{State}
use evorule_tcb.State.Run.{Run}
use evorule_tcb.Instruction.{GenericInstruction}
use evorule_tcb.ExecCtlCtx.{ExecCtlCtx}
use evorule_tcb.Value.Data.{Value}
use evorule_tcb.Engine.{
  Outcome, ◌>>=◌, attempt, Registry, Handle, ContextOp, Executor, pure_executor, ops_executor,
  proceed, writing_executor,
}

-- The second outcome is the first one, unless the first one ran out of fuel.
infix 50 ◌⊑◌
pub data ◌⊑◌ : Outcome → Outcome → Type 0 where
  out_of_fuel : {o : Outcome} → none ⊑ o
  equal : {o : Outcome} → o ⊑ o

pub ⊑->>= :
    {o p : Outcome} (f g : State × ExecCtlCtx → Outcome)
    → o ⊑ p
    → ((s : State) (c : ExecCtlCtx) → f (s, c) ⊑ g (s, c))
    → (o >>= f) ⊑ (p >>= g)
⊑->>= f g out_of_fuel h = out_of_fuel
⊑->>= f g (equal {o = none}) h = out_of_fuel
⊑->>= f g (equal {o = some (ok s, c)}) h = h s c
⊑->>= f g (equal {o = some (err e, c)}) h = equal

pub ⊑-attempt {ℓ} :
    {A : Type ℓ} (m : Result A) (c : ExecCtlCtx) (f g : A → Outcome)
    → ((a : A) → f a ⊑ g a)
    → attempt m c f ⊑ attempt m c g
⊑-attempt (ok a) c f g h = h a
⊑-attempt (err e) c f g h = equal

pub ⊑-proceed :
    (m : Run) (c : ExecCtlCtx) (f g : State → Outcome)
    → ((s : State) → f s ⊑ g s)
    → proceed m c f ⊑ proceed m c g
⊑-proceed none c f g h = equal
⊑-proceed (some (ok s)) c f g h = h s
⊑-proceed (some (err e)) c f g h = equal

pub ⊑-some : {o p : Outcome} {r : Result State × ExecCtlCtx} → o ⊑ p → o ≡ some r → p ≡ some r
⊑-some out_of_fuel e = cc
⊑-some equal e = e

-- Two ways to execute on one registry, the second with at least the fuel of the first.
abbrev pub Below : (f g : State → GenericInstruction → ExecCtlCtx → Outcome) → Type 0
Below f g = (s : State) (i : GenericInstruction) (c : ExecCtlCtx) → f s i c ⊑ g s i c

abbrev pub with_execute :
    Registry
    → (String → Option (Value → Value → Value))
    → (State → GenericInstruction → ExecCtlCtx → Outcome)
    → Handle
with_execute R ops f = record { execute = f; registry = R; context_op = ops }

pub record IsMonotone (e : Executor) : Type 0 where
  pub below :
      (R : Registry) (ops : String → Option (Value → Value → Value))
      (f g : State → GenericInstruction → ExecCtlCtx → Outcome)
      → Below f g
      → Below (e (with_execute R ops f)) (e (with_execute R ops g))

pub IsMonotone-pure_executor :
    (f : Registry → State → GenericInstruction → Result State) → IsMonotone (pure_executor f)
IsMonotone-pure_executor f = record { below = λ R ops m n h s i c. equal }

pub IsMonotone-writing_executor :
    (f : Registry → State → GenericInstruction → Run) → IsMonotone (writing_executor f)
IsMonotone-writing_executor f = record { below = λ R ops m n h s i c. equal }

pub ⊑-if :
    (b : Bool) (x y v w : Outcome) → x ⊑ v → y ⊑ w → (if b then x else y) ⊑ (if b then v else w)
⊑-if true x y v w p q = p
⊑-if false x y v w p q = q

pub IsMonotone-ops_executor :
    (f : (String → Option ContextOp) → Registry → State → GenericInstruction → Run)
    → IsMonotone (ops_executor f)
IsMonotone-ops_executor f = record { below = λ R ops m n h s i c. equal }
