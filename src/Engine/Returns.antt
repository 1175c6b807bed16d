-- ===== src/Engine/Returns.antt =====
-- That a run returns at all, crates/tcb/src/instruction/mod.rs, and leaves a state of some kind, with one
-- rule for each way to build an executor.
use evorule_tcb.Prelude.{◌≡◌, refl, ◌≢◌, Bool, true, false, none, some, if◌then◌else◌}
use evorule_tcb.Error.{Result, ok, err}
use evorule_tcb.ExecCtlCtx.{ExecCtlCtx}
use evorule_tcb.State.{State}
use evorule_tcb.Engine.{Outcome, ◌>>=◌, attempt}
use evorule_tcb.Engine.Fuel.{◌⊑◌, out_of_fuel, equal}

-- The run returns, and a state that it returns has the property.
abbrev pub ReturnsIn : (State → Type 0) → Outcome → Type 0
ReturnsIn P none = ⊥
ReturnsIn P (some (ok s, c)) = P s
ReturnsIn P (some (err e, c)) = Unit

module _ (P : State → Type 0) where
  pub ReturnsIn->>= :
      (o : Outcome) (next : State × ExecCtlCtx → Outcome)
      → ReturnsIn P o
      → ((s : State) (d : ExecCtlCtx) → o ≡ some (ok s, d) → P s → ReturnsIn P (next (s, d)))
      → ReturnsIn P (o >>= next)
  ReturnsIn->>= none next p q = absurd p
  ReturnsIn->>= (some (ok s, d)) next p q = q s d refl p
  ReturnsIn->>= (some (err e, d)) next p q = tt

  pub ReturnsIn-attempt {ℓ} :
      {A : Type ℓ} (m : Result A) (c : ExecCtlCtx) (next : A → Outcome)
      → ((a : A) → ReturnsIn P (next a))
      → ReturnsIn P (attempt m c next)
  ReturnsIn-attempt (ok a) c next q = q a
  ReturnsIn-attempt (err e) c next q = tt

  pub ReturnsIn-if :
      (b : Bool) (x y : Outcome) → ReturnsIn P x → ReturnsIn P y → ReturnsIn P (if b then x else y)
  ReturnsIn-if true x y p q = p
  ReturnsIn-if false x y p q = q

  pub ReturnsIn-returns : (o : Outcome) → ReturnsIn P o → o ≢ none
  ReturnsIn-returns none p = absurd p
  ReturnsIn-returns (some r) p = λ h. cc

pub ⊑-returns : {o p : Outcome} → o ⊑ p → o ≢ none → p ≡ o
⊑-returns out_of_fuel r = absurd (r refl)
⊑-returns equal r = refl
