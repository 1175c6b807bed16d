-- ===== src/Registry/Full/Contract.antt =====
-- The contract of the executors for the registries of crates/tcb/src/instruction/registry.rs that hold
-- every executor, and with it for each execution on them.
use evorule_tcb.Prelude.{
  String, ◌≡◌, subst, inl, inr, none, some, List, [], ◌∷◌, ◌++◌, arith, ◌==◌, Bool-cases,
}
use evorule_tcb.Engine.{Executor}
use evorule_tcb.Engine.Contract.{Respects}
use evorule_tcb.Engine.Fuel.{IsMonotone}
use evorule_tcb.Platform.{Floats, Crates}
use evorule_tcb.Registry.{
  InstructionRegistry, InstructionDef, Explainer, d0, find, put, register, register_with_layer,
  register_with_metadata, inject, inject_explainers,
}
use evorule_tcb.Registry.Full.{register_all}

-- What every executor of the registry satisfies.
pub record Sound (e : Executor) : Type 0 where
  pub respects : Respects e
  pub monotone : IsMonotone e

abbrev pub AllSound : List (String × InstructionDef) → Type 0
AllSound [] = Unit
AllSound ((k, d) ∷ m) = Sound d.exec × AllSound m

abbrev pub FnsSound : List (String × Executor) → Type 0
FnsSound [] = Unit
FnsSound ((k, e) ∷ fns) = Sound e × FnsSound fns

pub AllSound-find :
    (m : List (String × InstructionDef)) (k : String) (d : InstructionDef)
    → AllSound m
    → find m k ≡ some d
    → Sound d.exec
AllSound-find [] k d a h = cc
AllSound-find ((j, e) ∷ m) k d (s, a) h = elim (Bool-cases (j == k)) [
  | inl p ↦ let same : e ≡ d = ground arith in subst (λ (x : InstructionDef). Sound x.exec) same s
  | inr p ↦ AllSound-find m k d a (rw p at h)
]

AllSound-put :
    (m : List (String × InstructionDef)) (k : String) (d : InstructionDef)
    → AllSound m
    → Sound d.exec
    → AllSound (put m k d)
AllSound-put [] k d a s = (s, tt)
AllSound-put ((j, e) ∷ m) k d (t, a) s = elim (Bool-cases (j == k)) [
  | inl p ↦ rw p (s, a)
  | inr p ↦ rw p (t, AllSound-put m k d a s)
]

AllSound-inject :
    (m : List (String × InstructionDef)) (k : String) (f : Explainer)
    → AllSound m
    → AllSound (inject m k f)
AllSound-inject [] k f a = tt
AllSound-inject ((j, e) ∷ m) k f (t, a) = elim (Bool-cases (j == k)) [
  | inl p ↦ rw p (t, a)
  | inr p ↦ rw p (t, AllSound-inject m k f a)
]

pub AllSound-inject_explainers :
    (r : InstructionRegistry) (fs : List (String × Explainer))
    → AllSound r.instructions
    → AllSound (inject_explainers r fs).instructions
unfolding inject_explainers
AllSound-inject_explainers r [] a = a
AllSound-inject_explainers r ((k, f) ∷ fs) a =
    AllSound-inject_explainers (record r { instructions = inject r.instructions k f }) fs
      (AllSound-inject r.instructions k f a)

pub AllSound-register_with_metadata :
    (r : InstructionRegistry) (k : String) (d : InstructionDef)
    → AllSound r.instructions
    → Sound d.exec
    → AllSound (register_with_metadata r k d).instructions
unfolding register_with_metadata
AllSound-register_with_metadata r k d a s = elim (Bool-cases r.frozen) [
  | inl p ↦ rw p a
  | inr p ↦ rw p (AllSound-put r.instructions k d a s)
]

pub AllSound-register_all :
    (F : Floats) (C : Crates) (fns : List (String × Executor)) (r : InstructionRegistry)
    → AllSound r.instructions
    → FnsSound fns
    → AllSound (register_all F C r fns).instructions
unfolding register_all register register_with_layer
AllSound-register_all F C [] r a s = a
AllSound-register_all F C ((k, e) ∷ fns) r a (s, t) =
    AllSound-register_all F C fns (register r k e)
      (AllSound-register_with_metadata r k
        (record { exec = e; eval_branch = none; explainer = none; layer = d0 }) a s)
      t

pub FnsSound-find :
    (fns : List (String × Executor)) (k : String) (e : Executor)
    → FnsSound fns
    → find fns k ≡ some e
    → Sound e
FnsSound-find [] k e s h = cc
FnsSound-find ((j, f) ∷ fns) k e (s, t) h = elim (Bool-cases (j == k)) [
  | inl p ↦ let same : f ≡ e = ground arith in subst Sound same s
  | inr p ↦ FnsSound-find fns k e t (rw p at h)
]

pub FnsSound-append :
    (fns more : List (String × Executor)) → FnsSound fns → FnsSound more → FnsSound (fns ++ more)
FnsSound-append [] more s t = t
FnsSound-append ((k, e) ∷ fns) more (s, u) t = (s, FnsSound-append fns more u t)
