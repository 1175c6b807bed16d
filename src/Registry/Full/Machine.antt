-- ===== src/Registry/Full/Machine.antt =====
-- Executions on the registries of crates/tcb/src/instruction/registry.rs that hold every executor.
use evorule_tcb.Prelude.{
  ℕ, ◌≤◌, String, ◌≡◌, refl, Bool, true, false, Option, none, some, List, [], ◌∷◌, ◌++◌,
  if◌then◌else◌,
}
use evorule_tcb.Value.Data.{Value, null, bool, integer, float, string, list, object, bytes}
use evorule_tcb.Error.{Result, ok, err}
use evorule_tcb.ExecCtlCtx.{ExecCtlCtx}
use evorule_tcb.Instruction.{GenericInstruction}
use evorule_tcb.State.{State}
use evorule_tcb.Engine.{Registry, Executor}
use evorule_tcb.Engine.Contract.{Ends}
use text.Mathlib.Text.{starts_with}
use evorule_tcb.Platform.{Floats, Crates}
use evorule_tcb.Deterministic.Encode.{iter_sorted}
use evorule_tcb.Registry.{InstructionRegistry, Explainer, find, get}
use evorule_tcb.Registry.Execute.{execute}
use evorule_tcb.Registry.Execute.Contract.{AllRespect, execute-Ends, Advances, execute-Advances}
use evorule_tcb.Registry.Execute.Monotone.{AllMonotone, execute_stable}
use evorule_tcb.Registry.Full.{
  primitive_fns, control_fns, create_full_registry, with_default_context_ops, register_found,
  register_primitives, register_categories, register_from_config, self_check, or_else,
  create_full_registry_from_config, Registration,
}
use evorule_tcb.Registry.Full.Contract.{
  AllSound, FnsSound, AllSound-find, AllSound-register_with_metadata, FnsSound-append,
  FnsSound-find,
}
use evorule_tcb.Registry.Full.Table.{
  FnsSound-primitive_fns, FnsSound-control_fns, AllSound-create_full_registry,
}

abbrev RegSound : InstructionRegistry → Type 0
RegSound r = AllSound r.instructions

RegSound-if :
    (b : Bool) (x y : Registration) → RegSound x.0 → RegSound y.0 → RegSound (if b then x else y).0
RegSound-if true x y a b = a
RegSound-if false x y a b = b

module _ (fns : List (String × Executor)) (explainers : List (String × Explainer))
    (sound : FnsSound fns) where
  AllSound-register_found :
      (k : String) (v : Value) (exec : Option Executor) (acc : Registration)
      → find fns k ≡ exec
      → RegSound acc.0
      → RegSound (register_found fns explainers k v exec acc).0
  unfolding register_found
  AllSound-register_found k v none acc h a = a
  AllSound-register_found k v (some e) acc h a =
      AllSound-register_with_metadata acc.0 k _ a (FnsSound-find fns k e sound h)

  AllSound-register_primitives :
      (m : List (String × Value)) (acc : Registration)
      → RegSound acc.0
      → RegSound (register_primitives fns explainers m acc).0
  unfolding register_primitives
  AllSound-register_primitives [] acc a = a
  AllSound-register_primitives ((k, v) ∷ m) acc a =
      let found = register_found fns explainers k v (find fns k) acc in
      AllSound-register_primitives m (if starts_with k "_" then acc else found) (
        RegSound-if (starts_with k "_") acc found a
          (AllSound-register_found k v (find fns k) acc refl a))

  AllSound-register_categories :
      (m : List (String × Value)) (acc : Registration)
      → RegSound acc.0
      → RegSound (register_categories fns explainers m acc).0
  unfolding register_categories
  AllSound-register_categories [] acc a = a
  AllSound-register_categories ((k, object m) ∷ ms) acc a =
      AllSound-register_categories ms (register_primitives fns explainers (iter_sorted m) acc)
        (AllSound-register_primitives (iter_sorted m) acc a)
  AllSound-register_categories ((k, null) ∷ ms) acc a = AllSound-register_categories ms acc a
  AllSound-register_categories ((k, bool b) ∷ ms) acc a = AllSound-register_categories ms acc a
  AllSound-register_categories ((k, integer n) ∷ ms) acc a = AllSound-register_categories ms acc a
  AllSound-register_categories ((k, float x) ∷ ms) acc a = AllSound-register_categories ms acc a
  AllSound-register_categories ((k, string t) ∷ ms) acc a = AllSound-register_categories ms acc a
  AllSound-register_categories ((k, list vs) ∷ ms) acc a = AllSound-register_categories ms acc a
  AllSound-register_categories ((k, bytes bs) ∷ ms) acc a = AllSound-register_categories ms acc a

  AllSound-self_check :
      (debug : List String → String) (acc : Registration)
      → RegSound acc.0
      → RegSound (self_check fns explainers debug acc).1
  AllSound-self_check debug (r, []) a = a
  AllSound-self_check debug (r, k ∷ ks) a = a

  AllSound-register_from_config :
      (debug : List String → String) (r : InstructionRegistry) (config : Value)
      → RegSound r
      → RegSound (register_from_config fns explainers debug r config).1
  unfolding register_from_config
  AllSound-register_from_config debug r (object m) a =
      AllSound-self_check debug (register_categories fns explainers (iter_sorted m) (r, []))
        (AllSound-register_categories (iter_sorted m) (r, []) a)
  AllSound-register_from_config debug r null a = a
  AllSound-register_from_config debug r (bool b) a = a
  AllSound-register_from_config debug r (integer n) a = a
  AllSound-register_from_config debug r (float x) a = a
  AllSound-register_from_config debug r (string t) a = a
  AllSound-register_from_config debug r (list vs) a = a
  AllSound-register_from_config debug r (bytes bs) a = a

AllSound-or_else :
    (p : Result (Unit {0}) × InstructionRegistry) (r : InstructionRegistry)
    → RegSound p.1
    → RegSound r
    → RegSound (or_else p r)
AllSound-or_else (ok u, q) r a b = a
AllSound-or_else (err e, q) r a b = b

module _ (F : Floats) (C : Crates) (explainers : List (String × Explainer))
    (debug : List String → String) where
  AllSound-full :
      (config : Option Value)
      → RegSound (create_full_registry_from_config F C explainers debug config)
  unfolding create_full_registry_from_config with_default_context_ops
  AllSound-full none = AllSound-create_full_registry F C explainers
  AllSound-full (some config) =
      AllSound-or_else
        (register_from_config (primitive_fns F C ++ control_fns F C) explainers debug
          (with_default_context_ops F C) config)
        (create_full_registry F C explainers)
        (AllSound-register_from_config (primitive_fns F C ++ control_fns F C) explainers
          (FnsSound-append (primitive_fns F C) (control_fns F C) (FnsSound-primitive_fns F C)
            (FnsSound-control_fns F C))
          debug (with_default_context_ops F C) config tt)
        (AllSound-create_full_registry F C explainers)

  AllRespect-full :
      (config : Option Value)
      → AllRespect (create_full_registry_from_config F C explainers debug config)
  unfolding get
  AllRespect-full config t def h =
      (AllSound-find (create_full_registry_from_config F C explainers debug config).instructions t
        def (AllSound-full config) h).respects

  AllMonotone-full :
      (config : Option Value)
      → AllMonotone (create_full_registry_from_config F C explainers debug config)
  unfolding get
  AllMonotone-full config t def h =
      (AllSound-find (create_full_registry_from_config F C explainers debug config).instructions t
        def (AllSound-full config) h).monotone

module _ (F : Floats) (C : Crates) where
  -- On the registry that any configuration gives, and on the one without a configuration: whatever
  -- `execute` returns, an error included, the depth and the limits of the control context are what they
  -- were, the instruction counter has not gone back, and a context within its limits stays within them;
  -- and when a state is returned, the counter has grown.
  pub full_registry-Ends :
      (explainers : List (String × Explainer)) (debug : List String → String)
      (config : Option Value) (texts : Registry) (f : ℕ) (s : State) (i : GenericInstruction)
      (c : ExecCtlCtx)
      → let reg = create_full_registry_from_config F C explainers debug config in
        Ends c (execute C texts reg f s i c) × Advances c (execute C texts reg f s i c)
  full_registry-Ends explainers debug config texts f s i c =
      let reg = create_full_registry_from_config F C explainers debug config in
      let keep = AllRespect-full F C explainers debug config in
      (execute-Ends C texts reg keep f s i c, execute-Advances C texts reg keep f s i c)

  -- On the registry that any configuration gives, and on the one without a configuration, what `execute`
  -- returns on some fuel it returns on any greater fuel.
  pub full_registry_stable :
      (explainers : List (String × Explainer)) (debug : List String → String)
      (config : Option Value) (texts : Registry) (f g : ℕ) (s : State) (i : GenericInstruction)
      (c : ExecCtlCtx) (r : Result State × ExecCtlCtx)
      → f ≤ g
      → execute C texts (create_full_registry_from_config F C explainers debug config) f s i c
        ≡ some r
      → execute C texts (create_full_registry_from_config F C explainers debug config) g s i c
        ≡ some r
  full_registry_stable explainers debug config texts =
      execute_stable C texts (create_full_registry_from_config F C explainers debug config)
        (AllMonotone-full F C explainers debug config)
