-- ===== src/Control/Dispatch/Monotone.antt =====
-- The dispatch of crates/tcb/src/control/dispatch.rs is monotone in the fuel of its handle.
use evorule_tcb.Prelude.{String, Option, none, some}
use evorule_tcb.Value.Data.{Value, null, bool, integer, float, string, list, object, bytes}
use evorule_tcb.Value.ImMap
use evorule_tcb.ExecCtlCtx.{ExecCtlCtx}
use evorule_tcb.Instruction.{GenericInstruction}
use evorule_tcb.State.{State}
use evorule_tcb.Engine.{Outcome, Registry}
use evorule_tcb.Engine.Fuel.{◌⊑◌, equal, ⊑->>=, ⊑-attempt, Below, with_execute, IsMonotone}
use evorule_tcb.Platform.{Crates}
use evorule_tcb.Value.DispatchKey.{to_dispatch_key}
use evorule_tcb.Instruction
use evorule_tcb.Control.Refs.{resolve_path, resolve_refs}
use evorule_tcb.Control.Dispatch.{
  exec_dispatch, run_case, case_or_default, dispatch_in, dispatch_by_key, cases_and_default,
}

module _ (C : Crates) (R : Registry) (ops : String → Option (Value → Value → Value))
    (m n : State → GenericInstruction → ExecCtlCtx → Outcome) (below : Below m n) where
  ⊑-run_case :
      (s : State) (v : Value) (label : String) (c : ExecCtlCtx)
      → run_case C (with_execute R ops m) s v label c
        ⊑ run_case C (with_execute R ops n) s v label c
  unfolding run_case
  ⊑-run_case s v label c =
      ⊑-attempt (Instruction.from_value (resolve_refs s v)) c _ _
        λ i. ⊑->>= _ _ (below s i c) λ t d. equal

  ⊑-case_or_default :
      (s : State) (key : String) (case default : Option Value) (c : ExecCtlCtx)
      → case_or_default C (with_execute R ops m) s key case default c
        ⊑ case_or_default C (with_execute R ops n) s key case default c
  unfolding case_or_default
  ⊑-case_or_default s key (some v) default c = ⊑-run_case s v key c
  ⊑-case_or_default s key none (some v) c = ⊑-run_case s v _ c
  ⊑-case_or_default s key none none c = equal

  ⊑-dispatch_in :
      (s : State) (key : String) (cases : Value) (default : Option Value) (c : ExecCtlCtx)
      → dispatch_in C (with_execute R ops m) s key (cases, default) c
        ⊑ dispatch_in C (with_execute R ops n) s key (cases, default) c
  unfolding dispatch_in
  ⊑-dispatch_in s key (object v) default c = ⊑-case_or_default s key (ImMap.get v key) default c
  ⊑-dispatch_in s key null default c = equal
  ⊑-dispatch_in s key (bool b) default c = equal
  ⊑-dispatch_in s key (integer z) default c = equal
  ⊑-dispatch_in s key (float x) default c = equal
  ⊑-dispatch_in s key (string t) default c = equal
  ⊑-dispatch_in s key (list vs) default c = equal
  ⊑-dispatch_in s key (bytes bs) default c = equal

  ⊑-dispatch_by_key :
      (s : State) (i : GenericInstruction) (key : Option Value) (c : ExecCtlCtx)
      → dispatch_by_key C (with_execute R ops m) s i key c
        ⊑ dispatch_by_key C (with_execute R ops n) s i key c
  unfolding dispatch_by_key
  ⊑-dispatch_by_key s i (some v) c =
      let (cases, default) = cases_and_default s i in
      ⊑-dispatch_in s (to_dispatch_key C (resolve_path s v)) cases default c
  ⊑-dispatch_by_key s i none c = equal

pub IsMonotone-exec_dispatch : (C : Crates) → IsMonotone (exec_dispatch C)
unfolding exec_dispatch
IsMonotone-exec_dispatch C = record {
  below = λ R ops m n k s i c. ⊑-dispatch_by_key C R ops m n k s i (ImMap.get i.params "key") c;
}
