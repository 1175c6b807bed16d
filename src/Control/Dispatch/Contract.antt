-- ===== src/Control/Dispatch/Contract.antt =====
-- The dispatch of crates/tcb/src/control/dispatch.rs keeps to the contract of the executors.
use evorule_tcb.Prelude.{String, Option, none, some}
use evorule_tcb.Value.Data.{Value, null, bool, integer, float, string, list, object, bytes}
use evorule_tcb.Value.ImMap
use evorule_tcb.ExecCtlCtx.{ExecCtlCtx}
use evorule_tcb.Instruction.{GenericInstruction}
use evorule_tcb.State.{State}
use evorule_tcb.Engine.{Handle}
use evorule_tcb.Engine.Contract.{After-refl, Ends, Ends->>=, Ends-attempt, EndsAll, Respects}
use evorule_tcb.Platform.{Crates}
use evorule_tcb.Value.DispatchKey.{to_dispatch_key}
use evorule_tcb.Instruction
use evorule_tcb.Control.Refs.{resolve_path, resolve_refs}
use evorule_tcb.Control.Dispatch.{
  exec_dispatch, run_case, case_or_default, dispatch_in, dispatch_by_key, cases_and_default,
}

module _ (C : Crates) where
  Ends-run_case :
      (h : Handle)
      → EndsAll h
      → (s : State) (v : Value) (label : String) (c : ExecCtlCtx)
      → Ends c (run_case C h s v label c)
  unfolding run_case
  Ends-run_case h k s v label c =
      Ends-attempt c (Instruction.from_value (resolve_refs s v)) _
        λ i. Ends->>= c (h.execute s i c) _ (k s i c) λ t d. After-refl d

  Ends-case_or_default :
      (h : Handle)
      → EndsAll h
      → (s : State) (key : String) (case default : Option Value) (c : ExecCtlCtx)
      → Ends c (case_or_default C h s key case default c)
  unfolding case_or_default
  Ends-case_or_default h k s key (some v) default c = Ends-run_case h k s v key c
  Ends-case_or_default h k s key none (some v) c = Ends-run_case h k s v _ c
  Ends-case_or_default h k s key none none c = After-refl c

  Ends-dispatch_in :
      (h : Handle)
      → EndsAll h
      → (s : State) (key : String) (cases : Value) (default : Option Value) (c : ExecCtlCtx)
      → Ends c (dispatch_in C h s key (cases, default) c)
  unfolding dispatch_in
  Ends-dispatch_in h k s key (object m) default c =
      Ends-case_or_default h k s key (ImMap.get m key) default c
  Ends-dispatch_in h k s key null default c = After-refl c
  Ends-dispatch_in h k s key (bool b) default c = After-refl c
  Ends-dispatch_in h k s key (integer n) default c = After-refl c
  Ends-dispatch_in h k s key (float x) default c = After-refl c
  Ends-dispatch_in h k s key (string t) default c = After-refl c
  Ends-dispatch_in h k s key (list vs) default c = After-refl c
  Ends-dispatch_in h k s key (bytes bs) default c = After-refl c

  Ends-dispatch_by_key :
      (h : Handle)
      → EndsAll h
      → (s : State) (i : GenericInstruction) (key : Option Value) (c : ExecCtlCtx)
      → Ends c (dispatch_by_key C h s i key c)
  unfolding dispatch_by_key
  Ends-dispatch_by_key h k s i (some v) c =
      let (cases, default) = cases_and_default s i in
      Ends-dispatch_in h k s (to_dispatch_key C (resolve_path s v)) cases default c
  Ends-dispatch_by_key h k s i none c = After-refl c

  pub Respects-exec_dispatch : Respects (exec_dispatch C)
  unfolding exec_dispatch
  Respects-exec_dispatch = record {
    ends = λ h k s i c. Ends-dispatch_by_key h k s i (ImMap.get i.params "key") c;
  }
