-- ===== src/Control/Dispatch.antt =====
-- The dispatch primitive, crates/tcb/src/control/dispatch.rs: the instruction of a table of cases is
-- looked up by a key, executed, recorded, and followed by `advance_instruction`.
pub mod Contract
pub mod Monotone
pub mod Records
use evorule_tcb.Prelude.{
  String, Bool, true, Option, none, some, [], ◌∷◌, ◌++◌, if◌then◌else◌, and_then, unwrap_or,
}
use evorule_tcb.Value.Data.{Value, string, list, object, end, entry, of_list}
use evorule_tcb.Value.ImMap
use evorule_tcb.Error.{ok}
use evorule_tcb.ExecCtlCtx.{ExecCtlCtx}
use evorule_tcb.Instruction.{GenericInstruction}
use evorule_tcb.State.{State}
use evorule_tcb.Engine.{Outcome, ◌>>=◌, attempt, Handle, Executor}
use Prim.Native.String
use evorule_tcb.Platform.{Crates}
use evorule_tcb.Value.Accessors
use evorule_tcb.Value.Accessors.{empty_object, as_bool}
use evorule_tcb.Value.DispatchKey.{to_dispatch_key}
use evorule_tcb.Instruction
use evorule_tcb.State
use evorule_tcb.State.{business_state_snapshot}
use evorule_tcb.State.Exec.{exec_field, update_exec_field}
use evorule_tcb.Audit.{content_hash}
use evorule_tcb.Primitive.Queue.{get_queue}
use evorule_tcb.Control.Refs.{resolve_path, resolve_refs}

unfoldable pub is_running : State → Bool
unfolding exec_field as_bool
is_running s = unwrap_or (and_then (exec_field s "__running") as_bool) true

unfoldable pub record_dispatch_hashes : State → (before_hash after_hash case_key : String) → State
unfolding update_exec_field
record_dispatch_hashes s before_hash after_hash case_key =
    update_exec_field s "last_dispatch_hashes" (
      object (
        entry "before_hash" (string before_hash)
          (entry "after_hash" (string after_hash) (entry "case_key" (string case_key) end))))

abbrev pub advance_instruction : Value
advance_instruction =
    object (entry "type" (string "advance_instruction") (entry "params" empty_object end))

-- The end of both branches of the dispatch.
unfoldable pub push_advance : State → State
unfolding is_running get_queue update_exec_field
push_advance s =
    if is_running s
    then update_exec_field s "queue" (list (of_list (get_queue s ++ advance_instruction ∷ [])))
    else s

-- The table and the default: those of the instruction if it has `cases`, else those of the context.
unfoldable pub cases_and_default : State → GenericInstruction → Value × Option Value
unfolding ImMap.contains_key ImMap.get exec_field
cases_and_default s i =
    if ImMap.contains_key i.params "cases"
    then (unwrap_or (ImMap.get i.params "cases") empty_object, ImMap.get i.params "default")
    else (unwrap_or (exec_field s "dispatch_cases") empty_object, exec_field s "dispatch_default")

module _ (C : Crates) where
  unfoldable pub compute_dispatch_state_hash : State → String
  unfolding content_hash business_state_snapshot
  compute_dispatch_state_hash s = content_hash C (business_state_snapshot s ∷ [])

  -- The execution of the case or of the default that was found.
  unfoldable pub run_case : Handle → State → Value → (label : String) → ExecCtlCtx → Outcome
  unfolding resolve_refs Instruction.from_value record_dispatch_hashes compute_dispatch_state_hash
      push_advance
  run_case h s v label c = attempt (Instruction.from_value (resolve_refs s v)) c λ i.
      h.execute s i c >>= λ p.
      let result =
        record_dispatch_hashes p.0 (compute_dispatch_state_hash s) (compute_dispatch_state_hash p.0)
          label in
      some (ok (push_advance result), p.1)

  abbrev pub case_or_default :
      Handle → State → String → Option Value → Option Value → ExecCtlCtx → Outcome
  unfolding run_case
  case_or_default h s key_str (some case_val) default c = run_case h s case_val key_str c
  case_or_default h s key_str none (some v) c = run_case h s v (String.◌++◌ "default:" key_str) c
  case_or_default h s key_str none none c = some (ok s, c)

  abbrev pub dispatch_in : Handle → State → String → Value × Option Value → ExecCtlCtx → Outcome
  unfolding case_or_default ImMap.get
  dispatch_in h s key_str (object case_map, default) c =
      case_or_default h s key_str (ImMap.get case_map key_str) default c
  dispatch_in h s key_str _ c = some (ok s, c)

  abbrev pub dispatch_by_key :
      Handle → State → GenericInstruction → Option Value → ExecCtlCtx → Outcome
  unfolding dispatch_in to_dispatch_key resolve_path cases_and_default
  dispatch_by_key h s i (some key_val) c =
      dispatch_in h s (to_dispatch_key C (resolve_path s key_val)) (cases_and_default s i) c
  dispatch_by_key h s i none c = some (ok s, c)

  unfoldable pub exec_dispatch : Executor
  unfolding dispatch_by_key ImMap.get
  exec_dispatch h s i c = dispatch_by_key h s i (ImMap.get i.params "key") c
