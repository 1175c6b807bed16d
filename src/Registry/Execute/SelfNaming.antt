-- ===== src/Registry/Execute/SelfNaming.antt =====
-- A case that names its own instruction type, crates/tcb/src/instruction/registry.rs: `execute_inner`
-- calls itself on the expansion, where neither the depth nor the budget is asked.
use evorule_tcb.Prelude.{
  ℕ, zero, suc, ◌+◌, ◌<◌, String, ◌≡◌, refl, ap, ◌∙◌, ◌≢◌, inl, inr, true, false, ◌||◌, Option,
  none, some, arith, ◌==◌, eq_iff, Bool-cases, and_then, option_map,
}
use evorule_tcb.Value.Data.{
  Value, null, bool, integer, float, string, list, object, bytes, end, entry,
}
use evorule_tcb.Value.ImMap
use evorule_tcb.Error.{ok}
use evorule_tcb.ExecCtlCtx.{ExecCtlCtx}
use evorule_tcb.Instruction.{GenericInstruction}
use evorule_tcb.State.{State}
use evorule_tcb.Engine.{Registry}
use evorule_tcb.Platform.{Crates}
use evorule_tcb.Value.Accessors
use evorule_tcb.Value.Accessors.{empty_object, as_object, is_null}
use evorule_tcb.ExecCtlCtx.Laws.{enter_iff}
use evorule_tcb.Instruction
use evorule_tcb.State
use evorule_tcb.State.Exec.{exec_field}
use evorule_tcb.Audit.{AuditChainState}
use evorule_tcb.Audit.TraceStep.{audit_on}
use evorule_tcb.Registry.{InstructionRegistry, get}
use evorule_tcb.Registry.Execute.{
  execute, execute_inner, handle, entered, exited, expanded, expansion, expand_case, case_of,
  run_entry, entries_or_empty, update_exec_instruction, attach_original_metadata,
  record_dispatch_expand, record_expansion,
}

-- `{"type": t}`
abbrev pub naming : String → Value
naming t = object (entry "type" (string t) end)

abbrev dispatch_cases_of : Option Value → String → Option Value
unfolding Accessors.get as_object
dispatch_cases_of o t =
    and_then (and_then (and_then o (λ v. Accessors.get v "dispatch_cases")) as_object)
      (λ cases. ImMap.get cases t)

dispatch_cases_of-insert :
    (o : Option Value) (v w : Value) (t : String)
    → dispatch_cases_of o t ≡ some w
    → dispatch_cases_of (some (object (ImMap.insert (entries_or_empty o) "instruction" v))) t
      ≡ some w
unfolding Accessors.get dispatch_cases_of
dispatch_cases_of-insert none v w t h = cc
dispatch_cases_of-insert (some (object m)) v w t h =
    rw (ImMap.get-insert_ne m "instruction" "dispatch_cases" v (λ e. cc)) h
dispatch_cases_of-insert (some null) v w t h = cc
dispatch_cases_of-insert (some (bool b)) v w t h = cc
dispatch_cases_of-insert (some (integer n)) v w t h = cc
dispatch_cases_of-insert (some (float x)) v w t h = cc
dispatch_cases_of-insert (some (string x)) v w t h = cc
dispatch_cases_of-insert (some (list x)) v w t h = cc
dispatch_cases_of-insert (some (bytes x)) v w t h = cc

case_of-update_exec_instruction :
    (C : Crates) (s : State) (v w : Value) (t : String)
    → case_of C s t ≡ some w
    → case_of C (update_exec_instruction s v) t ≡ some w
unfolding case_of exec_field update_exec_instruction State.get State.set dispatch_cases_of
case_of-update_exec_instruction C s v w t h =
    rw
      (ImMap.get-insert_self s.data_map "__exec__" (
        object (ImMap.insert (entries_or_empty (ImMap.get s.data_map "__exec__")) "instruction" v)))
      (dispatch_cases_of-insert (ImMap.get s.data_map "__exec__") v w t h)

case_of-record_expansion :
    (C : Crates) (s : State) (a b t : String) (chain : Option AuditChainState) (w : Value)
    → case_of C s t ≡ some w
    → case_of C (record_expansion C s a b chain) t ≡ some w
unfolding case_of exec_field State.get State.set record_expansion
case_of-record_expansion C s a b t none w h = h
case_of-record_expansion C s a b t (some chain) w h = elim (Bool-cases (audit_on s)) [
  | inl p ↦ rw (p, ImMap.get-insert_ne s.data_map "__audit_chain" "__exec__" _ (λ e. cc)) h
  | inr p ↦ rw p h
]

abbrev pub IsQuiet : GenericInstruction → Type 0
unfolding is_null Accessors.is_empty
IsQuiet i = (is_null i.metadata || Accessors.is_empty i.metadata) ≡ true

attach-quiet :
    (s : State) (i : GenericInstruction) → IsQuiet i → attach_original_metadata s i.metadata ≡ s
unfolding attach_original_metadata IsQuiet
attach-quiet s i h = rw h refl

abbrev naming_instruction : String → GenericInstruction
naming_instruction t = record { instruction_type = t; params = end; metadata = empty_object }

is_dispatch : (t : String) → t ≢ "dispatch" → (t == "dispatch") ≡ false
is_dispatch t ne = ground (arith, eq_iff t "dispatch")

abbrev after_expansion : Crates → State → GenericInstruction → String → State
after_expansion C s i t =
    record_dispatch_expand C (update_exec_instruction s (Instruction.to_value i)) i.instruction_type
      t

expand_case-naming :
    (C : Crates) (s : State) (i : GenericInstruction) (t : String)
    → IsQuiet i
    → t ≢ "dispatch"
    → expand_case C s i (naming t) ≡ ok (after_expansion C s i t, naming_instruction t)
unfolding expand_case Instruction.from_value
expand_case-naming C s i t q ne =
    rw (attach-quiet (update_exec_instruction s (Instruction.to_value i)) i q, is_dispatch t ne)
      refl

case_of-after_expansion :
    (C : Crates) (s : State) (i : GenericInstruction) (t : String) (w : Value)
    → case_of C s t ≡ some w
    → case_of C (after_expansion C s i t) t ≡ some w
unfolding record_dispatch_expand
case_of-after_expansion C s i t w h =
    let u = update_exec_instruction s (Instruction.to_value i) in
    case_of-record_expansion C u i.instruction_type t t _ w
      (case_of-update_exec_instruction C s (Instruction.to_value i) w t h)

expansion-naming :
    (C : Crates) (s : State) (i : GenericInstruction) (t : String)
    → i.instruction_type ≡ t
    → IsQuiet i
    → t ≢ "dispatch"
    → case_of C s t ≡ some (naming t)
    → expansion C s i ≡ some (ok (after_expansion C s i t, naming_instruction t))
unfolding expansion
expansion-naming C s i t e q ne h =
    ap (option_map (expand_case C s i)) (ap (case_of C s) e ∙ h)
    ∙ ap some (expand_case-naming C s i t q ne)

module _ (C : Crates) (texts : Registry) (reg : InstructionRegistry) (t : String)
    (absent : get reg t ≡ none) (ne : t ≢ "dispatch") where
  execute_inner-naming :
      (f : ℕ) (s : State) (i : GenericInstruction) (c : ExecCtlCtx)
      → i.instruction_type ≡ t
      → IsQuiet i
      → case_of C s t ≡ some (naming t)
      → execute_inner C texts reg f s i c ≡ none
  unfolding execute_inner IsQuiet
  execute_inner-naming zero s i c e q h = refl
  execute_inner-naming (suc f) s i c e q h =
      let inner = execute_inner C texts reg f in
      let fallback = expanded inner i c (expansion C s i) in
      ap (λ entry. run_entry entry (handle C texts reg (execute C texts reg f)) s i c fallback)
        (ap (get reg) e ∙ absent)
      ∙ ap (expanded inner i c) (expansion-naming C s i t e q ne h)
      ∙ execute_inner-naming f (after_expansion C s i t) (naming_instruction t) c refl refl
          (case_of-after_expansion C s i t (naming t) h)

  -- When the cases of the state map a type that is not registered, and is not "dispatch", to
  -- `{"type": t}` itself, an instruction of that type without metadata is expanded for ever: below the
  -- limits of the control context, `execute` returns on no fuel.
  pub execute-naming :
      (f : ℕ) (s : State) (i : GenericInstruction) (c : ExecCtlCtx)
      → i.instruction_type ≡ t
      → (is_null i.metadata || Accessors.is_empty i.metadata) ≡ true
      → case_of C s t ≡ some (naming t)
      → c.depth < c.max_depth
      → c.instruction_count < c.max_instructions
      → execute C texts reg f s i c ≡ none
  unfolding execute IsQuiet entered exited
  execute-naming zero s i c e q h d n = refl
  execute-naming (suc f) s i c e q h d n =
      ap (λ r. entered r c (execute_inner C texts reg f s i)) ((enter_iff c).1 (d, n))
      ∙ ap exited (
          execute_inner-naming f s i
            (record c { depth = c.depth + 1; instruction_count = c.instruction_count + 1 }) e q h)
