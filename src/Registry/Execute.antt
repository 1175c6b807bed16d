-- ===== src/Registry/Execute.antt =====
-- Execution, crates/tcb/src/instruction/registry.rs: the lookup of the executor, and the expansion of
-- a composite instruction by the cases of the state.
pub mod Contract
pub mod NoCases
pub mod Monotone
pub mod SelfNaming
use evorule_tcb.Prelude.{
  ℕ, zero, suc, String, not, ◌||◌, Option, none, some, [], ◌∷◌, ◌==◌, if◌then◌else◌, and_then,
  option_map, of_bits64,
}
use evorule_tcb.Value.Data.{Value, object, Entries, end}
use evorule_tcb.Value.ImMap
use evorule_tcb.Error
use evorule_tcb.Error.{EvoRuleError, invalid_config, unknown_instruction, Result, ok, err}
use evorule_tcb.ExecCtlCtx
use evorule_tcb.ExecCtlCtx.{ExecCtlCtx}
use evorule_tcb.Instruction
use evorule_tcb.Instruction.{GenericInstruction}
use evorule_tcb.State
use evorule_tcb.State.{State, business_state_snapshot}
use evorule_tcb.Engine.{Outcome, attempt, Registry, Handle}
use Prim.Native.String
use evorule_tcb.Platform.{Crates}
use evorule_tcb.Value.Accessors
use evorule_tcb.Value.Accessors.{as_object, is_null}
use evorule_tcb.State.Exec.{exec_field, update_exec_field}
use evorule_tcb.Control.Refs.{resolve_refs}
use evorule_tcb.Audit
use evorule_tcb.Audit.{
  AuditChainState, Fields, success, content_hash, derive_id, derive_nonce, new_record,
  default_hmac_key, current_version, push_record,
}
use evorule_tcb.Audit.Codec.{chain_from_value, chain_to_value}
use evorule_tcb.Audit.TraceStep.{audit_on}
use evorule_tcb.Registry.{InstructionRegistry, InstructionDef, get, has, get_context_operation}

infixr 5 ◌⊕◌
abbrev ◌⊕◌ : String → String → String
s ⊕ t = String.◌++◌ s t

abbrev pub entries_or_empty : Option Value → Entries
entries_or_empty (some (object m)) = m
entries_or_empty _ = end

unfoldable pub update_exec_instruction : State → Value → State
unfolding State.get State.set ImMap.insert
update_exec_instruction s v =
    let exec_map = entries_or_empty (State.get s "__exec__") in
    State.set s "__exec__" (object (ImMap.insert exec_map "instruction" v))

unfoldable pub attach_original_metadata : State → Value → State
unfolding is_null Accessors.is_empty update_exec_field
attach_original_metadata s metadata =
    if is_null metadata || Accessors.is_empty metadata
    then s
    else update_exec_field s "__original_metadata" metadata

module _ (C : Crates) where
  unfoldable pub expand_fields :
      State → (original_type expanded_type previous_hash : String) → ℕ → Fields
  unfolding content_hash derive_id derive_nonce business_state_snapshot
  expand_fields s original_type expanded_type previous_hash tick =
      let state_hash = content_hash C (business_state_snapshot s ∷ []) in
      record {
        id = derive_id C previous_hash tick;
        rule_id = "dispatch_expand:" ⊕ original_type;
        timestamp = of_bits64 tick;
        state_before_hash = state_hash;
        state_after_hash = state_hash;
        change_summary = some ("dispatch_expand: " ⊕ original_type ⊕ " → " ⊕ expanded_type);
        execution_result = success;
        error_message = none;
        previous_hash = previous_hash;
        nonce = derive_nonce C previous_hash tick default_hmac_key;
        version = current_version;
      }

  abbrev pub record_expansion :
      State → (original_type expanded_type : String) → Option AuditChainState → State
  unfolding audit_on expand_fields new_record push_record chain_to_value Audit.next_tick State.set
  record_expansion s original_type expanded_type none = s
  record_expansion s original_type expanded_type (some chain) =
      let ticked = Audit.next_tick chain in
      let fields = expand_fields s original_type expanded_type chain.latest_hash ticked.0 in
      let r = new_record C fields default_hmac_key in
      if audit_on s
      then State.set s "__audit_chain" (chain_to_value (push_record ticked.1 r ticked.0))
      else s

  unfoldable pub record_dispatch_expand : State → (original_type expanded_type : String) → State
  unfolding State.get chain_from_value
  record_dispatch_expand s original_type expanded_type =
      record_expansion s original_type expanded_type
        (and_then (State.get s "__audit_chain") chain_from_value)

  abbrev pub nested_dispatch : String → EvoRuleError
  nested_dispatch original_type = invalid_config (
      "[dispatch] nested dispatch not allowed: case '" ⊕ original_type
      ⊕ "' contains dispatch instruction")

  -- A case with its references resolved, and the state in which it is executed.
  unfoldable pub expand_case :
      State → GenericInstruction → Value → Result (State × GenericInstruction)
  unfolding update_exec_instruction attach_original_metadata resolve_refs record_dispatch_expand
      Instruction.from_value Instruction.to_value
  expand_case s i case_val =
      let with_meta =
        attach_original_metadata (update_exec_instruction s (Instruction.to_value i)) i.metadata in
      Error.◌>>=◌ (Instruction.from_value (resolve_refs with_meta case_val)) (λ case_instr.
        if case_instr.instruction_type == "dispatch"
        then err (nested_dispatch i.instruction_type)
        else ok (
          record_dispatch_expand with_meta i.instruction_type case_instr.instruction_type,
          case_instr,
        ))

  -- `dispatch_cases` of the context, if it is an object with a case of this name.
  unfoldable pub case_of : State → String → Option Value
  unfolding exec_field as_object ImMap.get
  case_of s instruction_type =
      and_then (and_then (exec_field s "dispatch_cases") as_object)
        (λ cases. ImMap.get cases instruction_type)

  unfoldable pub expansion :
      State → GenericInstruction → Option (Result (State × GenericInstruction))
  unfolding case_of expand_case
  expansion s i = option_map (λ v. expand_case s i v) (case_of s i.instruction_type)

unfoldable pub exited : Outcome → Outcome
unfolding ExecCtlCtx.exit
exited none = none
exited (some (r, c)) = some (r, ExecCtlCtx.exit c)

unfoldable pub entered : Result ExecCtlCtx → ExecCtlCtx → (ExecCtlCtx → Outcome) → Outcome
unfolding exited
entered (err e) c inner = some (err e, c)
entered (ok d) c inner = exited (inner d)

abbrev pub expanded :
    (State → GenericInstruction → ExecCtlCtx → Outcome)
    → GenericInstruction
    → ExecCtlCtx
    → Option (Result (State × GenericInstruction))
    → Outcome
expanded inner i c none = some (err (unknown_instruction i.instruction_type), c)
expanded inner i c (some (err e)) = some (err e, c)
expanded inner i c (some (ok (s, case_instr))) = inner s case_instr c

-- The executor of the entry, or what is done without one.
abbrev pub run_entry :
    Option InstructionDef → Handle → State → GenericInstruction → ExecCtlCtx → Outcome → Outcome
run_entry (some def) h s i c fallback = def.exec h s i c
run_entry none h s i c fallback = fallback

module _ (C : Crates) (texts : Registry) (reg : InstructionRegistry) where
  -- What an executor sees: the way to execute, and the queries on the registry.
  unfoldable pub handle : (State → GenericInstruction → ExecCtlCtx → Outcome) → Handle
  unfolding has get_context_operation
  handle execute = record {
    execute = execute;
    registry = record texts { has = has reg };
    context_op = get_context_operation reg;
  }

  unfoldable mutual
    unfolding get expansion ExecCtlCtx.enter entered handle

    pub execute : ℕ → State → GenericInstruction → ExecCtlCtx → Outcome
    execute zero s i c = none
    execute (suc f) s i c = entered (ExecCtlCtx.enter c) c (execute_inner f s i)

    pub execute_inner : ℕ → State → GenericInstruction → ExecCtlCtx → Outcome
    execute_inner zero s i c = none
    execute_inner (suc f) s i c =
        run_entry (get reg i.instruction_type) (handle (execute f)) s i c
          (expanded (execute_inner f) i c (expansion C s i))

  unfoldable pub execute_value : ℕ → State → Value → ExecCtlCtx → Outcome
  unfolding execute Instruction.from_value
  execute_value f s v c = attempt (Instruction.from_value v) c (λ i. execute f s i c)
