-- ===== src/Audit/TraceStep.antt =====
-- The audit primitive `trace_step`, crates/tcb/src/primitive/audit_ops.rs: it derives a record from
-- the position in the chain and the state, and appends it to the chain that the state holds.
pub mod Laws
pub mod Sequence
use evorule_tcb.Prelude.{
  ℕ, String, Bool, true, ◌||◌, Option, none, some, List, [], ◌∷◌, ◌==◌, if◌then◌else◌, and_then,
  unwrap_or, of_bits64,
}
use evorule_tcb.Value.Data.{Value, object, end}
use evorule_tcb.Value.ImMap
use evorule_tcb.Error.{Result, ok, ◌>>=◌}
use Prim.Native.String
use evorule_tcb.Platform.{Crates}
use evorule_tcb.Value.Accessors
use evorule_tcb.Value.Accessors.{as_bool, as_str}
use evorule_tcb.Deterministic.Encode.{iter_sorted}
use evorule_tcb.State.{State, get, set}
use evorule_tcb.State.Exec.{exec_field}
use evorule_tcb.Instruction.{GenericInstruction}
use evorule_tcb.ExecCtlCtx
use evorule_tcb.ExecCtlCtx.{ExecCtlCtx}
use evorule_tcb.Audit.{
  success, AuditChainState, Fields, content_hash, derive_id, derive_nonce, new_record,
  default_hmac_key, current_version, empty_chain, push_record,
}
use evorule_tcb.Audit.Codec.{chain_from_value, chain_to_value}

-- `audit_on` of the context; it is on when the field is missing.
unfoldable pub audit_on : State → Bool
unfolding exec_field as_bool
audit_on s = unwrap_or (and_then (exec_field s "audit_on") as_bool) true

abbrev text_param : GenericInstruction → String → Option String
text_param i key = and_then (ImMap.get i.params key) as_str

-- The type of the instruction that the context holds.
unfoldable pub current_type : State → Option String
unfolding exec_field as_str
current_type s = do i ← exec_field s "instruction"; t ← Accessors.get i "type"; as_str t
  where
    infixl 5 ◌>>=◌
    ◌>>=◌ : {A B : Type 0} → Option A → (A → Option B) → Option B
    m >>= f = and_then m f

infixr 5 ◌⊕◌
abbrev ◌⊕◌ : String → String → String
s ⊕ t = String.◌++◌ s t

unfoldable pub change_summary : (label : String) → (itype version : Option String) → String
change_summary label (some itype) (some version) =
    if itype == label then label else "[" ⊕ itype ⊕ "] " ⊕ label ⊕ " @" ⊕ version
change_summary label (some itype) none =
    if itype == label then label else "[" ⊕ itype ⊕ "] " ⊕ label
change_summary label none (some version) = label ⊕ " @" ⊕ version
change_summary label none none = label

abbrev is_hidden : String → Bool
is_hidden k = k == "__exec__" || k == "__audit_chain" || k == "__parallel_provenance__"

abbrev visible : List (String × Value) → List (String × Value)
visible [] = []
visible (e ∷ m) = let rest = visible m in if is_hidden e.0 then rest else e ∷ rest

abbrev text_or_empty : Value → String → String
text_or_empty hashes key = unwrap_or (and_then (Accessors.get hashes key) as_str) ""

-- The chain that a state holds; a chain that is missing or cannot be read is an empty one.
unfoldable pub stored_chain : State → AuditChainState
unfolding get chain_from_value empty_chain
stored_chain s = unwrap_or (and_then (get s "__audit_chain") chain_from_value) empty_chain

module _ (C : Crates) where
  -- The digests before and after the dispatch, or twice that of the state.
  unfoldable pub state_hashes : State → String × String
  unfolding exec_field iter_sorted ImMap.insert_all content_hash
  state_hashes s = hashes_of (exec_field s "last_dispatch_hashes")
    where
      hashes_of : Option Value → String × String
      hashes_of (some hashes) =
          (text_or_empty hashes "before_hash", text_or_empty hashes "after_hash")
      hashes_of none =
          let snapshot = ImMap.insert_all end (visible (iter_sorted s.data_map)) in
          let state_hash = content_hash C (object snapshot ∷ []) in (state_hash, state_hash)

  -- What the record of a step says, from the latest digest of the chain and the tick.
  unfoldable pub step_fields :
      State → GenericInstruction → (previous_hash : String) → (tick : ℕ) → Fields
  unfolding state_hashes change_summary current_type exec_field derive_id derive_nonce
  step_fields s i previous_hash tick =
      let label = unwrap_or (text_param i "label") "step" in
      let version = and_then (exec_field s "dispatch_table_version") as_str in
      let hashes = state_hashes s in
      record {
        id = derive_id C previous_hash tick;
        rule_id = unwrap_or (text_param i "rule_id") (unwrap_or (current_type s) "unknown");
        timestamp = of_bits64 tick;
        state_before_hash = hashes.0;
        state_after_hash = hashes.1;
        change_summary = some (change_summary label (current_type s) version);
        execution_result = success;
        error_message = none;
        previous_hash = previous_hash;
        nonce = derive_nonce C previous_hash tick default_hmac_key;
        version = current_version;
      }

  unfoldable pub exec_trace_step :
      State → GenericInstruction → ExecCtlCtx → Result State × ExecCtlCtx
  unfolding audit_on stored_chain step_fields new_record push_record set chain_to_value
      ExecCtlCtx.next_tick
  exec_trace_step s i ctx =
      if audit_on s
      then (let chain = stored_chain s in
          let ticked = ExecCtlCtx.next_tick ctx in
          let r = new_record C (step_fields s i chain.latest_hash ticked.0) default_hmac_key in
          (ok (set s "__audit_chain" (chain_to_value (push_record chain r ticked.0))), ticked.1))
      else (ok s, ctx)
