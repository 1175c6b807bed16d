-- ===== src/Audit/Codec.antt =====
-- Audit records and chains as values, crates/tcb/src/audit.rs: `to_value`, `from_value`.
pub mod RoundTrip
use evorule_tcb.Prelude.{
  ℕ, ◌%◌, ◌^◌, String, Option, none, some, List, [], ◌∷◌, map, ◌==◌, if◌then◌else◌, and_then,
  unwrap_or, ℤ, pos, bits64, of_bits64,
}
use evorule_tcb.Value.Data.{
  Value, integer, string, list, object, Entries, end, entry, to_list, of_list,
}
use evorule_tcb.Value.ImMap
use evorule_tcb.Value.Accessors
use evorule_tcb.Value.Accessors.{as_str, as_integer, as_list}
use evorule_tcb.Audit.{ExecutionResult, success, failure, skipped, AuditRecord, AuditChainState}

-- The `?` operator on options.
infixl 5 ◌>>=◌
abbrev ◌>>=◌ {ℓ κ} : {A : Type ℓ} {B : Type κ} → Option A → (A → Option B) → Option B
m >>= f = and_then m f

abbrev optional_entry : String → Option String → Entries → Entries
optional_entry key none m = m
optional_entry key (some s) m = entry key (string s) m

abbrev pub result_name : ExecutionResult → String
result_name success = "success"
result_name failure = "failure"
result_name skipped = "skipped"

unfoldable pub record_to_value : AuditRecord → Value
record_to_value r = object (
    entry "id" (string r.id) (
      entry "rule_id" (string r.rule_id) (
        entry "timestamp" (integer r.timestamp) (
          entry "state_before_hash" (string r.state_before_hash) (
            entry "state_after_hash" (string r.state_after_hash) (
              optional_entry "change_summary" r.change_summary (
                entry "execution_result" (string (result_name r.execution_result)) (
                  optional_entry "error_message" r.error_message (
                    entry "hash" (string r.hash) (
                      entry "previous_hash" (string r.previous_hash) (
                        entry "nonce" (string r.nonce)
                          (entry "version" (integer (pos r.version)) end))))))))))))

abbrev pub text_field : Value → String → Option String
text_field v key = and_then (Accessors.get v key) as_str

abbrev pub integer_field : Value → String → Option ℤ
integer_field v key = and_then (Accessors.get v key) as_integer

abbrev pub result_of_name : String → Option ExecutionResult
result_of_name s =
    if s == "success"
    then some success
    else if s == "failure"
    then some failure
    else if s == "skipped"
    then some skipped
    else none

-- `as u32` of an integer
abbrev pub as_u32 : ℤ → ℕ
as_u32 i = bits64 i % 2 ^ 32

unfoldable pub record_from_value : Value → Option AuditRecord
unfolding Accessors.get ImMap.get as_str as_integer
record_from_value v = do
  id ← text_field v "id"
  rule_id ← text_field v "rule_id"
  timestamp ← integer_field v "timestamp"
  state_before_hash ← text_field v "state_before_hash"
  state_after_hash ← text_field v "state_after_hash"
  name ← text_field v "execution_result"
  execution_result ← result_of_name name
  hash ← text_field v "hash"
  previous_hash ← text_field v "previous_hash"
  nonce ← text_field v "nonce"
  version ← integer_field v "version"
  some (record {
    id = id;
    rule_id = rule_id;
    timestamp = timestamp;
    state_before_hash = state_before_hash;
    state_after_hash = state_after_hash;
    change_summary = text_field v "change_summary";
    execution_result = execution_result;
    error_message = text_field v "error_message";
    hash = hash;
    previous_hash = previous_hash;
    nonce = nonce;
    version = as_u32 version;
  })

unfoldable pub chain_to_value : AuditChainState → Value
unfolding record_to_value
chain_to_value c = object (
    entry "records" (list (of_list (map record_to_value c.records))) (
      entry "root_hash" (string c.root_hash) (
        entry "latest_hash" (string c.latest_hash) (
          entry "created_at" (integer c.created_at) (
            entry "updated_at" (integer c.updated_at) (
              entry "logical_tick" (integer (of_bits64 c.logical_tick))
                (entry "version" (integer (pos c.version)) end)))))))

unfoldable pub records_from : List Value → Option (List AuditRecord)
unfolding record_from_value
records_from [] = some []
records_from (v ∷ vs) =
    let rest = records_from vs in do r ← record_from_value v; rs ← rest; some (r ∷ rs)

unfoldable pub chain_from_value : Value → Option AuditChainState
unfolding Accessors.get ImMap.get as_str as_integer as_list
chain_from_value v = do
  items ← and_then (Accessors.get v "records") as_list
  records ← records_from (to_list items)
  root_hash ← text_field v "root_hash"
  latest_hash ← text_field v "latest_hash"
  created_at ← integer_field v "created_at"
  updated_at ← integer_field v "updated_at"
  version ← integer_field v "version"
  some (record {
    records = records;
    root_hash = root_hash;
    latest_hash = latest_hash;
    created_at = created_at;
    updated_at = updated_at;
    logical_tick = bits64 (unwrap_or (integer_field v "logical_tick") (pos 0));
    version = as_u32 version;
  })
