-- ===== src/Audit/Codec/RoundTrip.antt =====
-- An audit chain survives being stored in a state and read back, crates/tcb/src/audit.rs.
use evorule_tcb.Prelude.{
  ℕ, ◌^◌, ◌<◌, ◌≡◌, refl, some, List, [], ◌∷◌, map, arith, pos, bits64, of_bits64,
}
use evorule_tcb.Value.Data.{to_list-of_list}
use evorule_tcb.Audit.{ExecutionResult, success, failure, skipped, AuditRecord, AuditChainState}
use evorule_tcb.Audit.Codec.{
  result_name, result_of_name, as_u32, record_to_value, record_from_value, chain_to_value,
  chain_from_value, records_from,
}

result_of_name-result_name : (r : ExecutionResult) → result_of_name (result_name r) ≡ some r
result_of_name-result_name success = refl
result_of_name-result_name failure = refl
result_of_name-result_name skipped = refl

as_u32-pos : (n : ℕ) → n < 2 ^ 32 → as_u32 (pos n) ≡ n
as_u32-pos n h = omega arith

-- A record whose version fits 32 bits is read back from the value that it is written as.
pub record_from_value-record_to_value :
    (r : AuditRecord) → r.version < 2 ^ 32 → record_from_value (record_to_value r) ≡ some r
unfolding record_from_value record_to_value
record_from_value-record_to_value r h =
    ground (arith, result_of_name-result_name r.execution_result)

abbrev pub VersionsFit : List AuditRecord → Type 0
VersionsFit [] = Unit
VersionsFit (r ∷ rs) = (r.version < 2 ^ 32) × VersionsFit rs

records_from-map :
    (rs : List AuditRecord) → VersionsFit rs → records_from (map record_to_value rs) ≡ some rs
unfolding records_from
records_from-map [] h = refl
records_from-map (r ∷ rs) h = rw (record_from_value-record_to_value r h.0, records_from-map rs h.1)

bits64-of_bits64 : (t : ℕ) → t < 2 ^ 64 → bits64 (of_bits64 t) ≡ t
bits64-of_bits64 t h = ground arith

-- A chain whose versions fit 32 bits and whose tick fits 64 bits is read back, as it was, from the
-- value that it is written as.
pub chain_from_value-chain_to_value :
    (c : AuditChainState)
    → VersionsFit c.records
    → c.version < 2 ^ 32
    → c.logical_tick < 2 ^ 64
    → chain_from_value (chain_to_value c) ≡ some c
unfolding chain_from_value chain_to_value
chain_from_value-chain_to_value c h v t =
    rw (to_list-of_list (map record_to_value c.records), records_from-map c.records h)
      (rw (bits64-of_bits64 c.logical_tick t, as_u32-pos c.version v))
