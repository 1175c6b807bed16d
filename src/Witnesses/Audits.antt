-- ===== src/Witnesses/Audits.antt =====
-- The theorems on audit records and chains on concrete inputs, crates/tcb/src/audit.rs.
use evorule_tcb.Prelude.{
  ◌%◌, ◌^◌, ◌+◌, ◌≡◌, refl, sym, ap, subst, ◌≢◌, true, none, some, List, [], ◌∷◌, ◌++◌, arith,
  length, pos,
}
use evorule_tcb.Value.Data.{null, end}
use evorule_tcb.Value.ImMap
use evorule_tcb.Error.{ok}
use evorule_tcb.Platform.{Crates}
use evorule_tcb.State.{State, get}
use evorule_tcb.State
use evorule_tcb.State.Exec.{exec_field}
use evorule_tcb.Instruction.{GenericInstruction}
use evorule_tcb.ExecCtlCtx.{ExecCtlCtx}
use evorule_tcb.Audit.{
  success, failure, AuditRecord, AuditChainState, Fields, hash_message, compute_hash, verify,
  default_hmac_key, push_record, empty_chain, zero_hash,
}
use evorule_tcb.Audit.Chain.{IsChain, IsChain-empty_chain, push_record-IsChain}
use evorule_tcb.Audit.Message.{Fits, hash_message-injective, verify_altered}
use evorule_tcb.Audit.Codec.{chain_from_value, chain_to_value}
use evorule_tcb.Audit.Codec.RoundTrip.{chain_from_value-chain_to_value}
use evorule_tcb.Audit.TraceStep.{audit_on, stored_chain}
use evorule_tcb.Audit.TraceStep.Laws.{HoldsChain, ChainFits}
use evorule_tcb.Audit.TraceStep.Sequence.{trace_all, trace_all_lem}
use evorule_tcb.Witnesses.{server}

-- Digests that collide for every message.
abbrev pub toy_crates : Crates
toy_crates = record {
  sha256 = λ m. m;
  hmac_sha256 = λ key m. m;
  hex_encode = λ b. "00";
  json_to_string = λ v. "";
  display_integer = λ i. "";
  display_float = λ x. "";
  hex_byte = λ b. "00";
}

abbrev step_1 : Fields
step_1 = record {
  id = "a";
  rule_id = "r";
  timestamp = pos 1;
  state_before_hash = "x";
  state_after_hash = "y";
  change_summary = some "step";
  execution_result = success;
  error_message = none;
  previous_hash = zero_hash;
  nonce = "n";
  version = 3;
}

-- The same step, with another outcome.
abbrev step_2 : Fields
step_2 = record step_1 { execution_result = failure }

abbrev record_1 : AuditRecord
record_1 = record {
  id = "a";
  rule_id = "r";
  timestamp = pos 1;
  state_before_hash = "x";
  state_after_hash = "y";
  change_summary = some "step";
  execution_result = success;
  error_message = none;
  hash = "00";
  previous_hash = zero_hash;
  nonce = "n";
  version = 3;
}

abbrev record_2 : AuditRecord
record_2 = record record_1 { execution_result = failure }

step_1-Fits : Fits step_1
step_1-Fits = record {
  id = omega arith;
  rule_id = omega arith;
  timestamp = omega arith;
  state_before_hash = omega arith;
  state_after_hash = omega arith;
  change_summary = omega arith;
  error_message = tt;
  previous_hash = omega arith;
  nonce = omega arith;
  version = omega arith;
}

step_2-Fits : Fits step_2
step_2-Fits = record {
  id = omega arith;
  rule_id = omega arith;
  timestamp = omega arith;
  state_before_hash = omega arith;
  state_after_hash = omega arith;
  change_summary = omega arith;
  error_message = tt;
  previous_hash = omega arith;
  nonce = omega arith;
  version = omega arith;
}

hash_message-injective_example : step_1 ≡ step_1
hash_message-injective_example = hash_message-injective step_1 step_1 step_1-Fits step_1-Fits refl

record_1-verify : verify toy_crates record_1 [] ≡ true
unfolding verify compute_hash
record_1-verify = refl

record_2-verify : verify toy_crates record_2 [] ≡ true
unfolding verify compute_hash
record_2-verify = refl

steps_differ : step_1 ≢ step_2
steps_differ e = cc (ap (λ f. f.execution_result) e)

verify_altered_example :
    (hash_message step_1 ≢ hash_message step_2)
    × (toy_crates.hex_encode (toy_crates.hmac_sha256 [] (hash_message step_1))
        ≡ toy_crates.hex_encode (toy_crates.hmac_sha256 [] (hash_message step_2)))
verify_altered_example =
    verify_altered toy_crates [] record_1 record_2 step_1-Fits step_2-Fits refl steps_differ
      record_1-verify record_2-verify

record_1-starts : record_1.previous_hash ≡ empty_chain.latest_hash
unfolding empty_chain
record_1-starts = refl

push_record-IsChain_example : IsChain toy_crates [] (push_record empty_chain record_1 1)
push_record-IsChain_example =
    push_record-IsChain toy_crates [] empty_chain record_1 1 (IsChain-empty_chain toy_crates [])
      record_1-verify record_1-starts

abbrev chain_1 : AuditChainState
chain_1 = record {
  records = record_1 ∷ [];
  root_hash = "00";
  latest_hash = "00";
  created_at = pos 1;
  updated_at = pos 1;
  logical_tick = 0;
  version = 3;
}

chain_from_value-chain_to_value_example : chain_from_value (chain_to_value chain_1) ≡ some chain_1
chain_from_value-chain_to_value_example =
    chain_from_value-chain_to_value chain_1 (omega arith, tt) (omega arith) (omega arith)

server-audit_on : audit_on server ≡ true
unfolding audit_on exec_field
server-audit_on = refl

server-stored_chain : stored_chain server ≡ empty_chain
unfolding stored_chain State.get ImMap.get
server-stored_chain = refl

empty_chain-ChainFits : ChainFits empty_chain
unfolding empty_chain
empty_chain-ChainFits = record { records = tt; version = omega arith; logical_tick = omega arith }

server-HoldsChain : HoldsChain toy_crates server
server-HoldsChain = record {
  chain =
      subst (IsChain toy_crates default_hmac_key) (sym server-stored_chain)
        (IsChain-empty_chain toy_crates default_hmac_key);
  fits = subst ChainFits (sym server-stored_chain) empty_chain-ChainFits;
}

abbrev trace : GenericInstruction
trace = record { instruction_type = "trace_step"; params = end; metadata = null }

abbrev ctl : ExecCtlCtx
ctl = record { depth = 0; max_depth = 2; tick = 7; instruction_count = 0; max_instructions = 5 }

trace_all_lem_example :
    (s' : State) × (added : List AuditRecord) × (trace_all toy_crates
        (trace ∷ trace ∷ [])
        server
        ctl
      ≡ (ok s', record ctl { tick = (7 + 2) % 2 ^ 64 }))
    × ((stored_chain s').records ≡ (stored_chain server).records ++ added)
    × (length added ≡ 2)
    × HoldsChain toy_crates s'
trace_all_lem_example =
    trace_all_lem toy_crates (trace ∷ trace ∷ []) server ctl server-audit_on server-HoldsChain
      (omega arith)
