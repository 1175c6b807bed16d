-- ===== src/Audit.antt =====
-- The audit chain, crates/tcb/src/audit.rs: records with a keyed digest, each holding the digest of
-- the one before it.
pub mod Chain
pub mod Message
pub mod Codec
pub mod TraceStep
use evorule_tcb.Prelude.{
  ℕ, ◌+◌, ◌%◌, ◌^◌, String, ◌≡◌, Bool, true, false, Option, none, some, List, [], ◌∷◌, ◌++◌, ◌==◌,
  eq_refl, if◌then◌else◌, ℤ, pos, bits64, of_bits64,
}
use evorule_tcb.Value.Data.{Value, integer, string}
use evorule_tcb.Value.ImMap
use Prim.Native.String
use evorule_tcb.Platform.{Crates}
use evorule_tcb.Value.Accessors
use evorule_tcb.Deterministic.Encode.{le_bytes, as_bytes, text_bytes, concat_map, value_to_bytes}

abbrev pub default_hmac_key : List ℕ
default_hmac_key = as_bytes "evorule-audit-chain-v2"

pub data ExecutionResult : Type 0 where
  success failure skipped : ExecutionResult

pub record AuditRecord : Type 0 where
  pub id : String
  pub rule_id : String
  pub timestamp : ℤ
  pub state_before_hash : String
  pub state_after_hash : String
  pub change_summary : Option String
  pub execution_result : ExecutionResult
  pub error_message : Option String
  pub hash : String
  pub previous_hash : String
  pub nonce : String
  pub version : ℕ

-- What `AuditRecord::new` is given, and `version`: all fields but the digest.
pub record Fields : Type 0 where
  pub id : String
  pub rule_id : String
  pub timestamp : ℤ
  pub state_before_hash : String
  pub state_after_hash : String
  pub change_summary : Option String
  pub execution_result : ExecutionResult
  pub error_message : Option String
  pub previous_hash : String
  pub nonce : String
  pub version : ℕ

abbrev pub fields : AuditRecord → Fields
fields r = record {
  id = r.id;
  rule_id = r.rule_id;
  timestamp = r.timestamp;
  state_before_hash = r.state_before_hash;
  state_after_hash = r.state_after_hash;
  change_summary = r.change_summary;
  execution_result = r.execution_result;
  error_message = r.error_message;
  previous_hash = r.previous_hash;
  nonce = r.nonce;
  version = r.version;
}

abbrev pub result_code : ExecutionResult → ℕ
result_code success = 0
result_code failure = 1
result_code skipped = 2

-- A text behind its length, and behind a mark that it is there.
abbrev pub optional_bytes : Option String → List ℕ
optional_bytes (some s) = 1 ∷ text_bytes s
optional_bytes none = 0 ∷ []

-- What `compute_hash` feeds to the digest, in its order.
unfoldable pub hash_message : Fields → List ℕ
hash_message r =
    text_bytes r.id
    ++ (text_bytes r.nonce
        ++ (text_bytes r.rule_id
            ++ (le_bytes 8 (bits64 r.timestamp)
                ++ (text_bytes r.state_before_hash
                    ++ (text_bytes r.state_after_hash
                        ++ (text_bytes r.previous_hash
                            ++ ((result_code r.execution_result ∷ [])
                                ++ (optional_bytes r.change_summary
                                    ++ (optional_bytes r.error_message
                                        ++ le_bytes 4 r.version)))))))))

abbrev pub current_version : ℕ
current_version = 3

module _ (C : Crates) where
  open C use {sha256, hmac_sha256, hex_encode}

  unfoldable pub content_hash : List Value → String
  content_hash values = hex_encode (sha256 (concat_map value_to_bytes values))

  unfoldable pub compute_hash : Fields → List ℕ → String
  compute_hash r key = hex_encode (hmac_sha256 key (hash_message r))

  -- `tick as i64`
  unfoldable pub derive_id : String → ℕ → String
  derive_id previous_hash tick = content_hash (string previous_hash ∷ integer (of_bits64 tick) ∷ [])

  unfoldable pub derive_nonce : String → ℕ → List ℕ → String
  derive_nonce previous_hash tick key =
      hex_encode (hmac_sha256 key (as_bytes previous_hash ++ le_bytes 8 tick))

  -- `AuditRecord::new`; the version is always the current one.
  unfoldable pub new_record : Fields → List ℕ → AuditRecord
  new_record r key = record {
    id = r.id;
    rule_id = r.rule_id;
    timestamp = r.timestamp;
    state_before_hash = r.state_before_hash;
    state_after_hash = r.state_after_hash;
    change_summary = r.change_summary;
    execution_result = r.execution_result;
    error_message = r.error_message;
    hash = compute_hash (record r { version = current_version }) key;
    previous_hash = r.previous_hash;
    nonce = r.nonce;
    version = current_version;
  }

  unfoldable pub verify : AuditRecord → List ℕ → Bool
  verify r key = r.hash == compute_hash (fields r) key

  -- A record that `AuditRecord::new` makes verifies under the key that it was made with.
  pub verify-new_record : (r : Fields) (key : List ℕ) → verify (new_record r key) key ≡ true
  unfolding verify new_record
  verify-new_record r key = eq_refl (compute_hash (record r { version = current_version }) key)

pub record AuditChainState : Type 0 where
  pub records : List AuditRecord
  pub root_hash : String
  pub latest_hash : String
  pub created_at : ℤ
  pub updated_at : ℤ
  pub logical_tick : ℕ
  pub version : ℕ

abbrev pub zero_hash : String
zero_hash = "0000000000000000000000000000000000000000000000000000000000000000"

unfoldable pub empty_chain : AuditChainState
empty_chain = record {
  records = [];
  root_hash = zero_hash;
  latest_hash = zero_hash;
  created_at = pos 0;
  updated_at = pos 0;
  logical_tick = 0;
  version = 3;
}

unfoldable pub next_tick : AuditChainState → ℕ × AuditChainState
next_tick c = (c.logical_tick, record c { logical_tick = (c.logical_tick + 1) % 2 ^ 64 })

abbrev pub is_nil {ℓ} : {A : Type ℓ} → List A → Bool
is_nil [] = true
is_nil (x ∷ xs) = false

-- The end of `exec_trace_step` and of `record_dispatch_expand`: the new record becomes the last one,
-- and the first one of an empty chain.
unfoldable pub push_record : AuditChainState → AuditRecord → ℕ → AuditChainState
push_record c r tick =
    let first = is_nil c.records in
    record c {
      records = c.records ++ r ∷ [];
      root_hash = if first then r.hash else c.root_hash;
      latest_hash = r.hash;
      created_at = if first then of_bits64 tick else c.created_at;
      updated_at = of_bits64 tick;
    }
