-- ===== src/Error.antt =====
-- crates/tcb/src/error.rs: the errors, their constructors, and `Result<T, EvoRuleError>`.
pub mod Display
use evorule_tcb.Prelude.{ℕ, String, ◌≡◌, refl}

pub data EvoRuleError : Type 0 where
  type_error : (expected found : String) → EvoRuleError
  key_not_found : (key : String) → EvoRuleError
  index_out_of_bounds : (index length : ℕ) → EvoRuleError
  empty_rule_id : EvoRuleError
  invalid_domain_type : (domain_type : String) → EvoRuleError
  unknown_instruction : (instruction_type : String) → EvoRuleError
  depth_limit_exceeded : (current_depth max_depth : ℕ) → EvoRuleError
  rule_not_found : (rule_id : String) → EvoRuleError
  missing_param : (context param : String) → EvoRuleError
  invalid_param : (context param detail : String) → EvoRuleError
  execution_failed : (instruction_type detail : String) → EvoRuleError
  domain_mismatch : (domain_type detail : String) → EvoRuleError
  json_parse_error : (detail : String) → EvoRuleError
  serialization_error : (detail : String) → EvoRuleError
  hash_error : (detail : String) → EvoRuleError
  audit_error : (detail : String) → EvoRuleError
  immutability_violation : (field : String) → EvoRuleError
  invalid_config : (detail : String) → EvoRuleError
  instruction_limit_exceeded : (count max : ℕ) → EvoRuleError
  registry_frozen : (name : String) → EvoRuleError
  path_depth_exceeded : (depth max : ℕ) → EvoRuleError
  generic : String → EvoRuleError

pub data Result {ℓ} (T : Type ℓ) : Type ℓ where
  err : EvoRuleError → Result T
  ok : T → Result T

-- The `?` operator.
infixl 5 ◌>>=◌
abbrev pub ◌>>=◌ {κ ℓ} : {T : Type κ} {U : Type ℓ} → Result T → (T → Result U) → Result U
err failure >>= next = err failure
ok value >>= next = next value

-- Inversion of a chain that succeeded.
pub >>=-eq-ok {κ ℓ} :
    {T : Type κ} {U : Type ℓ} (m : Result T) (next : T → Result U) {u : U}
    → (m >>= next) ≡ ok u
    → (value : T) × (m ≡ ok value) × (next value ≡ ok u)
>>=-eq-ok (err failure) next h = cc
>>=-eq-ok (ok value) next h = (value, refl, h)
