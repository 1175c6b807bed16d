-- ===== src/Error/Display.antt =====
-- The text of an error, `Display` of crates/tcb/src/error.rs. `show` prints a `usize`.
use evorule_tcb.Prelude.{ℕ, String, length}
use evorule_tcb.Error.{
  EvoRuleError, type_error, key_not_found, index_out_of_bounds, empty_rule_id, invalid_domain_type,
  unknown_instruction, depth_limit_exceeded, rule_not_found, missing_param, invalid_param,
  invalid_config, instruction_limit_exceeded, path_depth_exceeded, execution_failed,
  domain_mismatch, json_parse_error, serialization_error, hash_error, audit_error,
  immutability_violation, registry_frozen, generic,
}
use Prim.Native.String

infixr 5 ◌⊕◌
abbrev ◌⊕◌ : String → String → String
s ⊕ t = String.◌++◌ s t

unfoldable pub display : (ℕ → String) → EvoRuleError → String
display show (type_error expected found) = "Type error: expected " ⊕ expected ⊕ ", found " ⊕ found
display show (key_not_found key) = "Key not found: " ⊕ key
display show (index_out_of_bounds index length) =
    "Index out of bounds: index " ⊕ show index ⊕ ", length " ⊕ show length
display show empty_rule_id = "Rule ID is empty"
display show (invalid_domain_type domain_type) = "Invalid domain type: " ⊕ domain_type
display show (unknown_instruction instruction_type) =
    "Unknown instruction type: " ⊕ instruction_type
display show (depth_limit_exceeded current_depth max_depth) =
    "Execution depth limit exceeded: current "
    ⊕ show current_depth
    ⊕ ", max "
    ⊕ show max_depth
    ⊕ " (possible infinite loop)"
display show (rule_not_found rule_id) = "Rule not found: " ⊕ rule_id
display show (missing_param context param) =
    "Missing required parameter [" ⊕ context ⊕ "]: " ⊕ param
display show (invalid_param context param detail) =
    "Invalid parameter [" ⊕ context ⊕ "]: " ⊕ param ⊕ " — " ⊕ detail
display show (execution_failed instruction_type detail) =
    "Execution failed [" ⊕ instruction_type ⊕ "]: " ⊕ detail
display show (domain_mismatch domain_type detail) =
    "Domain mismatch [" ⊕ domain_type ⊕ "]: " ⊕ detail
display show (json_parse_error detail) = "JSON parse error: " ⊕ detail
display show (serialization_error detail) = "Serialization error: " ⊕ detail
display show (hash_error detail) = "Hash error: " ⊕ detail
display show (audit_error detail) = "Audit error: " ⊕ detail
display show (immutability_violation field) =
    "Immutability violation: attempted to modify field '" ⊕ field ⊕ "'"
display show (invalid_config detail) = "Invalid configuration: " ⊕ detail
display show (instruction_limit_exceeded count max) =
    "Instruction limit exceeded: " ⊕ show count ⊕ " executed (max " ⊕ show max ⊕ ")"
display show (registry_frozen name) = "Registry frozen: cannot register instruction '" ⊕ name ⊕ "'"
display show (path_depth_exceeded depth max) =
    "Path depth limit exceeded: depth " ⊕ show depth ⊕ ", max " ⊕ show max
display show (generic msg) = "Error: " ⊕ msg
