-- ===== src/Primitive/StateOps.antt =====
-- The state primitives, crates/tcb/src/primitive/state_ops.rs: an assignment, and an operation on the
-- context with the assignment of its result.
use evorule_tcb.Prelude.{
  String, Bool, Option, none, some, List, [], ◌∷◌, ◌==◌, if◌then◌else◌, unwrap_or, any,
}
use evorule_tcb.Value.Data.{Value, null, string, object}
use evorule_tcb.Value.ImMap
use evorule_tcb.Error.{
  EvoRuleError, type_error, missing_param, invalid_param, invalid_config, Result, ok, err,
}
use evorule_tcb.Instruction.{GenericInstruction}
use evorule_tcb.State.{State}
use evorule_tcb.Engine.{Registry, ContextOp}
use Prim.Native.String
use evorule_tcb.Value.Accessors.{empty_object, type_name}
use evorule_tcb.Instruction.{ok_or}
use evorule_tcb.State.{get_path}
use evorule_tcb.State.Run.{Run, ◌>>?◌}
use evorule_tcb.State.SetPath.{set_path}
use evorule_tcb.Control.Refs.{resolve_path}

-- The path of a resolved attribute.
unfoldable pub attr_text : Value → Result String
unfolding type_name
attr_text (string s) = ok s
attr_text v = err (type_error "String" (type_name v))

unfoldable pub exec_state_set : Registry → State → GenericInstruction → Run
unfolding ImMap.get resolve_path attr_text set_path
exec_state_set R s i =
    ok_or (ImMap.get i.params "attr") (missing_param "state_set" "attr") >>? λ attr.
    attr_text (resolve_path s attr) >>? λ path.
    set_path s path (resolve_path s (unwrap_or (ImMap.get i.params "value") null))

abbrev pub compute_operations : List String
compute_operations = "add" ∷ "sub" ∷ "mul" ∷ "div" ∷ "append" ∷ "remove" ∷ "length" ∷ []

abbrev pub valid_operations : List String
valid_operations = "set" ∷ "add" ∷ "sub" ∷ "mul" ∷ "div" ∷ "append" ∷ "remove" ∷ []

-- The operations that `set_context` looks up.
abbrev pub looked_up : List String
looked_up = "add" ∷ "sub" ∷ "mul" ∷ "div" ∷ "append" ∷ "remove" ∷ []

abbrev pub is_one_of : List String → String → Bool
is_one_of names t = any (λ n. n == t) names

-- A literal operation is one of the list; any other value is let through.
abbrev pub check_operation : List String → (String → EvoRuleError) → Value → Result (Unit {0})
check_operation valid refusal (string t) = if is_one_of valid t then ok tt else err (refusal t)
check_operation valid refusal v = ok tt

abbrev pub text_or : String → Value → String
text_or default (string t) = t
text_or default v = default

abbrev pub applied : Option ContextOp → (old resolved : Value) → Value
applied none old resolved = resolved
applied (some op) old resolved = op old resolved

abbrev pub invalid_operation : String → EvoRuleError
invalid_operation t = invalid_config (
    String.◌++◌ "state_compute has invalid operation '" (
      String.◌++◌ t
        "', expected one of [\"add\", \"sub\", \"mul\", \"div\", \"append\", \"remove\", \"length\"]"))

unfoldable pub exec_state_compute :
    (String → Option ContextOp) → Registry → State → GenericInstruction → Run
unfolding ImMap.get resolve_path attr_text set_path get_path
exec_state_compute ops R s i =
    let op = unwrap_or (ImMap.get i.params "operation") (string "add") in
    ok_or (ImMap.get i.params "attr") (missing_param "state_compute" "attr") >>? λ attr.
    check_operation compute_operations invalid_operation op >>? λ u.
    attr_text (resolve_path s attr) >>? λ path.
    let resolved_val = resolve_path s (unwrap_or (ImMap.get i.params "value") null) in
    let old_val = unwrap_or (get_path s path) null in
    set_path s path (applied (ops (text_or "add" op)) old_val resolved_val)

unfoldable pub set_in_context : (String → Option ContextOp) → Registry → State → Value → Run
unfolding ImMap.get resolve_path attr_text set_path get_path
set_in_context ops R s (object spec_map) =
    let op = unwrap_or (ImMap.get spec_map "operation") (string "set") in
    ok_or (ImMap.get spec_map "attr") (missing_param "set_context" "attr") >>? λ attr.
    check_operation valid_operations
      (λ t. invalid_config (R.describe "set_context" t (object spec_map))) op
    >>? λ u. attr_text (resolve_path s attr) >>? λ path.
        let resolved_val = resolve_path s (unwrap_or (ImMap.get spec_map "value") null) in
        let old_val = unwrap_or (get_path s path) null in
        let op_str = text_or "set" op in
        set_path s path (
          if is_one_of looked_up op_str
          then applied (ops op_str) old_val resolved_val
          else resolved_val)
set_in_context ops R s v = some (err (invalid_param "set_context" "transform" "expected Object"))

unfoldable pub exec_set_context :
    (String → Option ContextOp) → Registry → State → GenericInstruction → Run
unfolding ImMap.get set_in_context
exec_set_context ops R s i =
    set_in_context ops R s (unwrap_or (ImMap.get i.params "transform") empty_object)
