-- ===== src/Primitive/RuleOps.antt =====
-- The rule primitives, crates/tcb/src/primitive/rule_ops.rs: the rules of the state are observed,
-- filtered and changed, and the transform of one of them is executed.
pub mod Inject
use evorule_tcb.Prelude.{
  ℕ, zero, suc, String, Bool, true, false, not, ◌||◌, Option, none, some, List, [], ◌∷◌, ◌==◌,
  if◌then◌else◌, and_then, unwrap_or, option_map, any,
}
use evorule_tcb.Value.Data.{Value, string, list, object, Items, nil, cons, to_list}
use evorule_tcb.Value.ImMap
use evorule_tcb.Error.{missing_param, rule_not_found, ok}
use evorule_tcb.Instruction.{GenericInstruction}
use evorule_tcb.State.{State}
use evorule_tcb.Engine.{◌>>=◌, attempt, Registry, Executor}
use Prim.Native.String
use text.Mathlib.Text.{starts_with}
use evorule_tcb.Error
use evorule_tcb.Value.Accessors
use evorule_tcb.Value.Accessors.{empty_list, as_str, as_list}
use evorule_tcb.Instruction
use evorule_tcb.Instruction.{ok_or}
use evorule_tcb.Domain.Parse.{height}
use evorule_tcb.State
use evorule_tcb.State.{get_path}
use evorule_tcb.State.Run.{Run}
use evorule_tcb.State.SetPath.{set_path}
use evorule_tcb.Control.Refs.{resolve_path, text_param}
use evorule_tcb.Control.WhileLoop.{texts_of}
use evorule_tcb.Primitive.DomainOps.{any_item, left_if_none}

abbrev pub id_is : Option String → String → Bool
id_is none rule_id = false
id_is (some t) rule_id = t == rule_id

unfoldable pub has_rule_id : String → Value → Bool
unfolding Accessors.get as_str
has_rule_id rule_id r = id_is (and_then (Accessors.get r "rule_id") as_str) rule_id

unfoldable pub find_rule : String → Items → Option Value
unfolding has_rule_id
find_rule rule_id nil = none
find_rule rule_id (cons r rules) =
    let rest = find_rule rule_id rules in if has_rule_id rule_id r then some r else rest

-- The rule of the parameters, or the one that `rule_id` names among the rules of the state.
unfoldable pub chosen_rule : State → GenericInstruction → Option Value
unfolding resolve_path ImMap.get State.get as_str as_list find_rule
chosen_rule s i = left_if_none (option_map (resolve_path s) (ImMap.get i.params "rule")) (
    and_then (and_then (ImMap.get i.params "rule_id") (λ v. as_str (resolve_path s v))) (λ rule_id.
      and_then (and_then (State.get s "__universe_rules__") as_list) (find_rule rule_id)))

-- The fields of the result that are no system fields, stored in `result_attr`.
abbrev pub store_result : Option Value → State → State
unfolding State.set ImMap.filter_keys
store_result (some (string t)) result =
    State.set result t (object (ImMap.filter_keys (λ k. not (starts_with k "__")) result.data_map))
store_result _ result = result

unfoldable pub exec_apply_rule : Executor
unfolding chosen_rule resolve_path ImMap.get Accessors.get Instruction.from_value store_result
exec_apply_rule h s i c = attempt (ok_or (chosen_rule s i) (rule_not_found "unknown")) c λ rule_obj.
    attempt (ok_or (Accessors.get rule_obj "transform") (missing_param "apply_rule" "transform")) c
      λ transform. attempt (Instruction.from_value transform) c λ transform_instr.
        h.execute s transform_instr c >>= λ p. some (
          ok (store_result (option_map (resolve_path s) (ImMap.get i.params "result_attr")) p.0),
          p.1,
        )

unfoldable pub exec_observe_rules : Registry → State → GenericInstruction → Run
unfolding text_param State.get set_path
exec_observe_rules R s i =
    set_path s (text_param s i "result_attr" "rules_list")
      (unwrap_or (State.get s "__universe_rules__") empty_list)

abbrev pub is_goal : List String → String → Bool
is_goal goal_attrs attr = any (λ goal. attr == goal) goal_attrs

abbrev pub goal_in : List String → Option String → Bool
goal_in goal_attrs none = false
goal_in goal_attrs (some attr) = is_goal goal_attrs attr

abbrev pub any_in : (Value → Bool) → Option Items → Bool
any_in p none = false
any_in p (some vs) = any_item p vs

abbrev pub holds_for : (Value → Bool) → Option Value → Bool
holds_for p none = false
holds_for p (some v) = p v

-- On fuel, which the height of the value bounds.
unfoldable pub references_fuel : ℕ → Value → List String → Bool
unfolding ImMap.get as_str as_list
references_fuel zero d goal_attrs = false
references_fuel (suc f) (object m) goal_attrs =
    let dtype = unwrap_or (and_then (ImMap.get m "type") as_str) "" in
    if dtype == "atom"
    then goal_in goal_attrs (and_then (ImMap.get m "attribute") as_str)
    else if dtype == "and" || dtype == "or"
    then any_in (λ d. references_fuel f d goal_attrs) (and_then (ImMap.get m "domains") as_list)
    else if dtype == "not"
    then holds_for (λ d. references_fuel f d goal_attrs) (ImMap.get m "inner")
    else dtype == "universal"
references_fuel (suc f) d goal_attrs = false

unfoldable pub domain_value_references_attrs : Value → List String → Bool
unfolding references_fuel
domain_value_references_attrs d goal_attrs = references_fuel (height d) d goal_attrs

unfoldable pub domain_references_attrs : Value → List String → Bool
unfolding Accessors.get domain_value_references_attrs
domain_references_attrs rule goal_attrs =
    holds_for (λ d. domain_value_references_attrs d goal_attrs) (Accessors.get rule "domain")

abbrev pub keep_items : (Value → Bool) → Items → Items
keep_items p nil = nil
keep_items p (cons v vs) = let rest = keep_items p vs in if p v then cons v rest else rest

abbrev pub relevant : List String → Value → Bool
unfolding domain_references_attrs
relevant [] rule = true
relevant (goal ∷ goal_attrs) rule = domain_references_attrs rule (goal ∷ goal_attrs)

abbrev pub filtered : List String → Option Value → Value
unfolding relevant
filtered goal_attrs (some (list rules)) = list (keep_items (relevant goal_attrs) rules)
filtered goal_attrs _ = empty_list

unfoldable pub exec_filter_rules : Registry → State → GenericInstruction → Run
unfolding text_param resolve_path ImMap.get as_list get_path filtered set_path
exec_filter_rules R s i =
    let rules_ref = text_param s i "rules_ref" "__universe_rules__" in
    let goal_list = and_then (ImMap.get i.params "goal_attrs") (λ v. as_list (resolve_path s v)) in
    let goal_attrs = unwrap_or (option_map (λ vs. texts_of (to_list vs)) goal_list) [] in
    set_path s (text_param s i "result_attr" "filtered_rules")
      (filtered goal_attrs (get_path s rules_ref))
