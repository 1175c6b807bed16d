-- ===== src/Primitive/RuleOps/Inject.antt =====
-- The change of the rule set, crates/tcb/src/primitive/rule_ops.rs: `inject_rule`.
pub mod Laws
pub mod Place
use evorule_tcb.Prelude.{
  ℕ, ◌-◌, String, Bool, true, false, Option, none, some, List, [], ◌∷◌, ◌++◌, if◌then◌else◌,
  and_then, length, pos, of_bits64,
}
use evorule_tcb.Value.Data.{Value, integer, list, object, end, entry, to_list, of_list}
use evorule_tcb.Value.ImMap
use evorule_tcb.Instruction.{GenericInstruction}
use evorule_tcb.State.{State}
use evorule_tcb.Engine.{Registry}
use evorule_tcb.Value.Accessors
use evorule_tcb.Value.Accessors.{as_str}
use evorule_tcb.State.{get_path}
use evorule_tcb.State.Run.{Run, ◌>>!◌}
use evorule_tcb.State.SetPath.{set_path}
use evorule_tcb.Control.Refs.{resolve_path, text_param}
use evorule_tcb.Primitive.RuleOps.{has_rule_id}

abbrev pub rules_of : Option Value → List Value
rules_of (some (list v)) = to_list v
rules_of _ = []

unfoldable pub without_rule : String → List Value → List Value
unfolding has_rule_id
without_rule rule_id [] = []
without_rule rule_id (r ∷ rules) =
    let rest = without_rule rule_id rules in if has_rule_id rule_id r then rest else r ∷ rest

abbrev pub removed : Option String → List Value → List Value
unfolding without_rule
removed none rules = rules
removed (some rule_id) rules = without_rule rule_id rules

abbrev pub prepend : Value → Option (List Value) → Option (List Value)
prepend r none = none
prepend r (some rules) = some (r ∷ rules)

-- The rules with the first one of that id replaced, if there is one.
unfoldable pub replace_rule : String → Value → List Value → Option (List Value)
unfolding has_rule_id
replace_rule rule_id rule [] = none
replace_rule rule_id rule (r ∷ rules) =
    let rest = prepend r (replace_rule rule_id rule rules) in
    if has_rule_id rule_id r then some (rule ∷ rules) else rest

-- The new rules, and how many were replaced and added.
pub record Change : Type 0 where
  pub rules : List Value
  pub replaced : Bool
  pub added : Bool

abbrev pub replaced_or_pushed : Value → List Value → Option (List Value) → Change
replaced_or_pushed rule rules (some new_rules) = record {
  rules = new_rules;
  replaced = true;
  added = false;
}
replaced_or_pushed rule rules none = record {
  rules = rules ++ rule ∷ [];
  replaced = false;
  added = true;
}

unfoldable pub add_rule : Option Value → List Value → Change
unfolding Accessors.get as_str replace_rule
add_rule none rules = record { rules = rules; replaced = false; added = false }
add_rule (some rule) rules = replaced_or_pushed rule rules (
    and_then (and_then (Accessors.get rule "rule_id") as_str)
      (λ rule_id. replace_rule rule_id rule rules))

abbrev pub count : ℕ → Value
count n = integer (of_bits64 n)

abbrev pub count_if : Bool → Value
count_if b = integer (pos (if b then 1 else 0))

abbrev pub result_info : (len_before len_after : ℕ) → Change → Value
result_info len_before len_after g = object (
    entry "removed_count" (count (len_before - len_after)) (
      entry "replaced_count" (count_if g.replaced) (
        entry "added_count" (count_if g.added) (entry "total_rules" (count (length g.rules)) end))))

unfoldable pub exec_inject_rule : Registry → State → GenericInstruction → Run
unfolding text_param resolve_path ImMap.get as_str get_path set_path removed add_rule
exec_inject_rule R s i =
    let rules_key = text_param s i "rules_key" "__universe_rules__" in
    let remove_rule_id =
      and_then (ImMap.get i.params "remove_rule_id") (λ v. as_str (resolve_path s v)) in
    let rules_list = rules_of (get_path s rules_key) in
    let kept = removed remove_rule_id rules_list in
    let change = add_rule (ImMap.get i.params "add_rule") kept in
    set_path s rules_key (list (of_list change.rules)) >>! λ t.
    set_path t (text_param s i "result_attr" "__inject_result__")
      (result_info (length rules_list) (length kept) change)
