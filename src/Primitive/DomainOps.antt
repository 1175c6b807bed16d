-- ===== src/Primitive/DomainOps.antt =====
-- The domain primitives, crates/tcb/src/primitive/domain_ops.rs: a branch on a domain, a test of a
-- domain, and the overlap of two domains.
pub mod Overlap
use evorule_tcb.Prelude.{
  ℕ, zero, suc, ◌+◌, String, Bool, true, false, ◌&&◌, ◌||◌, Option, none, some, ◌∷◌, ◌==◌,
  if◌then◌else◌, and_then, unwrap_or, option_map, is_some,
}
use evorule_tcb.Value.Data.{
  Value, null, bool, string, list, object, Items, nil, cons, Entries, end, entry, of_list,
}
use evorule_tcb.Value.ImMap
use evorule_tcb.Error.{missing_param, Result, ok, ◌>>=◌}
use evorule_tcb.Instruction.{GenericInstruction}
use evorule_tcb.State.{State}
use evorule_tcb.Engine.{Registry}
use Prim.Native.String
use evorule_tcb.Platform.{Floats}
use evorule_tcb.Value.Accessors
use evorule_tcb.Value.Accessors.{as_str, as_list, as_object}
use evorule_tcb.Instruction.{ok_or}
use evorule_tcb.Domain.{contains}
use evorule_tcb.Domain.Parse
use evorule_tcb.Domain.Parse.{height}
use evorule_tcb.State
use evorule_tcb.State.Exec.{exec_field}
use evorule_tcb.State.Run.{Run, ◌>>?◌}
use evorule_tcb.State.SetPath.{set_path}
use evorule_tcb.Control.Refs.{resolve_path}
use evorule_tcb.Primitive.Queue.{get_queue, validate_instruction_type}

abbrev pub check_branch :
    Floats → Registry → State → (label : String) → Option Value → Result (Unit {0})
unfolding validate_instruction_type
check_branch F R s label none = ok tt
check_branch F R s label (some v) =
    validate_instruction_type F R s v (String.◌++◌ "evaluate_domain " label)

abbrev pub chosen_branch : Bool → Option Value → String
chosen_branch result none = "none"
chosen_branch true (some v) = "then"
chosen_branch false (some v) = "else"

abbrev pub entries_of : Option Value → Entries
entries_of (some (object m)) = m
entries_of _ = end

-- The queue with the chosen branch at its front.
abbrev pub push_front : State → Option Value → Entries → Entries
unfolding get_queue ImMap.insert
push_front s none m = m
push_front s (some v) m = ImMap.insert m "queue" (list (of_list (v ∷ get_queue s)))

unfoldable pub branch_on : State → Bool → Option Value → State
unfolding State.get State.set ImMap.insert push_front
branch_on s result chosen =
    let exec_map = ImMap.insert (entries_of (State.get s "__exec__")) "__trace_branch" (
      object (
        entry "domain_result" (bool result)
          (entry "chosen_branch" (string (chosen_branch result chosen)) end))) in
    State.set (State.set s "__exec__" (object (push_front s chosen exec_map))) "__domain_result__"
      (bool result)

abbrev pub left_if_none : Option Value → Option Value → Option Value
left_if_none none left = left
left_if_none (some v) left = some v

module _ (F : Floats) where
  unfoldable pub exec_evaluate_domain : Registry → State → GenericInstruction → Result State
  unfolding ImMap.get exec_field as_object Parse.from_value contains check_branch branch_on
  exec_evaluate_domain R s i =
      ok_or (ImMap.get i.params "domain") (missing_param "evaluate_domain" "domain")
      >>= λ domain_val. Parse.from_value R.debug domain_val >>= λ domain.
          let result = contains F domain s in
          let on_true = ImMap.get i.params "on_true" in
          let on_false = ImMap.get i.params "on_false" in
          let branches =
            check_branch F R s "on_true" on_true >>= λ u. check_branch F R s "on_false" on_false in
          let has_cases = is_some (and_then (exec_field s "dispatch_cases") as_object) in
          (if has_cases then branches else ok tt) >>= λ u.
          ok (branch_on s result (if result then on_true else on_false))

  -- The first of two parameters that is there.
  abbrev pub either_param : GenericInstruction → (first second : String) → Option Value
  unfolding ImMap.get
  either_param i first second = left_if_none (ImMap.get i.params first) (ImMap.get i.params second)

  abbrev pub unless_null : Option Value → Value → Value
  unless_null none d = d
  unless_null (some null) d = d
  unless_null (some v) d = v

  unfoldable pub exec_match_domain : Registry → State → GenericInstruction → Run
  unfolding ImMap.get resolve_path Parse.from_value contains State.from_value State.to_value as_str
      set_path
  exec_match_domain R s i =
      ok_or (ImMap.get i.params "domain") (missing_param "match_domain" "domain") >>? λ domain_raw.
      Parse.from_value R.debug (resolve_path s domain_raw) >>? λ domain.
      let target =
        unless_null (option_map (resolve_path s) (either_param i "state_ref" "state_data"))
          (State.to_value s) in
      let store_as =
        unwrap_or
          (and_then (option_map (resolve_path s) (either_param i "result_attr" "store_as")) as_str)
          "__matched__" in
      set_path s store_as (bool (contains F domain (State.from_value target)))

abbrev pub text_at : Value → String → String
unfolding Accessors.get as_str
text_at v key = unwrap_or (and_then (Accessors.get v key) as_str) ""

abbrev pub any_item : (Value → Bool) → Items → Bool
any_item p nil = false
any_item p (cons v vs) = p v || any_item p vs

-- The children of an `and` or an `or`: a list of them, or a left and a right one.
abbrev pub children : Value → Option Items
unfolding Accessors.get as_list
children d = and_then (left_if_none (Accessors.get d "domains") (Accessors.get d "left")) as_list

abbrev pub binary : String → (Value → Bool) → Option Value → Option Value → Bool
binary type p (some left) (some right) =
    if type == "and" then p left && p right else p left || p right
binary type p _ _ = true

abbrev pub compound : Value → String → (Value → Bool) → Option Items → Bool
unfolding Accessors.get
compound d type p (some vs) = any_item p vs
compound d type p none = binary type p (Accessors.get d "left") (Accessors.get d "right")

abbrev pub is_compound : String → Bool
is_compound t = t == "and" || t == "or"

-- On fuel, which the heights of the two values bound.
unfoldable pub overlap_fuel : ℕ → (d1 d2 : Value) → Bool
overlap_fuel zero d1 d2 = true
overlap_fuel (suc f) d1 d2 =
    let type1 = text_at d1 "type" in
    let type2 = text_at d2 "type" in
    if type1 == "universal" || type2 == "universal"
    then true
    else if type1 == "empty" || type2 == "empty"
    then false
    else if type1 == "atom" && type2 == "atom"
    then text_at d1 "attribute" == text_at d2 "attribute"
    else if is_compound type1
    then compound d1 type1 (λ c. overlap_fuel f c d2) (children d1)
    else if is_compound type2
    then compound d2 type2 (λ c. overlap_fuel f d1 c) (children d2)
    else true

unfoldable pub domain_values_overlap : (d1 d2 : Value) → Bool
unfolding overlap_fuel
domain_values_overlap d1 d2 = overlap_fuel (height d1 + height d2) d1 d2

unfoldable pub exec_domain_intersect : Registry → State → GenericInstruction → Run
unfolding ImMap.get resolve_path as_str domain_values_overlap set_path
exec_domain_intersect R s i =
    ok_or (ImMap.get i.params "domain1") (missing_param "domain_intersect" "domain1") >>? λ d1_raw.
    ok_or (ImMap.get i.params "domain2") (missing_param "domain_intersect" "domain2") >>? λ d2_raw.
    ok_or (and_then (option_map (resolve_path s) (ImMap.get i.params "result_attr")) as_str)
      (missing_param "domain_intersect" "result_attr")
    >>? λ result_attr.
        set_path s result_attr
          (bool (domain_values_overlap (resolve_path s d1_raw) (resolve_path s d2_raw)))
