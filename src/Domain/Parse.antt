-- ===== src/Domain/Parse.antt =====
-- The JSON form of domains, crates/tcb/src/domain.rs: `RelOp::parse`, `from_dict`, `from_value` and
-- `to_value`, and that a domain is read back.
pub mod RoundTrip
pub mod Fuel
use evorule_tcb.Prelude.{
  ℕ, zero, suc, String, Bool, true, false, not, ◌||◌, Option, none, some, List, [], ◌∷◌, ◌==◌,
  if◌then◌else◌, and_then, unwrap_or,
}
use evorule_tcb.Value.Data.{
  Value, null, string, list, object, Items, nil, cons, Entries, end, entry, to_list,
}
use evorule_tcb.Value.ImMap
use evorule_tcb.Error.{
  invalid_domain_type, missing_param, invalid_param, generic, Result, ok, err, ◌>>=◌,
}
use evorule_tcb.Value.Accessors.{as_str}
use Prim.Native.Nat.{max}
use Prim.Native.String
use evorule_tcb.Instruction.{ok_or}
use evorule_tcb.Domain.{
  RelOp, eq, ne, gt, ge, lt, le, contains_op, not_contains, in_op, not_in, between, not_between,
  exists, not_exists, Domain, Domains, atom, and, or, not_domain, instruction, universal, empty,
  no_domains, domain,
}

unfoldable pub parse : String → Option RelOp
parse s =
    if s == "eq"
    then some eq
    else if s == "ne"
    then some ne
    else if s == "gt"
    then some gt
    else if s == "ge"
    then some ge
    else if s == "lt"
    then some lt
    else if s == "le"
    then some le
    else if s == "contains" || s == "has"
    then some contains_op
    else if s == "not_contains" || s == "lacks"
    then some not_contains
    else if s == "in"
    then some in_op
    else if s == "not_in"
    then some not_in
    else if s == "between"
    then some between
    else if s == "not_between"
    then some not_between
    else if s == "exists"
    then some exists
    else if s == "not_exists"
    then some not_exists
    else none

unfoldable pub op_name : RelOp → String
op_name eq = "eq"
op_name ne = "ne"
op_name gt = "gt"
op_name ge = "ge"
op_name lt = "lt"
op_name le = "le"
op_name contains_op = "contains"
op_name not_contains = "not_contains"
op_name in_op = "in"
op_name not_in = "not_in"
op_name between = "between"
op_name not_between = "not_between"
op_name exists = "exists"
op_name not_exists = "not_exists"

-- `push` of each parsed item, stopping at the first error.
abbrev pub parse_items : (Value → Result Domain) → List Value → Result Domains
parse_items parse_value [] = ok no_domains
parse_items parse_value (v ∷ vs) = do
  d ← parse_value v
  ds ← parse_items parse_value vs
  ok (domain d ds)

abbrev pub parse_list : (Value → Result Domain) → String → Option Value → Result Domains
parse_list parse_value key none = err (missing_param "Domain::from_dict" key)
parse_list parse_value key (some (list vs)) = parse_items parse_value (to_list vs)
parse_list parse_value key (some v) = err (invalid_param "Domain::from_dict" key "must be a list")

unfoldable pub parse_domain_list : (Value → Result Domain) → Entries → String → Result Domains
unfolding ImMap.get
parse_domain_list parse_value m key = parse_list parse_value key (ImMap.get m key)

abbrev pub pair : Domain → Domain → Domains
pair l r = domain l (domain r no_domains)

abbrev pub parse_pair :
    (Value → Result Domain) → Option Value → Option Value → Result Domains → Result Domains
parse_pair parse_value (some l) (some r) other = do
  left ← parse_value l
  right ← parse_value r
  ok (pair left right)
parse_pair parse_value _ _ other = other

-- The operands of "and" and of "or": "domains", or else "left" and "right".
unfoldable pub parse_operands : (Value → Result Domain) → Entries → Result Domains
unfolding ImMap.get ImMap.contains_key parse_domain_list
parse_operands parse_value m =
    if ImMap.contains_key m "domains"
    then parse_domain_list parse_value m "domains"
    else parse_pair parse_value (ImMap.get m "left") (ImMap.get m "right")
        (parse_domain_list parse_value m "domains")

abbrev pub needs_value : RelOp → Bool
needs_value exists = false
needs_value not_exists = false
needs_value _ = true

abbrev pub atom_value : RelOp → Option Value → Result Value
atom_value op v =
    if needs_value op
    then ok_or v (missing_param "Domain::from_dict" "value")
    else ok (unwrap_or v null)

abbrev pub text_at : Entries → String → Option String
text_at m key = and_then (ImMap.get m key) as_str

unfoldable pub parse_atom : Entries → Result Domain
unfolding ImMap.get as_str parse
parse_atom m = do
  attribute ← ok_or (text_at m "attribute") (missing_param "Domain::from_dict" "attribute")
  op_str ← ok_or (text_at m "op") (missing_param "Domain::from_dict" "op")
  op ←
      ok_or (parse op_str)
        (invalid_param "Domain::from_dict" "op" (String.◌++◌ "Unknown operator: " op_str))
  value ← atom_value op (ImMap.get m "value")
  ok (atom attribute op value)

abbrev pub or_else {ℓ} : {A : Type ℓ} → Option A → Option A → Option A
or_else none o = o
or_else (some a) o = some a

abbrev pub map_ok {ℓ κ} : {A : Type ℓ} {B : Type κ} → (A → B) → Result A → Result B
map_ok f (ok a) = ok (f a)
map_ok f (err e) = err e

abbrev pub parse_inner : (Value → Result Domain) → Option Value → Result Domain
parse_inner parse_value none = err (missing_param "Domain::from_dict" "inner")
parse_inner parse_value (some v) = map_ok not_domain (parse_value v)

unfoldable pub from_dict : (Value → Result Domain) → Entries → Result Domain
unfolding ImMap.get as_str parse_atom parse_operands
from_dict parse_value m =
    let operands = parse_operands parse_value m in
    do
      dtype ← ok_or (text_at m "type") (missing_param "Domain::from_dict" "type")
      if dtype == "atom"
          then parse_atom m
          else if dtype == "and"
          then map_ok and operands
          else if dtype == "or"
          then map_ok or operands
          else if dtype == "not"
          then parse_inner parse_value (ImMap.get m "inner")
          else if dtype == "instruction"
          then map_ok instruction (
              ok_or
                (and_then (or_else (ImMap.get m "instruction_type") (ImMap.get m "value")) as_str)
                (missing_param "Domain::from_dict" "instruction_type"))
          else if dtype == "universal"
          then ok universal
          else if dtype == "empty" || dtype == "never"
          then ok empty
          else err (invalid_domain_type dtype)

-- The levels of a value, which bound the recursion of the parser.
abbrev mutual
  pub height : Value → ℕ
  height (list v) = suc (items_height v)
  height (object m) = suc (entries_height m)
  height _ = 1

  pub items_height : Items → ℕ
  items_height nil = 0
  items_height (cons v vs) = max (height v) (items_height vs)

  pub entries_height : Entries → ℕ
  entries_height end = 0
  entries_height (entry k v m) = max (height v) (entries_height m)

-- `domain_from_value`, by fuel; the detail of the last error prints the value.
unfoldable pub from_value_fuel : (Value → String) → ℕ → Value → Result Domain
unfolding from_dict
from_value_fuel debug zero v = err (generic "out of fuel")
from_value_fuel debug (suc f) (object m) = from_dict (from_value_fuel debug f) m
from_value_fuel debug (suc f) (string s) =
    if s == "universal" then ok universal else if s == "empty" then ok empty else ok (instruction s)
from_value_fuel debug (suc f) v = err (
    invalid_param "Domain::from_value" "value" (String.◌++◌ "Cannot create Domain from " (debug v)))

-- A value is a domain's at most as deep as it is high.
unfoldable pub from_value : (Value → String) → Value → Result Domain
unfolding from_value_fuel
from_value debug v = from_value_fuel debug (height v) v

unfoldable mutual
  unfolding op_name

  pub to_value : Domain → Value
  to_value (atom attribute op value) = object (
      entry "type" (string "atom") (
        entry "attribute" (string attribute)
          (entry "op" (string (op_name op)) (entry "value" value end))))
  to_value (and ds) =
      object (entry "type" (string "and") (entry "domains" (list (list_to_value ds)) end))
  to_value (or ds) =
      object (entry "type" (string "or") (entry "domains" (list (list_to_value ds)) end))
  to_value (not_domain d) = object (entry "type" (string "not") (entry "inner" (to_value d) end))
  to_value (instruction name) = object (
      entry "type" (string "instruction")
        (entry "instruction_type" (string name) (entry "op" (string "eq") end)))
  to_value universal = object (entry "type" (string "universal") end)
  to_value empty = object (entry "type" (string "empty") end)

  pub list_to_value : Domains → Items
  list_to_value no_domains = nil
  list_to_value (domain d ds) = cons (to_value d) (list_to_value ds)
