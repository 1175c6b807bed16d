-- ===== src/RuleCollection.antt =====
-- `RuleCollection` of crates/tcb/src/rule.rs: rules in descending order of their weight.
pub mod Order
pub mod Lookup
use evorule_tcb.Prelude.{String, Option, none, some, List, [], ◌∷◌, map, ◌==◌, if◌then◌else◌, ltb_ℤ}
use evorule_tcb.Value.Data.{Value, list, object, of_list}
use evorule_tcb.Value.ImMap
use evorule_tcb.Platform.{Floats}
use evorule_tcb.State.{State}
use evorule_tcb.Rule.{Rule, weight, applies_to, to_dict}

pub record RuleCollection : Type 0 where
  pub rules : List Rule

unfoldable pub new : RuleCollection
new = record { rules = [] }

-- The sort of the standard library is stable: a rule stands before the rules of the same weight that
-- come after it.
unfoldable pub insert_first : Rule → List Rule → List Rule
insert_first r [] = r ∷ []
insert_first r (x ∷ xs) =
    let rest = insert_first r xs in if ltb_ℤ (weight r) (weight x) then x ∷ rest else r ∷ x ∷ xs

unfoldable pub sort_by_weight : List Rule → List Rule
unfolding insert_first
sort_by_weight [] = []
sort_by_weight (r ∷ rs) = insert_first r (sort_by_weight rs)

unfoldable pub from_vec : List Rule → RuleCollection
unfolding sort_by_weight
from_vec rules = record { rules = sort_by_weight rules }

-- Before the first rule of a smaller weight, or at the end.
unfoldable pub insert_last : Rule → List Rule → List Rule
insert_last r [] = r ∷ []
insert_last r (x ∷ xs) =
    let rest = insert_last r xs in if ltb_ℤ (weight x) (weight r) then r ∷ x ∷ xs else x ∷ rest

unfoldable pub add : RuleCollection → Rule → RuleCollection
unfolding insert_last
add c r = record { rules = insert_last r c.rules }

unfoldable pub sort : RuleCollection → RuleCollection
unfolding sort_by_weight
sort c = record { rules = sort_by_weight c.rules }

abbrev pub find : String → List Rule → Option Rule
find rule_id [] = none
find rule_id (r ∷ rs) = let rest = find rule_id rs in if r.rule_id == rule_id then some r else rest

unfoldable pub get : RuleCollection → String → Option Rule
get c rule_id = find rule_id c.rules

abbrev pub remove_first : String → List Rule → List Rule
remove_first rule_id [] = []
remove_first rule_id (r ∷ rs) =
    let rest = remove_first rule_id rs in if r.rule_id == rule_id then rs else r ∷ rest

unfoldable pub remove : RuleCollection → String → Option Rule × RuleCollection
remove c rule_id = (find rule_id c.rules, record { rules = remove_first rule_id c.rules })

unfoldable pub clear : RuleCollection → RuleCollection
clear c = record { rules = [] }

abbrev pub rule_value : Rule → Value
unfolding to_dict
rule_value r = object (to_dict r)

unfoldable pub to_value : RuleCollection → Value
to_value c = list (of_list (map rule_value c.rules))

module _ (F : Floats) where
  abbrev pub matching : State → List Rule → List Rule
  unfolding applies_to
  matching s [] = []
  matching s (r ∷ rs) = let rest = matching s rs in if applies_to F r s then r ∷ rest else rest

  unfoldable pub applicable : RuleCollection → State → List Rule
  applicable c s = matching s c.rules
