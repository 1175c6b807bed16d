-- ===== src/Primitive/RuleOps/Inject/Place.antt =====
-- Where an added rule stands in the rule set, crates/tcb/src/primitive/rule_ops.rs.
use evorule_tcb.Prelude.{String, ◌≡◌, true, Option, none, some, List, [], ◌∷◌, ◌++◌, if◌then◌else◌}
use evorule_tcb.Value.Data.{Value}
use evorule_tcb.Value.Accessors
use evorule_tcb.Primitive.RuleOps.{has_rule_id}
use evorule_tcb.Primitive.RuleOps.Inject.Laws.{count_id}

-- The rules of one identifier, in their order.
abbrev pub of_id : String → List Value → List Value
of_id rule_id [] = []
of_id rule_id (r ∷ rules) =
    let rest = of_id rule_id rules in if has_rule_id rule_id r then r ∷ rest else rest

-- Where an added rule stands: in the place of the first rule of its identifier, the others as they were,
-- or at the end behind all of them if none has its identifier.
pub data Placed (rule_id : String) (rule : Value) : List Value → List Value → Type 0 where
  in_place :
      (before after : List Value) (old : Value)
      → has_rule_id rule_id old ≡ true
      → count_id rule_id before ≡ 0
      → Placed rule_id rule (before ++ old ∷ after) (before ++ rule ∷ after)
  at_end :
      (rules : List Value)
      → count_id rule_id rules ≡ 0
      → Placed rule_id rule rules (rules ++ rule ∷ [])

abbrev PlacedCases : String → Value → List Value → Option (List Value) → Type 0
PlacedCases rule_id rule rules none = count_id rule_id rules ≡ 0
PlacedCases rule_id rule rules (some new_rules) = Placed rule_id rule rules new_rules
