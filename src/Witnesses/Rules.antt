-- ===== src/Witnesses/Rules.antt =====
-- The theorems on rules on concrete inputs, crates/tcb/src/rule.rs.
use evorule_tcb.Prelude.{
  ◌+◌, String, ◌≡◌, refl, ◌≢◌, ◌↔◌, ◌⊎◌, true, false, none, some, [], ◌∷◌, arith, length, ℤ, pos,
  ◌+ℤ◌, ◌*ℤ◌, ltb_ℤ,
}
use evorule_tcb.Value.Data.{null}
use evorule_tcb.Error.{ok}
use evorule_tcb.Instruction.{metadata_read}
use evorule_tcb.Domain.{universal}
use evorule_tcb.Rule.{Rule, weight, from_dict, to_dict, is_constitution}
use evorule_tcb.Rule.RoundTrip.{from_dict-to_dict}
use evorule_tcb.Rule.Weight.{InRange, weight_iff}
use evorule_tcb.RuleCollection
use evorule_tcb.RuleCollection.{RuleCollection, from_vec, add, get, remove}
use evorule_tcb.RuleCollection.Order.{IsSorted, of_weight, from_vec_lem, add_all, add_all-new}
use evorule_tcb.RuleCollection.Lookup.{remove_lem}

abbrev low : Rule
low = record {
  name = "low";
  rule_id = "a";
  domain = universal;
  transform = null;
  priority = pos 1;
  order = pos 9;
  metadata = null;
  constitutional = false;
  enabled = true;
  is_meta = false;
}

abbrev high : Rule
high = record low { name = "high"; rule_id = "b"; priority = pos 2; order = pos 0 }

low-InRange : InRange low
low-InRange = record {
  priority_lo = omega arith;
  priority_hi = omega arith;
  order_lo = omega arith;
  order_hi = omega arith;
}

high-InRange : InRange high
high-InRange = record {
  priority_lo = omega arith;
  priority_hi = omega arith;
  order_lo = omega arith;
  order_hi = omega arith;
}

weight_iff_example :
    (ltb_ℤ (weight low) (weight high) ≡ true)
    ↔ ((ltb_ℤ (pos 1) (pos 2) ≡ true) ⊎ ((pos 1 ≡ pos 2) × (ltb_ℤ (pos 9) (pos 0) ≡ true)))
weight_iff_example = weight_iff low high low-InRange high-InRange

low_no_constitution : is_constitution "a" ≡ true → low.is_meta ≡ true
low_no_constitution h = cc

from_dict-to_dict_example :
    from_dict (λ v. "") (to_dict low) ≡ ok (record low { metadata = metadata_read null })
from_dict-to_dict_example =
    from_dict-to_dict (λ v. "") low (omega arith) (omega arith) low_no_constitution

from_vec_lem_example :
    IsSorted (from_vec (low ∷ high ∷ [])).rules
    × ((w : ℤ) → of_weight w (from_vec (low ∷ high ∷ [])).rules ≡ of_weight w (low ∷ high ∷ []))
from_vec_lem_example = from_vec_lem (low ∷ high ∷ [])

add_all-new_example : add_all RuleCollection.new (low ∷ high ∷ []) ≡ from_vec (low ∷ high ∷ [])
add_all-new_example = add_all-new (low ∷ high ∷ [])

abbrev two_rules : RuleCollection
two_rules = record { rules = high ∷ low ∷ [] }

two_rules-IsSorted : IsSorted two_rules.rules
unfolding weight ◌*ℤ◌ ◌+ℤ◌
two_rules-IsSorted = (refl, (refl, tt))

remove_lem_example :
    ((remove two_rules "b").0 ≡ get two_rules "b")
    × IsSorted ((remove two_rules "b").1).rules
    × ((j : String) → "b" ≢ j → get ((remove two_rules "b").1) j ≡ get two_rules j)
    × ((r : Rule) → get two_rules "b" ≡ some r → length ((remove two_rules "b").1).rules + 1 ≡ 2)
remove_lem_example = remove_lem two_rules "b" two_rules-IsSorted

abbrev only_high : RuleCollection
only_high = record { rules = high ∷ [] }

low_is_new : get only_high "a" ≡ none
unfolding get
low_is_new = refl
