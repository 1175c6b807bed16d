-- ===== src/Rule/RoundTrip.antt =====
-- A rule is read back from its dictionary, crates/tcb/src/rule.rs.
use evorule_tcb.Prelude.{String, ◌≡◌, true, arith, pos, ◌≤ℤ◌}
use evorule_tcb.Value.Data.{Value}
use evorule_tcb.Error.{ok}
use evorule_tcb.Instruction.{metadata_read, is_null-read, not_null-read}
use evorule_tcb.Domain.Dict.{domain_from_value-to_dict}
use evorule_tcb.Rule.{Rule, from_dict, to_dict, is_constitution, max_priority}

-- A rule whose priority is in range and whose identifier names a constitutional rule only if it is a
-- meta-rule is read back from its dictionary; metadata that is null is read back as an empty object.
pub from_dict-to_dict :
    (debug : Value → String) (r : Rule)
    → pos 0 ≤ℤ r.priority
    → r.priority ≤ℤ max_priority
    → (is_constitution r.rule_id ≡ true → r.is_meta ≡ true)
    → from_dict debug (to_dict r) ≡ ok (record r { metadata = metadata_read r.metadata })
unfolding from_dict to_dict
from_dict-to_dict debug r lo hi meta = ground (
  arith,
  domain_from_value-to_dict debug r.domain,
  is_null-read r.metadata,
  not_null-read r.metadata,
)
