-- ===== src/Rule.antt =====
-- Rules, crates/tcb/src/rule.rs: a domain with a transform, a priority and an order.
pub mod RoundTrip
pub mod Weight
use evorule_tcb.Prelude.{
  String, Bool, true, false, not, ◌&&◌, ◌||◌, Option, none, some, if◌then◌else◌, and_then,
  unwrap_or, ℤ, pos, ◌+ℤ◌, ◌*ℤ◌, ltb_ℤ,
}
use evorule_tcb.Value.Data.{Value, bool, integer, string, object, Entries, end, entry}
use evorule_tcb.Value.ImMap
use evorule_tcb.Error.{missing_param, Result, ok, ◌>>=◌}
use evorule_tcb.Prelude.Int.{wrap_i64}
use evorule_tcb.Platform.{Floats}
use evorule_tcb.Value.Accessors.{empty_object, as_str, as_integer, as_bool, is_null}
use evorule_tcb.State.{State}
use evorule_tcb.Instruction.{ok_or, entry_if}
use evorule_tcb.Domain.{Domain, universal, contains}
use evorule_tcb.Domain.Parse
use evorule_tcb.Domain.Dict
use evorule_tcb.Domain.Parse.{text_at}
use text.Mathlib.Text.{starts_with}

abbrev pub max_priority : ℤ
max_priority = pos 10000

abbrev pub default_priority : ℤ
default_priority = pos 0

pub record Rule : Type 0 where
  pub name : String
  pub rule_id : String
  pub domain : Domain
  pub transform : Value
  pub priority : ℤ
  pub order : ℤ
  pub metadata : Value
  pub constitutional : Bool
  pub enabled : Bool
  pub is_meta : Bool

unfoldable pub new : (rule_id name : String) → Domain → Value → Rule
new rule_id name domain transform = record {
  name = name;
  rule_id = rule_id;
  domain = domain;
  transform = transform;
  priority = default_priority;
  order = pos 0;
  metadata = empty_object;
  constitutional = false;
  enabled = true;
  is_meta = false;
}

abbrev pub domain_of : (Value → String) → Option Value → Result Domain
domain_of debug none = ok universal
domain_of debug (some v) = Parse.from_value debug v

-- A priority out of range is replaced.
abbrev pub clamp_priority : ℤ → ℤ
clamp_priority p =
    if not (ltb_ℤ p (pos 0)) && not (ltb_ℤ max_priority p) then p else default_priority

abbrev pub is_constitution : String → Bool
is_constitution rule_id = starts_with rule_id "constitution."

abbrev integer_at : Entries → String → Option ℤ
integer_at m key = and_then (ImMap.get m key) as_integer

abbrev flag_at : Entries → String → Bool → Bool
flag_at m key default = unwrap_or (and_then (ImMap.get m key) as_bool) default

unfoldable pub from_dict : (Value → String) → Entries → Result Rule
unfolding ImMap.get as_str as_integer as_bool
from_dict debug m = do
  rule_id ← ok_or (text_at m "rule_id") (missing_param "Rule::from_dict" "rule_id")
  domain ← domain_of debug (ImMap.get m "domain")
  transform ← ok_or (ImMap.get m "transform") (missing_param "Rule::from_dict" "transform")
  ok (record {
    name = unwrap_or (text_at m "name") rule_id;
    rule_id = rule_id;
    domain = domain;
    transform = transform;
    priority = clamp_priority (unwrap_or (integer_at m "priority") (pos 0));
    order = unwrap_or (integer_at m "order") (pos 0);
    metadata = unwrap_or (ImMap.get m "metadata") empty_object;
    constitutional = flag_at m "constitutional" false;
    enabled = flag_at m "enabled" true;
    is_meta = flag_at m "is_meta" false || is_constitution rule_id;
  })

unfoldable pub to_dict : Rule → Entries
unfolding is_null
to_dict r = entry "rule_id" (string r.rule_id) (
    entry "name" (string r.name) (
      entry "domain" (object (Dict.to_dict r.domain)) (
        entry "transform" r.transform (
          entry "priority" (integer r.priority) (
            entry "order" (integer r.order) (
              entry_if (not (is_null r.metadata)) "metadata" r.metadata (
                entry_if r.constitutional "constitutional" (bool true) (
                  entry_if (not r.enabled) "enabled" (bool false)
                    (entry_if r.is_meta "is_meta" (bool true) end)))))))))

-- Both operations wrap around, as in a release build.
unfoldable pub weight : Rule → ℤ
weight r = wrap_i64 (wrap_i64 (r.priority *ℤ pos 10000) +ℤ r.order)

module _ (F : Floats) where
  unfoldable pub applies_to : Rule → State → Bool
  unfolding contains
  applies_to r s = contains F r.domain s
