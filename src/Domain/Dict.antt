-- ===== src/Domain/Dict.antt =====
-- `Domain::to_dict`, crates/tcb/src/domain.rs, the dictionary of a domain, which names an instruction
-- under "value"; and that a domain is read back from it.
use evorule_tcb.Prelude.{ℕ, zero, suc, ◌≤◌, ◌<◌, String, ◌≡◌, refl, ap, arith}
use evorule_tcb.Value.Data.{
  Value, string, list, object, Items, nil, cons, Entries, end, entry, to_list,
}
use evorule_tcb.Error.{ok}
use evorule_tcb.Domain.{
  Domain, Domains, atom, and, or, not_domain, instruction, universal, empty, no_domains, domain,
}
use evorule_tcb.Domain.Depth.{depth, list_depth}
use evorule_tcb.Domain.Parse.{
  op_name, parse_items, map_ok, from_value_fuel, from_value, height, items_height,
}
use evorule_tcb.Domain.Parse.RoundTrip.{parse_atom-to_value}

unfoldable mutual
  unfolding op_name

  pub to_dict : Domain → Entries
  to_dict (atom attribute op value) = entry "type" (string "atom") (
      entry "attribute" (string attribute)
        (entry "op" (string (op_name op)) (entry "value" value end)))
  to_dict (and ds) = entry "type" (string "and") (entry "domains" (list (list_to_dict ds)) end)
  to_dict (or ds) = entry "type" (string "or") (entry "domains" (list (list_to_dict ds)) end)
  to_dict (not_domain d) = entry "type" (string "not") (entry "inner" (object (to_dict d)) end)
  to_dict (instruction name) = entry "type" (string "instruction") (entry "value" (string name) end)
  to_dict universal = entry "type" (string "universal") end
  to_dict empty = entry "type" (string "empty") end

  pub list_to_dict : Domains → Items
  list_to_dict no_domains = nil
  list_to_dict (domain d ds) = cons (object (to_dict d)) (list_to_dict ds)

module _ (debug : Value → String) where
  mutual
    unfolding from_value_fuel to_dict

    dict_round_trip :
        (d : Domain) (f : ℕ) → depth d < f → from_value_fuel debug f (object (to_dict d)) ≡ ok d
    dict_round_trip (atom a op v) zero h = absurd (omega arith)
    dict_round_trip (atom a op v) (suc f) h = parse_atom-to_value a op v
    dict_round_trip (and ds) zero h = absurd (omega arith)
    dict_round_trip (and ds) (suc f) h = ap (map_ok and) (dicts_round_trip ds f (omega arith))
    dict_round_trip (or ds) zero h = absurd (omega arith)
    dict_round_trip (or ds) (suc f) h = ap (map_ok or) (dicts_round_trip ds f (omega arith))
    dict_round_trip (not_domain d) zero h = absurd (omega arith)
    dict_round_trip (not_domain d) (suc f) h =
        ap (map_ok not_domain) (dict_round_trip d f (omega arith))
    dict_round_trip (instruction n) zero h = absurd (omega arith)
    dict_round_trip (instruction n) (suc f) h = refl
    dict_round_trip universal zero h = absurd (omega arith)
    dict_round_trip universal (suc f) h = refl
    dict_round_trip empty zero h = absurd (omega arith)
    dict_round_trip empty (suc f) h = refl

    dicts_round_trip :
        (ds : Domains) (f : ℕ)
        → list_depth ds < f
        → parse_items (from_value_fuel debug f) (to_list (list_to_dict ds)) ≡ ok ds
    dicts_round_trip no_domains f h = refl
    dicts_round_trip (domain d ds) f h =
        rw (dict_round_trip d f (omega arith), dicts_round_trip ds f (omega arith))

mutual
  unfolding to_dict

  depth-lt-dict_height : (d : Domain) → depth d < height (object (to_dict d))
  depth-lt-dict_height (atom a op v) = omega arith
  depth-lt-dict_height (and ds) = omega (arith, list_depth-le-dicts_height ds)
  depth-lt-dict_height (or ds) = omega (arith, list_depth-le-dicts_height ds)
  depth-lt-dict_height (not_domain d) = omega (arith, depth-lt-dict_height d)
  depth-lt-dict_height (instruction n) = omega arith
  depth-lt-dict_height universal = omega arith
  depth-lt-dict_height empty = omega arith

  list_depth-le-dicts_height : (ds : Domains) → list_depth ds ≤ items_height (list_to_dict ds)
  list_depth-le-dicts_height no_domains = omega arith
  list_depth-le-dicts_height (domain d ds) =
      omega (arith, depth-lt-dict_height d, list_depth-le-dicts_height ds)

-- Every domain is read back from its dictionary.
pub domain_from_value-to_dict :
    (debug : Value → String) (d : Domain) → from_value debug (object (to_dict d)) ≡ ok d
unfolding from_value
domain_from_value-to_dict debug d =
    dict_round_trip debug d (height (object (to_dict d))) (depth-lt-dict_height d)
