-- ===== src/Domain/Parse/RoundTrip.antt =====
-- A domain is read back from its value, crates/tcb/src/domain.rs, and the parser's fuel is enough.
use evorule_tcb.Prelude.{ℕ, zero, suc, ◌≤◌, ◌<◌, String, ◌≡◌, refl, ap, some, arith}
use evorule_tcb.Value.Data.{Value, string, end, entry, to_list}
use evorule_tcb.Error.{ok}
use evorule_tcb.Domain.{
  RelOp, eq, ne, Domain, Domains, atom, and, or, not_domain, instruction, universal, empty,
  no_domains, domain,
}
use evorule_tcb.Domain.Depth.{depth, list_depth}
use evorule_tcb.Domain.Parse.{
  parse, op_name, parse_items, map_ok, parse_atom, from_value_fuel, from_value, to_value,
  list_to_value, height, items_height,
}

parse-op_name : (op : RelOp) → parse (op_name op) ≡ some op
unfolding parse op_name
parse-op_name eq = refl
parse-op_name ne = refl
parse-op_name _ = refl

pub parse_atom-to_value :
    (attribute : String) (op : RelOp) (v : Value)
    → parse_atom (
        entry "type" (string "atom") (
          entry "attribute"
            (string attribute)
            (entry "op" (string (op_name op)) (entry "value" v end))))
      ≡ ok (atom attribute op v)
unfolding parse_atom op_name
parse_atom-to_value attribute eq v = refl
parse_atom-to_value attribute _ v = refl

module _ (debug : Value → String) where
  mutual
    unfolding from_value_fuel to_value

    fuel_round_trip :
        (d : Domain) (f : ℕ) → depth d < f → from_value_fuel debug f (to_value d) ≡ ok d
    fuel_round_trip (atom a op v) zero h = absurd (omega arith)
    fuel_round_trip (atom a op v) (suc f) h = parse_atom-to_value a op v
    fuel_round_trip (and ds) zero h = absurd (omega arith)
    fuel_round_trip (and ds) (suc f) h = ap (map_ok and) (list_round_trip ds f (omega arith))
    fuel_round_trip (or ds) zero h = absurd (omega arith)
    fuel_round_trip (or ds) (suc f) h = ap (map_ok or) (list_round_trip ds f (omega arith))
    fuel_round_trip (not_domain d) zero h = absurd (omega arith)
    fuel_round_trip (not_domain d) (suc f) h =
        ap (map_ok not_domain) (fuel_round_trip d f (omega arith))
    fuel_round_trip (instruction n) zero h = absurd (omega arith)
    fuel_round_trip (instruction n) (suc f) h = refl
    fuel_round_trip universal zero h = absurd (omega arith)
    fuel_round_trip universal (suc f) h = refl
    fuel_round_trip empty zero h = absurd (omega arith)
    fuel_round_trip empty (suc f) h = refl

    list_round_trip :
        (ds : Domains) (f : ℕ)
        → list_depth ds < f
        → parse_items (from_value_fuel debug f) (to_list (list_to_value ds)) ≡ ok ds
    list_round_trip no_domains f h = refl
    list_round_trip (domain d ds) f h =
        rw (fuel_round_trip d f (omega arith), list_round_trip ds f (omega arith))

mutual
  unfolding to_value

  depth-lt-height : (d : Domain) → depth d < height (to_value d)
  depth-lt-height (atom a op v) = omega arith
  depth-lt-height (and ds) = omega (arith, list_depth-le-height ds)
  depth-lt-height (or ds) = omega (arith, list_depth-le-height ds)
  depth-lt-height (not_domain d) = omega (arith, depth-lt-height d)
  depth-lt-height (instruction n) = omega arith
  depth-lt-height universal = omega arith
  depth-lt-height empty = omega arith

  list_depth-le-height : (ds : Domains) → list_depth ds ≤ items_height (list_to_value ds)
  list_depth-le-height no_domains = omega arith
  list_depth-le-height (domain d ds) = omega (arith, depth-lt-height d, list_depth-le-height ds)

-- Every domain, however deep, is read back from the value that it is written as.
pub domain_from_value-to_value :
    (debug : Value → String) (d : Domain) → from_value debug (to_value d) ≡ ok d
unfolding from_value
domain_from_value-to_value debug d =
    fuel_round_trip debug d (height (to_value d)) (depth-lt-height d)
