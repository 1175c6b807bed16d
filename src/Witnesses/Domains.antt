-- ===== src/Witnesses/Domains.antt =====
-- The theorems on domains on concrete inputs, crates/tcb/src/domain.rs.
use evorule_tcb.Domain.Dict
use evorule_tcb.Domain.Dict.{domain_from_value-to_dict}
use evorule_tcb.Control.Refs.{is_single, resolve_refs}
use evorule_tcb.Control.Refs.Plain.{resolve_refs-HasNoRefs}
use evorule_tcb.Prelude.{◌+◌, ◌-◌, ◌*◌, ◌≡◌, refl, true, false, arith, ltb, nat_eq, pos, pos_part}
use evorule_tcb.Value.Data.{Value, bool, integer, string, list, object, nil, cons, end, entry}
use evorule_tcb.Error.{ok}
use evorule_tcb.Platform.{Floats}
use evorule_tcb.Domain.{
  Domain, eq, gt, atom, and, not_domain, empty, no_domains, domain, contains, max_domain_depth,
}
use evorule_tcb.Domain.Depth.{holds, nots, contains-eq-holds, contains-nots}
use evorule_tcb.Domain.Parse.{from_value, to_value}
use evorule_tcb.Domain.Parse.RoundTrip.{domain_from_value-to_value}
use evorule_tcb.Witnesses.{server}

-- Numbers that are their own patterns.
abbrev pub toy_floats : Floats
toy_floats = record {
  of_i64 = pos_part;
  num_eq = nat_eq;
  num_lt = ltb;
  ord_eq = nat_eq;
  is_nan = λ x. false;
  num_add = λ x y. x + y;
  num_sub = λ x y. x - y;
  num_mul = λ x y. x * y;
  num_div = λ x y. x;
}

-- The port is above 79 and not 443.
abbrev port_ok : Domain
port_ok = and (
    domain (atom "server.port" gt (integer (pos 79)))
      (domain (not_domain (atom "server.port" eq (integer (pos 443)))) no_domains))

contains-eq-holds_example : contains toy_floats port_ok server ≡ holds toy_floats port_ok server
contains-eq-holds_example = contains-eq-holds toy_floats port_ok server (omega arith)

contains-nots_example : contains toy_floats (nots (max_domain_depth + 1) empty) server ≡ true
contains-nots_example = contains-nots toy_floats empty server

domain_from_value-to_value_example : from_value (λ v. "") (to_value port_ok) ≡ ok port_ok
domain_from_value-to_value_example = domain_from_value-to_value (λ v. "") port_ok

domain_from_value-to_dict_example :
    from_value (λ v. "") (object (Dict.to_dict port_ok)) ≡ ok port_ok
domain_from_value-to_dict_example = domain_from_value-to_dict (λ v. "") port_ok

-- A `$ref` beside another key is no reference.
abbrev no_reference : Value
no_reference = object (entry "$ref" (string "x") (entry "y" (list (cons (bool true) nil)) end))

resolve_refs-HasNoRefs_example : resolve_refs server no_reference ≡ no_reference
unfolding is_single
resolve_refs-HasNoRefs_example =
    resolve_refs-HasNoRefs server no_reference (refl, refl, (tt, ((tt, tt), tt)))
