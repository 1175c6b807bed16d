-- ===== src/Witnesses/Jsons.antt =====
-- The round trip through JSON, crates/tcb/src/value.rs, on a concrete value and a concrete JSON type.
use evorule_tcb.Prelude.{
  ℕ, String, ◌≡◌, refl, ap, ◌⊎◌, inl, inr, true, Option, none, some, List, [], ◌∷◌, arith, ℤ, pos,
}
use evorule_tcb.Value.Data.{
  to_list-of_list, Value, null, bool, integer, float, string, list, object, bytes, nil, cons, end,
  entry, to_list, of_list, pairs, of_pairs,
}
use evorule_tcb.Deterministic.Encode.{value_to_bytes}
use evorule_tcb.Deterministic.OrderFree.{SameUpToOrder}
use evorule_tcb.Value.Json.{
  JsonView, json_null, json_bool, json_number, json_string, json_array, json_object, SerdeJson,
  serde_json_to_value, value_to_serde_json,
}
use evorule_tcb.Value.Json.RoundTrip.{IsSerdeJson, serde_json_to_value-value_to_serde_json}
use evorule_tcb.Witnesses.Domains.{toy_floats}
use evorule_tcb.Witnesses.Audits.{toy_crates}

abbrev toy_view : Value → JsonView Value (ℤ ⊎ ℕ)
toy_view null = json_null
toy_view (bool b) = json_bool b
toy_view (integer i) = json_number (inl i)
toy_view (float x) = json_number (inr x)
toy_view (string s) = json_string s
toy_view (list v) = json_array (to_list v)
toy_view (object m) = json_object (pairs m)
toy_view (bytes b) = json_null

abbrev toy_number : ℤ ⊎ ℕ → Value
toy_number (inl i) = integer i
toy_number (inr x) = float x

abbrev toy_make : JsonView Value (ℤ ⊎ ℕ) → Value
toy_make json_null = null
toy_make (json_bool b) = bool b
toy_make (json_number n) = toy_number n
toy_make (json_string s) = string s
toy_make (json_array v) = list (of_list v)
toy_make (json_object m) = object (of_pairs m)

abbrev toy_as_i64 : ℤ ⊎ ℕ → Option ℤ
toy_as_i64 (inl i) = some i
toy_as_i64 (inr x) = none

abbrev toy_as_f64 : ℤ ⊎ ℕ → Option ℕ
toy_as_f64 (inl i) = none
toy_as_f64 (inr x) = some x

abbrev toy_json : SerdeJson Value (ℤ ⊎ ℕ)
toy_json = record {
  view = toy_view;
  make = toy_make;
  as_i64 = toy_as_i64;
  as_f64 = toy_as_f64;
  of_i64 = inl;
  of_f64 = float;
  is_finite = λ x. true;
}

pairs-of_pairs : (m : List (String × Value)) → pairs (of_pairs m) ≡ m
pairs-of_pairs [] = refl
pairs-of_pairs ((k, v) ∷ m) = ap (λ r. (k, v) ∷ r) (pairs-of_pairs m)

toy_number_lem : (n : ℤ ⊎ ℕ) → toy_view (toy_number n) ≡ json_number n
toy_number_lem (inl i) = refl
toy_number_lem (inr x) = refl

toy_json-IsSerdeJson : IsSerdeJson toy_json toy_floats
toy_json-IsSerdeJson = record {
  view_null = refl;
  view_bool = λ b. refl;
  view_number = toy_number_lem;
  view_string = λ s. refl;
  view_array = λ v. ap json_array (to_list-of_list v);
  view_object = λ m s. ap json_object (pairs-of_pairs m);
  as_i64_of_i64 = λ i h. refl;
  view_float = λ x h. (inr x, refl, refl, refl);
  finite_not_nan = λ x h. refl;
}

abbrev two_fields : Value
two_fields =
    object
      (entry "b" (list (cons (integer (pos 3)) (cons (float 7) nil))) (entry "a" (string "x") end))

serde_json_to_value-value_to_serde_json_example :
    SameUpToOrder
      (serde_json_to_value toy_json toy_floats
        (value_to_serde_json toy_json toy_floats toy_crates two_fields))
      two_fields
    × (value_to_bytes (
          serde_json_to_value toy_json toy_floats
            (value_to_serde_json toy_json toy_floats toy_crates two_fields))
        ≡ value_to_bytes two_fields)
serde_json_to_value-value_to_serde_json_example =
    serde_json_to_value-value_to_serde_json toy_json toy_floats toy_crates toy_json-IsSerdeJson
      two_fields (((omega arith, (refl, tt)), (tt, tt)), (refl, (refl, tt)))
