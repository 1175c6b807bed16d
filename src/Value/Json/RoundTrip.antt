-- ===== src/Value/Json/RoundTrip.antt =====
-- A value and its JSON, crates/tcb/src/value.rs.
use evorule_tcb.Prelude.{
  ℕ, zero, suc, ◌+◌, String, ◌≡◌, refl, sym, ap, ◌∙◌, subst, Bool, true, false, ◌||◌, none, some,
  List, [], ◌∷◌, map, ◌==◌, ℤ, IsI64,
}
use evorule_tcb.Value.Data.{
  Value, null, bool, integer, float, string, list, object, bytes, Items, nil, cons, Entries, end,
  entry, to_list, of_list, pairs, of_pairs,
}
use evorule_tcb.Value.ImMap
use evorule_tcb.Platform.{Floats, Crates}
use evorule_tcb.Deterministic.Encode.{iter_sorted, sort_by_key, value_to_bytes}
use evorule_tcb.Deterministic.OrderFree.{
  SameUpToOrder, same, lists, objects, SameItems, no_items, items, SameEntries, no_entries, keep,
  steps, map-sort_by_key, value_to_bytes-SameUpToOrder,
}
use evorule_tcb.Value.Json.{
  json_null, json_bool, json_number, json_string, json_array, json_object, SerdeJson,
  max_json_depth, map_values, new_float, of_number, of_view, serde_json_to_value_inner,
  serde_json_to_value, json_float, value_to_serde_json_inner, value_to_serde_json,
}
use evorule_tcb.Value.Json.Sorted.{
  has_key, IsDistinct, IsStrict, sort_by_key-IsDistinct, sort_by_key-IsStrict, insert_all-of_pairs,
  sort_by_key-SameEntries,
}

-- What serde_json documents: a match finds what a constructor was given, a map whose keys are in order
-- keeps its entries, and a number is read as what it was made from.
pub record IsSerdeJson {Json Number : Type 0} (S : SerdeJson Json Number) (F : Floats)
    : Type 0 where
  pub view_null : S.view (S.make json_null) ≡ json_null
  pub view_bool : (b : Bool) → S.view (S.make (json_bool b)) ≡ json_bool b
  pub view_number : (n : Number) → S.view (S.make (json_number n)) ≡ json_number n
  pub view_string : (s : String) → S.view (S.make (json_string s)) ≡ json_string s
  pub view_array : (v : List Json) → S.view (S.make (json_array v)) ≡ json_array v
  pub view_object :
      (m : List (String × Json)) → IsStrict m → S.view (S.make (json_object m)) ≡ json_object m
  pub as_i64_of_i64 : (i : ℤ) → IsI64 i → S.as_i64 (S.of_i64 i) ≡ some i
  -- A finite `f64` makes a number that is no integer.
  pub view_float :
      (x : ℕ)
      → S.is_finite x ≡ true
      → (n : Number) × (S.view (S.of_f64 x) ≡ json_number n)
        × (S.as_i64 n ≡ none)
        × (S.as_f64 n ≡ some x)
  pub finite_not_nan : (x : ℕ) → S.is_finite x ≡ true → F.is_nan x ≡ false

module _ {Json Number : Type 0} (S : SerdeJson Json Number) where
  abbrev pub AllItems : (Value → Type 0) → List Value → Type 0
  AllItems P [] = Unit
  AllItems P (v ∷ vs) = P v × AllItems P vs

  abbrev pub AllValues : (Value → Type 0) → List (String × Value) → Type 0
  AllValues P [] = Unit
  AllValues P ((k, v) ∷ m) = P v × AllValues P m

  -- Within a number of levels, without bytes, every integer in range, every float finite, and every key
  -- of a map once.
  abbrev pub IsJson : ℕ → Value → Type 0
  IsJson zero v = ⊥
  IsJson (suc f) null = Unit
  IsJson (suc f) (bool b) = Unit
  IsJson (suc f) (integer i) = IsI64 i
  IsJson (suc f) (float x) = S.is_finite x ≡ true
  IsJson (suc f) (string s) = Unit
  IsJson (suc f) (list v) = AllItems (IsJson f) (to_list v)
  IsJson (suc f) (object m) = AllValues (IsJson f) (pairs m) × IsDistinct (pairs m)
  IsJson (suc f) (bytes b) = ⊥

module _ {ℓ κ} {A : Type ℓ} {B : Type κ} (g : A → B) where
  has_key-map_values :
      (m : List (String × A)) (k : String) → has_key (map_values g m) k ≡ has_key m k
  has_key-map_values [] k = refl
  has_key-map_values (e ∷ m) k = ap (λ b. (e.0 == k) || b) (has_key-map_values m k)

  map_values-IsDistinct : (m : List (String × A)) → IsDistinct m → IsDistinct (map_values g m)
  map_values-IsDistinct [] d = tt
  map_values-IsDistinct (e ∷ m) d = (has_key-map_values m e.0 ∙ d.0, map_values-IsDistinct m d.1)

module _ {Json Number : Type 0} (S : SerdeJson Json Number) (F : Floats) (K : Crates)
    (laws : IsSerdeJson S F) where
  abbrev there_and_back : ℕ → Value → Value
  there_and_back f v = serde_json_to_value_inner S f F (value_to_serde_json_inner S f F K v)

  module _ (f : ℕ) (back : (v : Value) → IsJson S f v → SameUpToOrder (there_and_back f v) v) where
    back_items :
        (v : Items)
        → AllItems S (IsJson S f) (to_list v)
        → SameItems
            (of_list (
              map
                (serde_json_to_value_inner S f F)
                (map (value_to_serde_json_inner S f F K) (to_list v))))
            v
    back_items nil h = no_items
    back_items (cons v vs) h = items (back v h.0) (back_items vs h.1)

    back_entries :
        (m : Entries)
        → AllValues S (IsJson S f) (pairs m)
        → SameEntries
            (of_pairs (
              map_values
                (serde_json_to_value_inner S f F)
                (map_values (value_to_serde_json_inner S f F K) (pairs m))))
            m
    back_entries end h = no_entries
    back_entries (entry k v m) h = keep (back v h.0) (back_entries m h.1)

    -- The map that is read from the object of sorted pairs.
    back_object :
        (m : Entries)
        → AllValues S (IsJson S f) (pairs m)
        → IsDistinct (pairs m)
        → SameUpToOrder (there_and_back (suc f) (object m)) (object m)
    unfolding serde_json_to_value_inner value_to_serde_json_inner of_view iter_sorted
    back_object m h d =
        let to = value_to_serde_json_inner S f F K in
        let from = serde_json_to_value_inner S f F in
        let there = map_values to (pairs m) in
        let again = map_values from there in
        let there-IsDistinct = map_values-IsDistinct to (pairs m) d in
        let again-IsDistinct = map_values-IsDistinct from there there-IsDistinct in
        let seen =
          laws.view_object (sort_by_key there) (sort_by_key-IsStrict there there-IsDistinct) in
        let read =
          ap (λ p. of_view S F from (S.view (S.make (json_object p))))
            (map-sort_by_key to (pairs m))
          ∙ ap (of_view S F from) seen
          ∙ ap (λ p. object (ImMap.insert_all end p)) (map-sort_by_key from there)
          ∙ ap object (
              insert_all-of_pairs (sort_by_key again)
                (sort_by_key-IsDistinct again again-IsDistinct)) in
        subst (λ v. SameUpToOrder v (object m)) (sym read)
          (objects (steps (sort_by_key-SameEntries again again-IsDistinct) (back_entries m h)))

  same_if : {v w : Value} → v ≡ w → SameUpToOrder v w
  same_if {v} e = subst (SameUpToOrder v) e same

  float_back : (f x : ℕ) → S.is_finite x ≡ true → there_and_back (suc f) (float x) ≡ float x
  unfolding serde_json_to_value_inner value_to_serde_json_inner of_view json_float of_number
      new_float
  float_back f x h =
      let number = laws.view_float x h in
      rw (h, number.1) (rw (number.2, number.3, laws.finite_not_nan x h) refl)

  integer_back : (f : ℕ) (i : ℤ) → IsI64 i → there_and_back (suc f) (integer i) ≡ integer i
  unfolding serde_json_to_value_inner value_to_serde_json_inner of_view of_number
  integer_back f i h = rw (laws.view_number (S.of_i64 i), laws.as_i64_of_i64 i h) refl

  back : (f : ℕ) (v : Value) → IsJson S f v → SameUpToOrder (there_and_back f v) v
  unfolding serde_json_to_value_inner value_to_serde_json_inner of_view
  back zero v h = absurd h
  back (suc f) null h = rw laws.view_null same
  back (suc f) (bool b) h = rw (laws.view_bool b) same
  back (suc f) (integer i) h = same_if (integer_back f i h)
  back (suc f) (float x) h = same_if (float_back f x h)
  back (suc f) (string s) h = rw (laws.view_string s) same
  back (suc f) (list v) h =
      rw (laws.view_array (map (value_to_serde_json_inner S f F K) (to_list v)))
        (lists (back_items f (back f) v h))
  back (suc f) (object m) h = back_object f (back f) m h.0 h.1
  back (suc f) (bytes b) h = absurd h

  -- A value of at most 129 levels, without bytes, its integers in range, its floats finite and its keys
  -- distinct is read back from its JSON, up to the order in which its maps iterate; so its canonical
  -- bytes are the same.
  pub serde_json_to_value-value_to_serde_json :
      (v : Value)
      → IsJson S (max_json_depth + 1) v
      → SameUpToOrder (serde_json_to_value S F (value_to_serde_json S F K v)) v
        × (value_to_bytes (serde_json_to_value S F (value_to_serde_json S F K v))
            ≡ value_to_bytes v)
  unfolding serde_json_to_value value_to_serde_json
  serde_json_to_value-value_to_serde_json v h =
      let same_value = back (max_json_depth + 1) v h in
      (
        same_value,
        value_to_bytes-SameUpToOrder (serde_json_to_value S F (value_to_serde_json S F K v)) v
            same_value,
      )
