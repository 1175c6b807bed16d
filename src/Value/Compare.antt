-- ===== src/Value/Compare.antt =====
-- Equality and truth of values, crates/tcb/src/value.rs: the derived `PartialEq`, `loosely_equals`,
-- `as_number`, `truthy` and `Value::float`.
use evorule_tcb.Prelude.{
  ℕ, Bool, true, false, not, ◌&&◌, Option, none, some, List, [], ◌∷◌, ◌==◌, nat_eq, if◌then◌else◌,
  length, pos, eq_ℤ,
}
use evorule_tcb.Value.Data.{
  Value, null, bool, integer, float, string, list, object, bytes, Items, nil, cons, Entries, end,
  entry, to_list,
}
use evorule_tcb.Value.ImMap
use evorule_tcb.Platform.{Floats}

module _ (F : Floats) where
  open F use {of_i64, num_eq, ord_eq, is_nan}

  unfoldable pub bool_eq : Bool → Bool → Bool
  bool_eq true b = b
  bool_eq false b = not b

  unfoldable pub bytes_eq : List ℕ → List ℕ → Bool
  bytes_eq [] [] = true
  bytes_eq (x ∷ xs) (y ∷ ys) = nat_eq x y && bytes_eq xs ys
  bytes_eq _ _ = false

  -- Two maps are equal if they have the same size and each key of the one has an equal value in
  -- the other.
  unfoldable mutual
    unfolding bool_eq bytes_eq ImMap.len ImMap.get

    pub value_eq : Value → Value → Bool
    value_eq null null = true
    value_eq (bool a) (bool b) = bool_eq a b
    value_eq (integer a) (integer b) = eq_ℤ a b
    value_eq (float a) (float b) = ord_eq a b
    value_eq (string a) (string b) = a == b
    value_eq (list a) (list b) = items_eq a b
    value_eq (object a) (object b) = nat_eq (ImMap.len a) (ImMap.len b) && entries_within a b
    value_eq (bytes a) (bytes b) = bytes_eq a b
    value_eq _ _ = false

    pub items_eq : Items → Items → Bool
    items_eq nil nil = true
    items_eq (cons x xs) (cons y ys) = value_eq x y && items_eq xs ys
    items_eq _ _ = false

    pub entries_within : Entries → Entries → Bool
    entries_within end n = true
    entries_within (entry k v m) n =
        let same = λ (w : Value). value_eq v w in
        elim (ImMap.get n k) [ none ↦ false | some w ↦ same w ] && entries_within m n

  -- A NaN becomes 0.0.
  unfoldable pub normal_float : ℕ → Value
  normal_float f = if is_nan f then float 0 else float f

  unfoldable pub as_number : Value → Option ℕ
  as_number (integer i) = some (of_i64 i)
  as_number (float f) = some f
  as_number _ = none

  unfoldable pub truthy : Value → Bool
  truthy null = false
  truthy (bool b) = b
  truthy (integer i) = not (eq_ℤ i (pos 0))
  truthy (float f) = not (num_eq f 0)
  truthy (string s) = not (s == "")
  truthy (list v) = not (nat_eq (length (to_list v)) 0)
  truthy (object m) = not (nat_eq (ImMap.len m) 0)
  truthy (bytes b) = not (nat_eq (length b) 0)

  unfoldable pub loosely_equals : Value → Value → Bool
  unfolding value_eq
  loosely_equals (integer a) (integer b) = eq_ℤ a b
  loosely_equals (integer a) (float b) = num_eq (of_i64 a) b
  loosely_equals (float a) (integer b) = num_eq a (of_i64 b)
  loosely_equals (float a) (float b) = ord_eq a b
  loosely_equals (string a) (string b) = a == b
  loosely_equals (bool a) (bool b) = bool_eq a b
  loosely_equals null null = true
  loosely_equals a b = value_eq a b
