-- ===== src/Value/Json.antt =====
-- The conversions between values and JSON, crates/tcb/src/value.rs. The types of serde_json are
-- parameters: `view` is a match on a `serde_json::Value`, and `make` its constructors.
pub mod Sorted
pub mod RoundTrip
use evorule_tcb.Prelude.{
  ℕ, zero, suc, ◌+◌, String, Bool, Option, none, some, List, map, if◌then◌else◌, ℤ, pos,
}
use evorule_tcb.Value.Data.{
  Value, null, bool, integer, float, string, list, object, bytes, end, to_list, of_list,
}
use evorule_tcb.Value.ImMap
use evorule_tcb.Platform.{Floats, Crates}
use evorule_tcb.Deterministic.Encode.{iter_sorted}

-- The entries of a `serde_json::Map` stand in the order in which they are inserted or iterated.
pub data JsonView (Json Number : Type 0) : Type 0 where
  json_null : JsonView Json Number
  json_bool : Bool → JsonView Json Number
  json_number : Number → JsonView Json Number
  json_string : String → JsonView Json Number
  json_array : List Json → JsonView Json Number
  json_object : List (String × Json) → JsonView Json Number

pub record SerdeJson (Json Number : Type 0) : Type 0 where
  pub view : Json → JsonView Json Number
  pub make : JsonView Json Number → Json
  -- `Number::as_i64`, `Number::as_f64`, `Number::from`
  pub as_i64 : Number → Option ℤ
  pub as_f64 : Number → Option ℕ
  pub of_i64 : ℤ → Number
  -- `json!(n)` for an `f64`
  pub of_f64 : ℕ → Json
  -- `f64::is_finite`
  pub is_finite : ℕ → Bool

abbrev pub max_json_depth : ℕ
max_json_depth = 128

abbrev pub map_values {ℓ κ} :
    {A : Type ℓ} {B : Type κ} → (A → B) → List (String × A) → List (String × B)
map_values g = map (λ e. (e.0, g e.1))

-- `Value::float`: a NaN becomes 0.0.
unfoldable pub new_float : Floats → ℕ → Value
new_float F x = if F.is_nan x then float 0 else float x

module _ {Json Number : Type 0} (S : SerdeJson Json Number) where
  unfoldable pub of_number : Floats → Option ℤ → Option ℕ → Value
  unfolding new_float
  of_number F (some i) f = integer i
  of_number F none (some f) = new_float F f
  of_number F none none = integer (pos 0)

  -- The match of `serde_json_to_value_inner`, by the conversion of what is one level down.
  unfoldable pub of_view : Floats → (Json → Value) → JsonView Json Number → Value
  unfolding of_number ImMap.insert_all
  of_view F g json_null = null
  of_view F g (json_bool b) = bool b
  of_view F g (json_number n) = of_number F (S.as_i64 n) (S.as_f64 n)
  of_view F g (json_string s) = string s
  of_view F g (json_array v) = list (of_list (map g v))
  of_view F g (json_object m) = object (ImMap.insert_all end (map_values g m))

  -- The first argument counts the levels that are left, `MAX_JSON_DEPTH + 1 - depth`.
  unfoldable pub serde_json_to_value_inner : ℕ → Floats → Json → Value
  unfolding of_view
  serde_json_to_value_inner zero F j = null
  serde_json_to_value_inner (suc f) F j = of_view F (serde_json_to_value_inner f F) (S.view j)

  unfoldable pub serde_json_to_value : Floats → Json → Value
  unfolding serde_json_to_value_inner
  serde_json_to_value = serde_json_to_value_inner (max_json_depth + 1)

  -- The arm of a float; an infinite one becomes null.
  unfoldable pub json_float : Floats → ℕ → Json
  json_float F x =
      if S.is_finite x then S.of_f64 x else if F.is_nan x then S.of_f64 0 else S.make json_null

  unfoldable pub value_to_serde_json_inner : ℕ → Floats → Crates → Value → Json
  unfolding json_float iter_sorted
  value_to_serde_json_inner zero F K v = S.make json_null
  value_to_serde_json_inner (suc f) F K null = S.make json_null
  value_to_serde_json_inner (suc f) F K (bool b) = S.make (json_bool b)
  value_to_serde_json_inner (suc f) F K (integer i) = S.make (json_number (S.of_i64 i))
  value_to_serde_json_inner (suc f) F K (float x) = json_float F x
  value_to_serde_json_inner (suc f) F K (string s) = S.make (json_string s)
  value_to_serde_json_inner (suc f) F K (list v) =
      S.make (json_array (map (value_to_serde_json_inner f F K) (to_list v)))
  value_to_serde_json_inner (suc f) F K (object m) =
      S.make (json_object (map_values (value_to_serde_json_inner f F K) (iter_sorted m)))
  value_to_serde_json_inner (suc f) F K (bytes b) = S.make (json_string (K.hex_encode b))

  unfoldable pub value_to_serde_json : Floats → Crates → Value → Json
  unfolding value_to_serde_json_inner
  value_to_serde_json = value_to_serde_json_inner (max_json_depth + 1)
