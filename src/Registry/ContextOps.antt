-- ===== src/Registry/ContextOps.antt =====
-- The context operations, crates/tcb/src/instruction/registry.rs: arithmetic that saturates, and the
-- operations on lists.
pub mod Bounds
use evorule_tcb.Prelude.{
  ℕ, zero, suc, ◌/◌, ◌^◌, String, ◌&&◌, Option, none, some, List, [], ◌∷◌, ltb, if◌then◌else◌,
  unwrap_or, length, ℤ, pos, negsuc, ◌+ℤ◌, ◌-ℤ◌, ◌*ℤ◌, eq_ℤ, i64_max, i64_min,
}
use evorule_tcb.Value.Data.{
  Value, null, bool, integer, float, string, list, Items, nil, cons, to_list,
}
use evorule_tcb.Value.ImMap
use evorule_tcb.Engine.{ContextOp}
use Prim.Native.String
use evorule_tcb.Platform.{Floats}
use evorule_tcb.Value.Compare.{normal_float, value_eq}

-- The nearest `i64`.
abbrev pub saturate : ℤ → ℤ
saturate (pos n) = if ltb n (2 ^ 63) then pos n else i64_max
saturate (negsuc n) = if ltb n (2 ^ 63) then negsuc n else i64_min

abbrev pub negate : ℕ → ℤ
negate zero = pos 0
negate (suc n) = negsuc n

-- The quotient rounded towards zero; the divisor is not 0.
unfoldable pub quotient : ℤ → ℤ → ℤ
quotient (pos a) (pos b) = pos (a / b)
quotient (pos a) (negsuc b) = negate (a / suc b)
quotient (negsuc a) (pos b) = negate (suc a / b)
quotient (negsuc a) (negsuc b) = pos (suc a / suc b)

-- `checked_div`: a quotient out of range is none.
unfoldable pub checked_div : ℤ → ℤ → Option ℤ
unfolding quotient
checked_div a b =
    if eq_ℤ b (pos 0)
    then none
    else if eq_ℤ a i64_min && eq_ℤ b (negsuc 0)
    then none
    else some (quotient a b)

abbrev pub append_items : Items → Items → Items
append_items nil w = w
append_items (cons v vs) w = cons v (append_items vs w)

module _ (F : Floats) where
  open F use {of_i64, num_eq, num_add, num_sub, num_mul, num_div}

  unfoldable pub ops_add : ContextOp
  unfolding normal_float ◌+ℤ◌
  ops_add (integer a) (integer b) = integer (saturate (a +ℤ b))
  ops_add (integer a) (float b) = normal_float F (num_add (of_i64 a) b)
  ops_add (float a) (integer b) = normal_float F (num_add a (of_i64 b))
  ops_add (float a) (float b) = normal_float F (num_add a b)
  ops_add (string a) (string b) = string (String.◌++◌ a b)
  ops_add (list a) (list b) = list (append_items a b)
  ops_add a b = b

  unfoldable pub ops_sub : ContextOp
  unfolding normal_float ◌-ℤ◌
  ops_sub (integer a) (integer b) = integer (saturate (a -ℤ b))
  ops_sub (integer a) (float b) = normal_float F (num_sub (of_i64 a) b)
  ops_sub (float a) (integer b) = normal_float F (num_sub a (of_i64 b))
  ops_sub (float a) (float b) = normal_float F (num_sub a b)
  ops_sub a b = a

  unfoldable pub ops_mul : ContextOp
  unfolding normal_float ◌*ℤ◌
  ops_mul (integer a) (integer b) = integer (saturate (a *ℤ b))
  ops_mul (integer a) (float b) = normal_float F (num_mul (of_i64 a) b)
  ops_mul (float a) (integer b) = normal_float F (num_mul a (of_i64 b))
  ops_mul (float a) (float b) = normal_float F (num_mul a b)
  ops_mul a b = b

  -- A division by zero or out of range gives the dividend.
  unfoldable pub ops_div : ContextOp
  unfolding normal_float checked_div
  ops_div (integer a) (integer b) =
      if eq_ℤ b (pos 0) then integer a else integer (unwrap_or (checked_div a b) a)
  ops_div (integer a) (float b) =
      if num_eq b 0 then integer a else normal_float F (num_div (of_i64 a) b)
  ops_div (float a) (integer b) =
      if eq_ℤ b (pos 0) then float a else normal_float F (num_div a (of_i64 b))
  ops_div (float a) (float b) = if num_eq b 0 then float a else normal_float F (num_div a b)
  ops_div a b = a

  abbrev pub append_to : ContextOp
  append_to (list v) b = list (append_items v (cons b nil))
  append_to a b = list (cons a (cons b nil))

  unfoldable pub ops_append : ContextOp
  ops_append a null = a
  ops_append a (bool b) = append_to a (bool b)
  ops_append a b = append_to a b

  abbrev pub remove_all : Items → Value → Items
  unfolding value_eq
  remove_all nil b = nil
  remove_all (cons v vs) b =
      let rest = remove_all vs b in if value_eq F v b then rest else cons v rest

  unfoldable pub ops_remove : ContextOp
  ops_remove (list v) b = list (remove_all v b)
  ops_remove a b = a

  unfoldable pub ops_length : ContextOp
  ops_length a (list v) = integer (pos (length (to_list v)))
  ops_length a b = integer (pos 0)

  -- The operations that `with_default_context_ops` registers.
  unfoldable pub default_context_ops : List (String × ContextOp)
  unfolding ops_add ops_sub ops_mul ops_div ops_append ops_remove ops_length
  default_context_ops =
      ("add", ops_add)
      ∷ ("sub", ops_sub)
      ∷ ("mul", ops_mul)
      ∷ ("div", ops_div)
      ∷ ("set", λ a b. b)
      ∷ ("append", ops_append)
      ∷ ("remove", ops_remove)
      ∷ ("length", ops_length)
      ∷ []
