-- ===== src/Registry/ContextOps/Bounds.antt =====
-- The context operations stay within `i64`, crates/tcb/src/instruction/registry.rs.
use evorule_tcb.Prelude.{
  ℕ, zero, suc, ◌*◌, ◌/◌, ◌^◌, ◌≤◌, ◌≡◌, refl, Bool, true, false, ◌&&◌, arith, if◌then◌else◌,
  unwrap_or, ℤ, pos, negsuc, ◌+ℤ◌, ◌-ℤ◌, ◌*ℤ◌, eq_ℤ, i64_min, IsI64,
}
use evorule_tcb.Value.Data.{integer}
use evorule_tcb.Platform.{Floats}
use evorule_tcb.Registry.ContextOps.{
  saturate, quotient, negate, checked_div, ops_add, ops_sub, ops_mul, ops_div,
}

saturate-IsI64 : (z : ℤ) → IsI64 (saturate z)
saturate-IsI64 (pos n) = ground arith
saturate-IsI64 (negsuc n) = ground arith

saturate_self : (z : ℤ) → IsI64 z → saturate z ≡ z
saturate_self (pos n) h = ground arith
saturate_self (negsuc n) h = ground arith

div_le : (a b : ℕ) → a / suc b ≤ a
div_le a b = ground arith

half_le : (a b : ℕ) → 2 * (a / suc (suc b)) ≤ a
half_le a b = ground arith

div_small : (a b : ℕ) → a / b ≤ a
div_small a zero = ground arith
div_small a (suc b) = div_le a b

negate-IsI64 : (n : ℕ) → n ≤ 2 ^ 63 → IsI64 (negate n)
negate-IsI64 zero h = omega arith
negate-IsI64 (suc n) h = omega arith

-- The only quotient of two `i64` that is out of range is that of the least one by -1.
quotient-IsI64 :
    (a b : ℤ) → IsI64 a → eq_ℤ a i64_min && eq_ℤ b (negsuc 0) ≡ false → IsI64 (quotient a b)
unfolding quotient
quotient-IsI64 (pos a) (pos b) h e = omega (arith, div_small a b)
quotient-IsI64 (pos a) (negsuc b) h e =
    negate-IsI64 (a / suc b) (omega (arith, div_small a (suc b)))
quotient-IsI64 (negsuc a) (pos b) h e =
    negate-IsI64 (suc a / b) (omega (arith, div_small (suc a) b))
quotient-IsI64 (negsuc a) (negsuc zero) h e = ground arith
quotient-IsI64 (negsuc a) (negsuc (suc b)) h e = omega (arith, half_le (suc a) b)

checked_div-IsI64 : (a b : ℤ) → IsI64 a → IsI64 (unwrap_or (checked_div a b) a)
unfolding checked_div
checked_div-IsI64 a b h = ground (arith, quotient-IsI64 a b h)

divided :
    (a b : ℤ) (zero_divisor : Bool)
    → IsI64 a
    → (z : ℤ) × ((if zero_divisor then integer a else integer (unwrap_or (checked_div a b) a))
        ≡ integer z)
      × IsI64 z
divided a b true h = (a, refl, h)
divided a b false h = (unwrap_or (checked_div a b) a, refl, checked_div-IsI64 a b h)

-- On integers in range each operation returns an integer in range. The sum, difference and product
-- are the exact ones wherever those are in range.
pub integer_ops_lem :
    (F : Floats) (a b : ℤ)
    → IsI64 a
    → IsI64 b
    → ((z : ℤ) × (ops_add F (integer a) (integer b) ≡ integer z)
        × IsI64 z
        × (IsI64 (a +ℤ b) → z ≡ a +ℤ b))
      × ((z : ℤ) × (ops_sub F (integer a) (integer b) ≡ integer z)
          × IsI64 z
          × (IsI64 (a -ℤ b) → z ≡ a -ℤ b))
      × ((z : ℤ) × (ops_mul F (integer a) (integer b) ≡ integer z)
          × IsI64 z
          × (IsI64 (a *ℤ b) → z ≡ a *ℤ b))
      × ((z : ℤ) × (ops_div F (integer a) (integer b) ≡ integer z) × IsI64 z)
unfolding ops_add ops_sub ops_mul ops_div
integer_ops_lem F a b ha hb = (
  (saturate (a +ℤ b), refl, saturate-IsI64 (a +ℤ b), saturate_self (a +ℤ b)),
  (saturate (a -ℤ b), refl, saturate-IsI64 (a -ℤ b), saturate_self (a -ℤ b)),
  (saturate (a *ℤ b), refl, saturate-IsI64 (a *ℤ b), saturate_self (a *ℤ b)),
  divided a b (eq_ℤ b (pos 0)) ha,
)
