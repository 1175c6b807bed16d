-- ===== src/Rule/Weight.antt =====
-- The weight of a rule orders by priority and then by order, crates/tcb/src/rule.rs.
use evorule_tcb.Prelude.{
  ℕ, ◌+◌, ◌*◌, ◌^◌, ◌≤◌, ◌<◌, ◌≡◌, refl, ap, ◌∙◌, ◌↔◌, ◌⊎◌, true, arith, ℤ, pos, negsuc, pos_part,
  ◌+ℤ◌, ◌*ℤ◌, ◌≤ℤ◌, ltb_ℤ,
}
use evorule_tcb.Rule.{Rule, weight, max_priority}
use evorule_tcb.Prelude.Int.{eq_of_parts, wrap_i64}

-- Priorities from 0 to 10000 and orders from 0 to 9999.
pub record InRange (r : Rule) : Type 0 where
  pub priority_lo : pos 0 ≤ℤ r.priority
  pub priority_hi : r.priority ≤ℤ max_priority
  pub order_lo : pos 0 ≤ℤ r.order
  pub order_hi : r.order ≤ℤ pos 9999

pos_of : (z : ℤ) → pos 0 ≤ℤ z → z ≡ pos (pos_part z)
pos_of (pos n) h = refl
pos_of (negsuc n) h = absurd (omega arith)

pos_part-le : (z : ℤ) (n : ℕ) → pos 0 ≤ℤ z → z ≤ℤ pos n → pos_part z ≤ n
pos_part-le (pos k) n lo hi = omega arith
pos_part-le (negsuc k) n lo hi = absurd (omega arith)

wrap_i64-pos : (n : ℕ) → n < 2 ^ 63 → wrap_i64 (pos n) ≡ pos n
wrap_i64-pos n h = ground arith

mul_pos : (a b : ℕ) → pos a *ℤ pos b ≡ pos (a * b)
unfolding ◌*ℤ◌
mul_pos a b = ground arith

add_pos : (a b : ℕ) → pos a +ℤ pos b ≡ pos (a + b)
unfolding ◌+ℤ◌
add_pos a b = ground arith

weight-InRange :
    (r : Rule) → InRange r → weight r ≡ pos (pos_part r.priority * 10000 + pos_part r.order)
unfolding weight
weight-InRange r h =
    let p = pos_part r.priority in
    let o = pos_part r.order in
    let p_le = pos_part-le r.priority 10000 h.priority_lo h.priority_hi in
    let o_le = pos_part-le r.order 9999 h.order_lo h.order_hi in
    ap (λ z. wrap_i64 (wrap_i64 (z *ℤ pos 10000) +ℤ r.order)) (pos_of r.priority h.priority_lo)
    ∙ ap (λ z. wrap_i64 (wrap_i64 (pos p *ℤ pos 10000) +ℤ z)) (pos_of r.order h.order_lo)
    ∙ ap (λ z. wrap_i64 (wrap_i64 z +ℤ pos o)) (mul_pos p 10000)
    ∙ ap (λ z. wrap_i64 (z +ℤ pos o)) (wrap_i64-pos (p * 10000) (omega (arith, p_le)))
    ∙ ap wrap_i64 (add_pos (p * 10000) o)
    ∙ wrap_i64-pos (p * 10000 + o) (omega (arith, p_le, o_le))

-- With priorities from 0 to 10000 and orders from 0 to 9999, one rule weighs less than another exactly
-- if its priority is smaller, or the priorities are equal and its order is smaller.
pub weight_iff :
    (a b : Rule)
    → InRange a
    → InRange b
    → (ltb_ℤ (weight a) (weight b) ≡ true) ↔ (
        (ltb_ℤ a.priority b.priority ≡ true)
        ⊎ ((a.priority ≡ b.priority) × (ltb_ℤ a.order b.order ≡ true)))
weight_iff a b ha hb =
    rw (weight-InRange a ha, weight-InRange b hb)
      (ground (arith, eq_of_parts a.priority b.priority))
