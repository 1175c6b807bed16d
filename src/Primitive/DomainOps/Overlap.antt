-- ===== src/Primitive/DomainOps/Overlap.antt =====
-- The overlap of two domains, crates/tcb/src/primitive/domain_ops.rs: its recursion ends.
use evorule_tcb.Prelude.{
  ℕ, zero, suc, ◌+◌, ◌-◌, ◌≤◌, ◌<◌, String, ◌≡◌, refl, sym, ◌∙◌, ◌↔◌, ◌⊎◌, inl, inr, Bool, true,
  Option, none, some, arith, eq_iff, and_then,
}
use evorule_tcb.Value.Data.{
  Value, null, bool, integer, float, string, list, object, bytes, Items, nil, cons,
}
use evorule_tcb.Value.ImMap
use evorule_tcb.Value.Accessors
use evorule_tcb.Value.Accessors.{as_list, as_str}
use evorule_tcb.Domain.{atom, RelOp}
use evorule_tcb.Domain.Parse
use evorule_tcb.Domain.Parse.{height, items_height, entries_height}
use evorule_tcb.Domain.Parse.Fuel.{get-height}
use evorule_tcb.Primitive.DomainOps.{
  text_at, any_item, left_if_none, children, binary, compound, overlap_fuel, domain_values_overlap,
}

height-positive : (v : Value) → 1 ≤ height v
height-positive null = omega arith
height-positive (bool b) = omega arith
height-positive (integer n) = omega arith
height-positive (float x) = omega arith
height-positive (string t) = omega arith
height-positive (list vs) = omega arith
height-positive (object m) = omega arith
height-positive (bytes bs) = omega arith

get-lower :
    (d : Value) (key : String) (v : Value) → Accessors.get d key ≡ some v → height v < height d
unfolding Accessors.get
get-lower (object m) key v h = omega (arith, get-height m key v h)
get-lower null key v h = cc
get-lower (bool b) key v h = cc
get-lower (integer n) key v h = cc
get-lower (float x) key v h = cc
get-lower (string t) key v h = cc
get-lower (list vs) key v h = cc
get-lower (bytes bs) key v h = cc

-- Two tests that agree up to a height.
abbrev Agree : (p q : Value → Bool) → ℕ → Type 0
Agree p q n = (v : Value) → height v ≤ n → p v ≡ q v

any_item-Agree :
    (p q : Value → Bool) (vs : Items) (n : ℕ)
    → Agree p q n
    → items_height vs ≤ n
    → any_item p vs ≡ any_item q vs
any_item-Agree p q nil n a h = refl
any_item-Agree p q (cons v vs) n a h =
    rw (a v (omega (arith, h)), any_item-Agree p q vs n a (omega (arith, h))) refl

binary-Agree :
    (type : String) (p q : Value → Bool) (left right : Option Value) (n : ℕ)
    → Agree p q n
    → ((v : Value) → left ≡ some v → height v ≤ n)
    → ((v : Value) → right ≡ some v → height v ≤ n)
    → binary type p left right ≡ binary type q left right
binary-Agree type p q (some l) (some r) n a hl hr = rw (a l (hl l refl), a r (hr r refl)) refl
binary-Agree type p q (some l) none n a hl hr = refl
binary-Agree type p q none right n a hl hr = refl

compound-Agree :
    (d : Value) (type : String) (p q : Value → Bool) (items : Option Items) (n : ℕ)
    → height d ≤ suc n
    → Agree p q n
    → ((vs : Items) → items ≡ some vs → items_height vs ≤ n)
    → compound d type p items ≡ compound d type q items
unfolding compound
compound-Agree d type p q (some vs) n le a h = any_item-Agree p q vs n a (h vs refl)
compound-Agree d type p q none n le a h =
    binary-Agree type p q (Accessors.get d "left") (Accessors.get d "right") n a
      (λ v e. omega (arith, le, get-lower d "left" v e))
      (λ v e. omega (arith, le, get-lower d "right" v e))

as_list-lower : (o : Option Value) (vs : Items) → and_then o as_list ≡ some vs → o ≡ some (list vs)
unfolding as_list
as_list-lower none vs h = cc
as_list-lower (some null) vs h = cc
as_list-lower (some (bool b)) vs h = cc
as_list-lower (some (integer n)) vs h = cc
as_list-lower (some (float x)) vs h = cc
as_list-lower (some (string t)) vs h = cc
as_list-lower (some (list ws)) vs h = cc
as_list-lower (some (object m)) vs h = cc
as_list-lower (some (bytes bs)) vs h = cc

either_of :
    (o p : Option Value) (v : Value) → left_if_none o p ≡ some v → (o ≡ some v) ⊎ (p ≡ some v)
either_of none p v h = inr h
either_of (some w) p v h = inl h

children-lower : (d : Value) (vs : Items) → children d ≡ some vs → items_height vs < height d
unfolding children
children-lower d vs h =
    elim (either_of (Accessors.get d "domains") (Accessors.get d "left") (list vs)
      (as_list-lower (left_if_none (Accessors.get d "domains") (Accessors.get d "left")) vs h)) [
        | inl e ↦ omega (arith, get-lower d "domains" (list vs) e)
        | inr e ↦ omega (arith, get-lower d "left" (list vs) e)
      ]

pub overlap_fuel_stable :
    (f g : ℕ) (d1 d2 : Value)
    → height d1 + height d2 ≤ f
    → height d1 + height d2 ≤ g
    → overlap_fuel f d1 d2 ≡ overlap_fuel g d1 d2
unfolding overlap_fuel
overlap_fuel_stable zero g d1 d2 le le' = absurd (omega (arith, le, height-positive d1))
overlap_fuel_stable (suc f) zero d1 d2 le le' = absurd (omega (arith, le', height-positive d1))
overlap_fuel_stable (suc f) (suc g) d1 d2 le le' =
    let type1 = text_at d1 "type" in
    let type2 = text_at d2 "type" in
    let first =
      compound-Agree d1 type1 (λ c. overlap_fuel f c d2) (λ c. overlap_fuel g c d2) (children d1)
        (height d1 - 1) (omega (arith, height-positive d1))
        (λ c h.
          overlap_fuel_stable f g c d2 (omega (arith, h, le, height-positive d1))
            (omega (arith, h, le', height-positive d1)))
        (λ vs e. omega (arith, children-lower d1 vs e)) in
    let second =
      compound-Agree d2 type2 (λ c. overlap_fuel f d1 c) (λ c. overlap_fuel g d1 c) (children d2)
        (height d2 - 1) (omega (arith, height-positive d2))
        (λ c h.
          overlap_fuel_stable f g d1 c (omega (arith, h, le, height-positive d2))
            (omega (arith, h, le', height-positive d2)))
        (λ vs e. omega (arith, children-lower d2 vs e)) in
    rw (first, second) refl

-- The heights of the two values are enough fuel: with any more the overlap is the same.
pub overlap_fuel_enough :
    (f : ℕ) (d1 d2 : Value)
    → height d1 + height d2 ≤ f
    → overlap_fuel f d1 d2 ≡ domain_values_overlap d1 d2
unfolding domain_values_overlap
overlap_fuel_enough f d1 d2 le =
    overlap_fuel_stable f (height d1 + height d2) d1 d2 le (omega arith)

-- The values of two atoms overlap exactly if they have the same attribute, whatever their operators and
-- values are.
pub domain_values_overlap-atoms :
    (a b : String) (op op' : RelOp) (v w : Value)
    → (domain_values_overlap (Parse.to_value (atom a op v)) (Parse.to_value (atom b op' w)) ≡ true)
      ↔ (a ≡ b)
unfolding overlap_fuel Parse.to_value Accessors.get ImMap.get as_str
domain_values_overlap-atoms a b op op' v w =
    let d1 = Parse.to_value (atom a op v) in
    let d2 = Parse.to_value (atom b op' w) in
    let e = sym (overlap_fuel_enough (suc (height d1 + height d2)) d1 d2 (omega arith)) in
    (λ h. (eq_iff a b).0 (sym e ∙ h), λ h. e ∙ (eq_iff a b).1 h)
