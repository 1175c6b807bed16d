-- ===== src/RuleCollection/Order.antt =====
-- The order of a rule collection, crates/tcb/src/rule.rs: sorting and adding are stable and agree.
use evorule_tcb.Prelude.{
  ◌≡◌, refl, sym, ap, ◌∙◌, inl, inr, Bool, true, false, not, List, [], ◌∷◌, ◌++◌, arith,
  if◌then◌else◌, Bool-cases, all, ℤ, ltb_ℤ, eq_ℤ,
}
use mathlib.Core.List.{append_assoc, append-nil}
use evorule_tcb.Rule.{Rule, weight}
use evorule_tcb.RuleCollection.{
  RuleCollection, new, insert_first, sort_by_weight, from_vec, insert_last, add,
}

-- No rule is of a greater weight than one before it.
abbrev pub IsSorted : List Rule → Type 0
IsSorted [] = Unit
IsSorted (r ∷ rs) = (all (λ x. not (ltb_ℤ (weight r) (weight x))) rs ≡ true) × IsSorted rs

-- The rules of one weight, in their order.
abbrev pub of_weight : ℤ → List Rule → List Rule
of_weight w [] = []
of_weight w (r ∷ rs) = let rest = of_weight w rs in if eq_ℤ (weight r) w then r ∷ rest else rest

abbrev bounded : Rule → List Rule → Bool
bounded r = all (λ x. not (ltb_ℤ (weight r) (weight x)))

bounded-insert_first :
    (r x : Rule) (rs : List Rule)
    → bounded r rs ≡ true
    → ltb_ℤ (weight r) (weight x) ≡ false
    → bounded r (insert_first x rs) ≡ true
unfolding insert_first
bounded-insert_first r x [] h e = rw e
bounded-insert_first r x (y ∷ rs) h e = ground (arith, bounded-insert_first r x rs)

bounded-insert_last :
    (r x : Rule) (rs : List Rule)
    → bounded r rs ≡ true
    → ltb_ℤ (weight r) (weight x) ≡ false
    → bounded r (insert_last x rs) ≡ true
unfolding insert_last
bounded-insert_last r x [] h e = rw e
bounded-insert_last r x (y ∷ rs) h e = ground (arith, bounded-insert_last r x rs)

bounded_trans :
    (r x : Rule) (rs : List Rule)
    → bounded x rs ≡ true
    → ltb_ℤ (weight r) (weight x) ≡ false
    → bounded r rs ≡ true
bounded_trans r x [] h e = refl
bounded_trans r x (y ∷ rs) h e = ground (arith, bounded_trans r x rs)

insert_first-IsSorted : (r : Rule) (rs : List Rule) → IsSorted rs → IsSorted (insert_first r rs)
unfolding insert_first
insert_first-IsSorted r [] h = (refl, tt)
insert_first-IsSorted r (x ∷ rs) h = elim (Bool-cases (ltb_ℤ (weight r) (weight x))) [
  | inl e ↦
      rw (e, IsSorted)
        (bounded-insert_first x r rs h.0 (ground arith), insert_first-IsSorted r rs h.1)
  | inr e ↦ rw (e, IsSorted) (ground (arith, bounded_trans r x rs h.0 e), h)
]

insert_last-IsSorted : (r : Rule) (rs : List Rule) → IsSorted rs → IsSorted (insert_last r rs)
unfolding insert_last
insert_last-IsSorted r [] h = (refl, tt)
insert_last-IsSorted r (x ∷ rs) h = elim (Bool-cases (ltb_ℤ (weight x) (weight r))) [
  | inl e ↦ rw (e, IsSorted) (ground (arith, bounded_trans r x rs h.0), h)
  | inr e ↦ rw (e, IsSorted) (bounded-insert_last x r rs h.0 e, insert_last-IsSorted r rs h.1)
]

of_weight-insert_first :
    (w : ℤ) (r : Rule) (rs : List Rule) → of_weight w (insert_first r rs) ≡ of_weight w (r ∷ rs)
unfolding insert_first
of_weight-insert_first w r [] = refl
of_weight-insert_first w r (x ∷ rs) = ground (arith, of_weight-insert_first w r rs)

-- Adding after all the rules of the weight and sorting before them commute.
insert_last-insert_first :
    (r x : Rule) (rs : List Rule)
    → insert_last r (insert_first x rs) ≡ insert_first x (insert_last r rs)
unfolding insert_first insert_last
insert_last-insert_first r x [] = ground arith
insert_last-insert_first r x (y ∷ rs) = ground (arith, insert_last-insert_first r x rs)

insert_last-sort_by_weight :
    (r : Rule) (rs : List Rule) → insert_last r (sort_by_weight rs) ≡ sort_by_weight (rs ++ r ∷ [])
unfolding sort_by_weight insert_last insert_first
insert_last-sort_by_weight r [] = refl
insert_last-sort_by_weight r (x ∷ rs) =
    insert_last-insert_first r x (sort_by_weight rs)
    ∙ ap (insert_first x) (insert_last-sort_by_weight r rs)

sort_by_weight-IsSorted : (rs : List Rule) → IsSorted (sort_by_weight rs)
unfolding sort_by_weight
sort_by_weight-IsSorted [] = tt
sort_by_weight-IsSorted (r ∷ rs) =
    insert_first-IsSorted r (sort_by_weight rs) (sort_by_weight-IsSorted rs)

of_weight-sort_by_weight :
    (w : ℤ) (rs : List Rule) → of_weight w (sort_by_weight rs) ≡ of_weight w rs
unfolding sort_by_weight
of_weight-sort_by_weight w [] = refl
of_weight-sort_by_weight w (r ∷ rs) =
    of_weight-insert_first w r (sort_by_weight rs)
    ∙ ap (λ l. if eq_ℤ (weight r) w then r ∷ l else l) (of_weight-sort_by_weight w rs)

-- `from_vec` sorts, and keeps the rules of each weight, and their order.
pub from_vec_lem :
    (rs : List Rule)
    → IsSorted (from_vec rs).rules × ((w : ℤ) → of_weight w (from_vec rs).rules ≡ of_weight w rs)
unfolding from_vec
from_vec_lem rs = (sort_by_weight-IsSorted rs, λ w. of_weight-sort_by_weight w rs)

pub add-IsSorted : (c : RuleCollection) (r : Rule) → IsSorted c.rules → IsSorted (add c r).rules
unfolding add
add-IsSorted c r h = insert_last-IsSorted r c.rules h

-- `add` of each rule of a list, in its order.
abbrev pub add_all : RuleCollection → List Rule → RuleCollection
add_all c [] = c
add_all c (r ∷ rs) = add_all (add c r) rs

add_all-from_vec : (xs rs : List Rule) → add_all (from_vec xs) rs ≡ from_vec (xs ++ rs)
unfolding from_vec add
add_all-from_vec xs [] = ap from_vec (sym (append-nil xs))
add_all-from_vec xs (r ∷ rs) =
    ap (λ l. add_all (record { rules = l }) rs) (insert_last-sort_by_weight r xs)
    ∙ add_all-from_vec (xs ++ r ∷ []) rs
    ∙ ap from_vec (append_assoc xs (r ∷ []) rs)

-- Adding the rules of a list to the empty collection, one after the other, gives what `from_vec`
-- makes of the list.
pub add_all-new : (rs : List Rule) → add_all new rs ≡ from_vec rs
unfolding new from_vec sort_by_weight
add_all-new rs = add_all-from_vec [] rs
