-- ===== src/RuleCollection/Lookup.antt =====
-- Lookup and removal by identifier, crates/tcb/src/rule.rs.
use evorule_tcb.Prelude.{
  ◌+◌, String, ◌≡◌, refl, ◌≢◌, inl, inr, true, not, none, some, List, [], ◌∷◌, arith, ◌==◌, eq_iff,
  eq_refl, Bool-cases, length, all, ltb_ℤ,
}
use evorule_tcb.Rule.{Rule, weight}
use evorule_tcb.RuleCollection.{RuleCollection, find, remove_first, get, remove, add, insert_last}
use evorule_tcb.RuleCollection.Order.{IsSorted}

find-remove_first : (k j : String) (rs : List Rule) → k ≢ j → find j (remove_first k rs) ≡ find j rs
find-remove_first k j [] h = refl
find-remove_first k j (r ∷ rs) h =
    ground (arith, find-remove_first k j rs h, eq_iff r.rule_id k, eq_iff r.rule_id j)

bounded-remove_first :
    (r : Rule) (k : String) (rs : List Rule)
    → all (λ x. not (ltb_ℤ (weight r) (weight x))) rs ≡ true
    → all (λ x. not (ltb_ℤ (weight r) (weight x))) (remove_first k rs) ≡ true
bounded-remove_first r k [] h = refl
bounded-remove_first r k (x ∷ rs) h = ground (arith, bounded-remove_first r k rs)

remove_first-IsSorted : (k : String) (rs : List Rule) → IsSorted rs → IsSorted (remove_first k rs)
remove_first-IsSorted k [] h = tt
remove_first-IsSorted k (r ∷ rs) h = elim (Bool-cases (r.rule_id == k)) [
  | inl e ↦ rw (e, IsSorted) h.1
  | inr e ↦ rw (e, IsSorted) (bounded-remove_first r k rs h.0, remove_first-IsSorted k rs h.1)
]

length-remove_first :
    (k : String) (rs : List Rule) {r : Rule}
    → find k rs ≡ some r
    → length (remove_first k rs) + 1 ≡ length rs
length-remove_first k [] h = cc
length-remove_first k (x ∷ rs) {r} h = ground (arith, length-remove_first k rs {r = r})

-- `remove` returns what `get` finds. A sorted collection stays sorted, every other identifier is
-- found as before, and if a rule is returned then one rule fewer is left.
pub remove_lem :
    (c : RuleCollection) (k : String)
    → IsSorted c.rules
    → ((remove c k).0 ≡ get c k)
      × IsSorted ((remove c k).1).rules
      × ((j : String) → k ≢ j → get ((remove c k).1) j ≡ get c j)
      × ((r : Rule) → get c k ≡ some r → length ((remove c k).1).rules + 1 ≡ length c.rules)
unfolding remove get
remove_lem c k h = (
  refl,
  remove_first-IsSorted k c.rules h,
  λ j d. find-remove_first k j c.rules d,
  λ r e. length-remove_first k c.rules {r = r} e,
)

find-insert_last :
    (r : Rule) (j : String) (rs : List Rule) → r.rule_id ≢ j → find j (insert_last r rs) ≡ find j rs
unfolding insert_last
find-insert_last r j [] h = ground (arith, eq_iff r.rule_id j)
find-insert_last r j (x ∷ rs) h = ground (arith, eq_iff r.rule_id j, find-insert_last r j rs h)

find-insert_last_self :
    (r : Rule) (rs : List Rule)
    → find r.rule_id rs ≡ none
    → find r.rule_id (insert_last r rs) ≡ some r
unfolding insert_last
find-insert_last_self r [] h = ground (arith, eq_refl r.rule_id)
find-insert_last_self r (x ∷ rs) h = ground (arith, eq_refl r.rule_id, find-insert_last_self r rs)

-- A rule whose identifier is new is found after `add`, and every other identifier is found as before.
pub get-add :
    (c : RuleCollection) (r : Rule)
    → get c r.rule_id ≡ none
    → (get (add c r) r.rule_id ≡ some r)
      × ((j : String) → r.rule_id ≢ j → get (add c r) j ≡ get c j)
unfolding get add
get-add c r h = (find-insert_last_self r c.rules h, λ j d. find-insert_last r j c.rules d)
