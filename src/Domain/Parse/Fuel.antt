-- ===== src/Domain/Parse/Fuel.antt =====
-- The fuel of the domain parser is enough: it satisfies the recursive equation of
-- `domain_from_value`, crates/tcb/src/domain.rs.
use evorule_tcb.Prelude.{
  ℕ, zero, suc, ◌≤◌, String, ◌≡◌, refl, ap, inl, inr, Option, none, some, arith, ◌==◌, Bool-cases,
}
use evorule_tcb.Value.Data.{
  Value, null, list, object, Items, nil, cons, Entries, end, entry, to_list,
}
use evorule_tcb.Value.ImMap
use evorule_tcb.Error.{Result}
use evorule_tcb.Domain.{Domain, Domains, not_domain}
use evorule_tcb.Domain.Parse.{
  parse_items, parse_list, parse_pair, parse_inner, map_ok, parse_domain_list, parse_operands,
  from_dict, from_value_fuel, from_value, height, items_height, entries_height,
}

pub get-height :
    (m : Entries) (k : String) (v : Value) → ImMap.get m k ≡ some v → height v ≤ entries_height m
unfolding ImMap.get
get-height end k v h = cc
get-height (entry j w m) k v h = elim (Bool-cases (j == k)) [
  | inl e ↦ let same : w ≡ v = ground arith in omega (arith, ap height same)
  | inr e ↦ omega (arith, get-height m k v (rw (e, ImMap.get) at h))
]

-- Two parsers that agree up to a height.
abbrev Agree : (Value → Result Domain) → (Value → Result Domain) → ℕ → Type 0
Agree g h n = (v : Value) → height v ≤ n → g v ≡ h v

module _ (g h : Value → Result Domain) where
  parse_items-Agree :
      (n : ℕ) (vs : Items)
      → Agree g h n
      → items_height vs ≤ n
      → parse_items g (to_list vs) ≡ parse_items h (to_list vs)
  parse_items-Agree n nil a le = refl
  parse_items-Agree n (cons v vs) a le =
      rw (a v (omega arith), parse_items-Agree n vs a (omega arith))

  module _ (n : ℕ) (a : Agree g h n) where
    abbrev Low : Option Value → Type 0
    Low o = (v : Value) → o ≡ some v → height v ≤ n

    parse_list-Agree :
        (key : String) (o : Option Value) → Low o → parse_list g key o ≡ parse_list h key o
    parse_list-Agree key none low = refl
    parse_list-Agree key (some (list vs)) low =
        let le = low (list vs) refl in parse_items-Agree n vs a (omega arith)
    parse_list-Agree key (some null) low = refl
    parse_list-Agree key (some v) low = refl

    parse_pair-Agree :
        (l r : Option Value) {x y : Result Domains}
        → Low l
        → Low r
        → x ≡ y
        → parse_pair g l r x ≡ parse_pair h l r y
    parse_pair-Agree (some l) (some r) ll lr e = rw (a l (ll l refl), a r (lr r refl))
    parse_pair-Agree none r ll lr e = e
    parse_pair-Agree (some l) none ll lr e = e

    parse_inner-Agree : (o : Option Value) → Low o → parse_inner g o ≡ parse_inner h o
    parse_inner-Agree none low = refl
    parse_inner-Agree (some v) low = ap (map_ok not_domain) (a v (low v refl))

from_dict-Agree :
    (g h : Value → Result Domain) (m : Entries)
    → Agree g h (entries_height m)
    → from_dict g m ≡ from_dict h m
unfolding from_dict parse_operands parse_domain_list
from_dict-Agree g h m a =
    let n = entries_height m in
    let low = λ (k : String). get-height m k in
    let domains = parse_list-Agree g h n a "domains" (ImMap.get m "domains") (low "domains") in
    let others = parse_list h "domains" (ImMap.get m "domains") in
    let pairs_agree =
      parse_pair-Agree g h n a (ImMap.get m "left") (ImMap.get m "right") {x = others} {y = others}
        (low "left") (low "right") refl in
    rw (domains, pairs_agree, parse_inner-Agree g h n a (ImMap.get m "inner") (low "inner"))

module _ (debug : Value → String) where
  fuel_stable :
      (f g : ℕ) (v : Value)
      → height v ≤ f
      → height v ≤ g
      → from_value_fuel debug f v ≡ from_value_fuel debug g v
  unfolding from_value_fuel
  fuel_stable (suc f) (suc g) (object m) hf hg =
      from_dict-Agree (from_value_fuel debug f) (from_value_fuel debug g) m
        (λ v le. fuel_stable f g v (omega arith) (omega arith))
  fuel_stable (suc f) (suc g) _ hf hg = refl
  fuel_stable zero g null hf hg = absurd (omega arith)
  fuel_stable zero g _ hf hg = absurd (omega arith)
  fuel_stable (suc f) zero null hf hg = absurd (omega arith)
  fuel_stable (suc f) zero _ hf hg = absurd (omega arith)

  -- On an object `from_value` is `from_dict` over `from_value` itself: the fuel never runs out.
  pub from_value-object :
      (m : Entries) → from_value debug (object m) ≡ from_dict (from_value debug) m
  unfolding from_value from_value_fuel
  from_value-object m =
      from_dict-Agree (from_value_fuel debug (entries_height m)) (from_value debug) m
        (λ v le. fuel_stable (entries_height m) (height v) v le (omega arith))
