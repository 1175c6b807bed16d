-- ===== src/Value/ImMap.antt =====
-- The map operations that the program uses on `ImMap` (crates/tcb/src/value.rs): lookup, update,
-- removal and size, and their laws. A key that is present keeps its place when it is updated.
use evorule_tcb.Prelude.{
  ℕ, suc, ◌+◌, String, ◌≡◌, refl, ap, ◌≢◌, Bool, true, false, Option, none, some, List, [], ◌∷◌,
  arith, ◌==◌, eq_iff, eq_refl, is_some, if◌then◌else◌,
}
use evorule_tcb.Value.Data.{Value, Entries, end, entry}

unfoldable pub get : Entries → String → Option Value
get end k = none
get (entry j v m) k = if j == k then some v else get m k

unfoldable pub contains_key : Entries → String → Bool
unfolding get
contains_key m k = is_some (get m k)

-- `m.update(k, v)`; `m.insert(k, v)` leaves the same map.
unfoldable pub insert : Entries → String → Value → Entries
insert end k v = entry k v end
insert (entry j w m) k v = if j == k then entry k v m else entry j w (insert m k v)

unfoldable pub without : Entries → String → Entries
without end k = end
without (entry j w m) k = let rest = without m k in if j == k then rest else entry j w rest

unfoldable pub len : Entries → ℕ
len end = 0
len (entry k v m) = suc (len m)

-- `insert` for each pair in turn, the last one winning.
unfoldable pub insert_all : Entries → List (String × Value) → Entries
unfolding insert
insert_all m [] = m
insert_all m ((k, v) ∷ rest) = insert_all (insert m k v) rest

unfoldable pub filter_keys : (String → Bool) → Entries → Entries
filter_keys p end = end
filter_keys p (entry k v m) = let rest = filter_keys p m in if p k then entry k v rest else rest

pub get-insert :
    (m : Entries) (k j : String) (v : Value)
    → get (insert m k v) j ≡ (if k == j then some v else get m j)
unfolding get insert
get-insert end k j v = refl
get-insert (entry i w m) k j v =
    ground (arith, eq_iff i k, eq_iff i j, eq_iff k j, get-insert m k j v)

pub get-without :
    (m : Entries) (k j : String) → get (without m k) j ≡ (if k == j then none else get m j)
unfolding get without
get-without end k j = ground arith
get-without (entry i w m) k j =
    ground (arith, eq_iff i k, eq_iff i j, eq_iff k j, get-without m k j)

pub get-insert_self : (m : Entries) (k : String) (v : Value) → get (insert m k v) k ≡ some v
get-insert_self m k v = ground (arith, get-insert m k k v, eq_iff k k)

pub get-insert_ne :
    (m : Entries) (k j : String) (v : Value) → k ≢ j → get (insert m k v) j ≡ get m j
get-insert_ne m k j v h = ground (arith, get-insert m k j v, eq_iff k j)

test_agrees : (p : String → Bool) (j k : String) → (j == k) ≡ true → p j ≡ p k
test_agrees p j k h = ap p ((eq_iff j k).0 h)

pub get-filter_keys :
    (p : String → Bool) (m : Entries) (k : String)
    → get (filter_keys p m) k ≡ (if p k then get m k else none)
unfolding get filter_keys
get-filter_keys p end k = ground arith
get-filter_keys p (entry j v m) k = ground (arith, get-filter_keys p m k, test_agrees p j k)

pub len-insert :
    (m : Entries) (k : String) (v : Value)
    → len (insert m k v) ≡ (if contains_key m k then len m else len m + 1)
unfolding len insert contains_key get
len-insert end k v = refl
len-insert (entry j w m) k v = ground (arith, len-insert m k v)

pub ruleset map_laws = (get-insert, get-without, eq_refl)
