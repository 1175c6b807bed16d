-- ===== src/Value/Json/Sorted.antt =====
-- Lists of texts with values in the order of the texts: `iter_sorted` of crates/tcb/src/value.rs, and
-- the maps built from them.
use evorule_tcb.Prelude.{
  String, ◌≡◌, refl, sym, ap, ◌∙◌, subst, ◌≢◌, inl, inr, Bool, true, false, ◌||◌, List, [], ◌∷◌,
  ◌++◌, arith, ◌==◌, eq_iff, Bool-cases, any, str_lt, str_lt_connex,
}
use evorule_tcb.Value.Data.{Value, end, entry, of_pairs}
use evorule_tcb.Value.ImMap
use evorule_tcb.Deterministic.Encode.{insert_by_key, sort_by_key}
use evorule_tcb.Deterministic.OrderFree.{same, SameEntries, no_entries, keep, swap, steps}

either_true : (a b : Bool) → (a || b) ≡ false → (a ≡ false) × (b ≡ false)
either_true a b h = ground arith

neither : (a b : Bool) → a ≡ false → b ≡ false → (a || b) ≡ false
neither a b h g = ground arith

eq_flip : (j k : String) → (j == k) ≡ false → (k == j) ≡ false
eq_flip j k h = ground (arith, eq_iff j k, eq_iff k j)

above : (j k : String) → str_lt j k ≡ false → (j == k) ≡ false → str_lt k j ≡ true
above j k h g = ground (arith, str_lt_connex j k, eq_iff j k)

module _ {ℓ} {A : Type ℓ} where
  abbrev pub has_key : List (String × A) → String → Bool
  has_key m k = any (λ e. e.0 == k) m

  abbrev pub IsDistinct : List (String × A) → Type 0
  IsDistinct [] = Unit
  IsDistinct (e ∷ m) = (has_key m e.0 ≡ false) × IsDistinct m

  -- Each text is below the next one.
  abbrev pub IsStrict : List (String × A) → Type 0
  IsStrict [] = Unit
  IsStrict (e ∷ []) = Unit
  IsStrict (d ∷ e ∷ m) = (str_lt d.0 e.0 ≡ true) × IsStrict (e ∷ m)

  has_key-insert_by_key :
      (k j : String) (v : A) (m : List (String × A))
      → has_key (insert_by_key (k, v) m) j ≡ ((k == j) || has_key m j)
  unfolding insert_by_key
  has_key-insert_by_key k j v [] = refl
  has_key-insert_by_key k j v ((i, w) ∷ m) = ground (arith, has_key-insert_by_key k j v m)

  pub has_key-sort_by_key :
      (m : List (String × A)) (j : String) → has_key (sort_by_key m) j ≡ has_key m j
  unfolding sort_by_key
  has_key-sort_by_key [] j = refl
  has_key-sort_by_key ((k, v) ∷ m) j =
      has_key-insert_by_key k j v (sort_by_key m)
      ∙ ap (λ b. (k == j) || b) (has_key-sort_by_key m j)

  insert_by_key-IsDistinct :
      (k : String) (v : A) (m : List (String × A))
      → has_key m k ≡ false
      → IsDistinct m
      → IsDistinct (insert_by_key (k, v) m)
  unfolding insert_by_key
  insert_by_key-IsDistinct k v [] h d = (refl, tt)
  insert_by_key-IsDistinct k v ((j, w) ∷ m) h d =
      let parts = either_true (j == k) (has_key m k) h in
      elim (Bool-cases (str_lt j k)) [
        | inl e ↦ rw e (
          has_key-insert_by_key k j v m ∙ neither (k == j) (has_key m j) (eq_flip j k parts.0) d.0,
          insert_by_key-IsDistinct k v m parts.1 d.1,
        )
        | inr e ↦ rw e (h, d)
      ]

  pub sort_by_key-IsDistinct : (m : List (String × A)) → IsDistinct m → IsDistinct (sort_by_key m)
  unfolding sort_by_key
  sort_by_key-IsDistinct [] d = tt
  sort_by_key-IsDistinct ((k, v) ∷ m) d =
      insert_by_key-IsDistinct k v (sort_by_key m) (has_key-sort_by_key m k ∙ d.0)
        (sort_by_key-IsDistinct m d.1)

  insert_by_key-IsStrict :
      (k : String) (v : A) (m : List (String × A))
      → has_key m k ≡ false
      → IsStrict m
      → IsStrict (insert_by_key (k, v) m)
  unfolding insert_by_key
  insert_by_key-IsStrict k v [] h s = tt
  insert_by_key-IsStrict k v ((j, w) ∷ []) h s =
      let parts = either_true (j == k) false h in
      elim (Bool-cases (str_lt j k)) [
        | inl e ↦ rw e (e, tt)
        | inr e ↦ rw e (above j k e parts.0, tt)
      ]
  insert_by_key-IsStrict k v ((j, w) ∷ (i, u) ∷ m) h s =
      let parts = either_true (j == k) (has_key ((i, u) ∷ m) k) h in
      let rest = insert_by_key-IsStrict k v ((i, u) ∷ m) parts.1 s.1 in
      elim (Bool-cases (str_lt j k)) [
        | inl e ↦ elim (Bool-cases (str_lt i k)) [
          | inl d ↦ rw (e, d) (s.0, rw d at rest)
          | inr d ↦ rw (e, d) (e, (above i k d (either_true (i == k) (has_key m k) parts.1).0, s.1))
        ]
        | inr e ↦ rw e (above j k e parts.0, s)
      ]

  pub sort_by_key-IsStrict : (m : List (String × A)) → IsDistinct m → IsStrict (sort_by_key m)
  unfolding sort_by_key
  sort_by_key-IsStrict [] d = tt
  sort_by_key-IsStrict ((k, v) ∷ m) d =
      insert_by_key-IsStrict k v (sort_by_key m) (has_key-sort_by_key m k ∙ d.0)
        (sort_by_key-IsStrict m d.1)

-- A new key goes to the end.
insert_new :
    (k : String) (v : Value) (m : List (String × Value))
    → has_key m k ≡ false
    → ImMap.insert (of_pairs m) k v ≡ of_pairs (m ++ (k, v) ∷ [])
unfolding ImMap.insert
insert_new k v [] h = refl
insert_new k v ((j, w) ∷ m) h =
    let parts = either_true (j == k) (has_key m k) h in
    rw parts.0 (ap (entry j w) (insert_new k v m parts.1))

has_key-append :
    (m n : List (String × Value)) (k : String) → has_key (m ++ n) k ≡ (has_key m k || has_key n k)
has_key-append [] n k = refl
has_key-append (e ∷ m) n k = ground (arith, has_key-append m n k)

fresh :
    (m n : List (String × Value)) (e : String × Value)
    → IsDistinct (m ++ e ∷ n)
    → has_key m e.0 ≡ false
fresh [] n e d = refl
fresh (c ∷ m) n e d =
    let later =
      (either_true (has_key m c.0) (has_key (e ∷ n) c.0)
        (sym (has_key-append m (e ∷ n) c.0) ∙ d.0)).1 in
    neither (c.0 == e.0) (has_key m e.0)
      (eq_flip e.0 c.0 (either_true (e.0 == c.0) (has_key n c.0) later).0) (fresh m n e d.1)

append_one {ℓ} : {A : Type ℓ} (m n : List A) (e : A) → (m ++ e ∷ []) ++ n ≡ m ++ e ∷ n
append_one [] n e = refl
append_one (c ∷ m) n e = ap (λ r. c ∷ r) (append_one m n e)

append_nil {ℓ} : {A : Type ℓ} (m : List A) → m ++ [] ≡ m
append_nil [] = refl
append_nil (e ∷ m) = ap (λ r. e ∷ r) (append_nil m)

insert_all-append :
    (m n : List (String × Value))
    → IsDistinct (m ++ n)
    → ImMap.insert_all (of_pairs m) n ≡ of_pairs (m ++ n)
unfolding ImMap.insert_all
insert_all-append m [] d = ap of_pairs (sym (append_nil m))
insert_all-append m ((k, v) ∷ n) d =
    let one = append_one m n (k, v) in
    rw (insert_new k v m (fresh m n (k, v) d))
      (insert_all-append (m ++ (k, v) ∷ []) n (subst IsDistinct (sym one) d) ∙ ap of_pairs one)

-- The map built from pairs with distinct keys holds them in their order.
pub insert_all-of_pairs :
    (m : List (String × Value)) → IsDistinct m → ImMap.insert_all end m ≡ of_pairs m
insert_all-of_pairs m d = insert_all-append [] m d

ne_keys : (j k : String) → (j == k) ≡ false → k ≢ j
ne_keys j k h e = ground (arith, eq_iff j k)

entries_same : (m : List (String × Value)) → SameEntries (of_pairs m) (of_pairs m)
entries_same [] = no_entries
entries_same ((k, v) ∷ m) = keep same (entries_same m)

insert_by_key-SameEntries :
    (k : String) (v : Value) (m : List (String × Value))
    → has_key m k ≡ false
    → SameEntries (of_pairs (insert_by_key (k, v) m)) (entry k v (of_pairs m))
unfolding insert_by_key
insert_by_key-SameEntries k v [] h = keep same no_entries
insert_by_key-SameEntries k v ((j, w) ∷ m) h =
    let parts = either_true (j == k) (has_key m k) h in
    elim (Bool-cases (str_lt j k)) [
      | inl e ↦ rw e (
          steps (keep same (insert_by_key-SameEntries k v m parts.1))
            (swap (ne_keys k j (eq_flip j k parts.0))))
      | inr e ↦ rw e (entries_same ((k, v) ∷ (j, w) ∷ m))
    ]

-- Sorted pairs make the same map up to order.
pub sort_by_key-SameEntries :
    (m : List (String × Value)) → IsDistinct m → SameEntries (of_pairs (sort_by_key m)) (of_pairs m)
unfolding sort_by_key
sort_by_key-SameEntries [] d = no_entries
sort_by_key-SameEntries ((k, v) ∷ m) d =
    steps (insert_by_key-SameEntries k v (sort_by_key m) (has_key-sort_by_key m k ∙ d.0))
      (keep same (sort_by_key-SameEntries m d.1))
