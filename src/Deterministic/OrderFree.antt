-- ===== src/Deterministic/OrderFree.antt =====
-- The order in which a map iterates does not reach the bytes that are hashed: `iter_sorted` of
-- crates/tcb/src/value.rs under `value_to_bytes` of crates/tcb/src/deterministic.rs.
use evorule_tcb.Prelude.{
  ℕ, zero, suc, String, ◌≡◌, refl, sym, ap, ◌∙◌, ◌≢◌, List, [], ◌∷◌, ◌++◌, map, arith, length,
  str_lt_trans, str_lt_asymm, str_lt_connex,
}
use evorule_tcb.Value.Data.{
  Value, list, object, Items, nil, cons, Entries, end, entry, to_list, pairs,
}
use evorule_tcb.Value.ImMap
use evorule_tcb.Deterministic.Encode.{
  be_bytes, text_bytes, entry_bytes, insert_by_key, sort_by_key, iter_sorted, concat_map,
  value_to_bytes_inner, value_to_bytes,
}

-- Two values that differ in the order of the entries of their maps, at any depth.
mutual
  pub data SameUpToOrder : Value → Value → Type 0 where
    same : {v : Value} → SameUpToOrder v v
    lists : {v w : Items} → SameItems v w → SameUpToOrder (list v) (list w)
    objects : {m n : Entries} → SameEntries m n → SameUpToOrder (object m) (object n)

  pub data SameItems : Items → Items → Type 0 where
    no_items : SameItems nil nil
    items :
        {v w : Value} {xs ys : Items}
        → SameUpToOrder v w
        → SameItems xs ys
        → SameItems (cons v xs) (cons w ys)

  pub data SameEntries : Entries → Entries → Type 0 where
    no_entries : SameEntries end end
    keep :
        {k : String} {v w : Value} {m n : Entries}
        → SameUpToOrder v w
        → SameEntries m n
        → SameEntries (entry k v m) (entry k w n)
    swap :
        {k j : String} {v w : Value} {m : Entries}
        → k ≢ j
        → SameEntries (entry k v (entry j w m)) (entry j w (entry k v m))
    steps : {l m n : Entries} → SameEntries l m → SameEntries m n → SameEntries l n

module _ {ℓ} {A : Type ℓ} where
  insert_by_key-insert_by_key :
      (k j : String) (v w : A) (m : List (String × A))
      → k ≢ j
      → insert_by_key (k, v) (insert_by_key (j, w) m)
        ≡ insert_by_key (j, w) (insert_by_key (k, v) m)
  unfolding insert_by_key
  insert_by_key-insert_by_key k j v w [] h = ground (arith, str_lt_asymm k j, str_lt_connex k j)
  insert_by_key-insert_by_key k j v w ((i, u) ∷ m) h = ground (
    arith,
    str_lt_asymm k j,
    str_lt_connex k j,
    str_lt_trans i j k,
    str_lt_trans i k j,
    insert_by_key-insert_by_key k j v w m h,
  )

module _ {ℓ κ} {A : Type ℓ} {B : Type κ} (g : A → B) where
  abbrev pub second : String × A → String × B
  second e = (e.0, g e.1)

  map-insert_by_key :
      (k : String) (v : A) (m : List (String × A))
      → map second (insert_by_key (k, v) m) ≡ insert_by_key (k, g v) (map second m)
  unfolding insert_by_key
  map-insert_by_key k v [] = refl
  map-insert_by_key k v ((j, w) ∷ m) = ground (arith, map-insert_by_key k v m)

  pub map-sort_by_key :
      (m : List (String × A)) → map second (sort_by_key m) ≡ sort_by_key (map second m)
  unfolding sort_by_key
  map-sort_by_key [] = refl
  map-sort_by_key ((k, v) ∷ m) =
      map-insert_by_key k v (sort_by_key m) ∙ ap (insert_by_key (k, g v)) (map-sort_by_key m)

abbrev keyed_bytes : String × List ℕ → List ℕ
keyed_bytes e = text_bytes e.0 ++ e.1

concat_map-entry_bytes :
    (g : Value → List ℕ) (m : List (String × Value))
    → concat_map (entry_bytes g) m ≡ concat_map keyed_bytes (map (second g) m)
unfolding entry_bytes
concat_map-entry_bytes g [] = refl
concat_map-entry_bytes g ((k, v) ∷ m) =
    ap (λ r. (text_bytes k ++ g v) ++ r) (concat_map-entry_bytes g m)

-- The bytes of a map's entries, by way of the encoded entries sorted.
entries_bytes_lem :
    (g : Value → List ℕ) (m : Entries)
    → concat_map (entry_bytes g) (iter_sorted m)
      ≡ concat_map keyed_bytes (sort_by_key (map (second g) (pairs m)))
unfolding iter_sorted
entries_bytes_lem g m =
    concat_map-entry_bytes g (sort_by_key (pairs m))
    ∙ ap (concat_map keyed_bytes) (map-sort_by_key g (pairs m))

len-SameEntries : {m n : Entries} → SameEntries m n → ImMap.len m ≡ ImMap.len n
unfolding ImMap.len
len-SameEntries no_entries = refl
len-SameEntries (keep s t) = ap suc (len-SameEntries t)
len-SameEntries (swap h) = refl
len-SameEntries (steps s t) = len-SameEntries s ∙ len-SameEntries t

length-SameItems : {v w : Items} → SameItems v w → length (to_list v) ≡ length (to_list w)
length-SameItems no_items = refl
length-SameItems (items s t) = ap suc (length-SameItems t)

module _ (g : Value → List ℕ) (same_bytes : (v w : Value) → SameUpToOrder v w → g v ≡ g w) where
  sorted-SameEntries :
      {m n : Entries}
      → SameEntries m n
      → sort_by_key (map (second g) (pairs m)) ≡ sort_by_key (map (second g) (pairs n))
  unfolding sort_by_key
  sorted-SameEntries no_entries = refl
  sorted-SameEntries (keep {k} {v} {w} s t) =
      λ i. insert_by_key (k, same_bytes v w s i) (sorted-SameEntries t i)
  sorted-SameEntries (swap {k} {j} {v} {w} {m} h) =
      insert_by_key-insert_by_key k j (g v) (g w) (sort_by_key (map (second g) (pairs m))) h
  sorted-SameEntries (steps s t) = sorted-SameEntries s ∙ sorted-SameEntries t

  bytes-SameItems :
      {v w : Items} → SameItems v w → concat_map g (to_list v) ≡ concat_map g (to_list w)
  bytes-SameItems no_items = refl
  bytes-SameItems (items {v} {w} s t) = λ i. same_bytes v w s i ++ bytes-SameItems t i

same_bytes :
    (f : ℕ) (v w : Value) → SameUpToOrder v w → value_to_bytes_inner f v ≡ value_to_bytes_inner f w
unfolding value_to_bytes_inner
same_bytes zero v w s = refl
same_bytes (suc f) v w same = refl
same_bytes (suc f) v w (lists {v = xs} {w = ys} s) = λ i.
    5 ∷ be_bytes 8 (length-SameItems s i)
    ++ bytes-SameItems (value_to_bytes_inner f) (same_bytes f) s i
same_bytes (suc f) v w (objects {m} {n} s) =
    let g = value_to_bytes_inner f in
    let rest =
      entries_bytes_lem g m
      ∙ ap (concat_map keyed_bytes) (sorted-SameEntries g (same_bytes f) s)
      ∙ sym (entries_bytes_lem g n) in
    λ i. 6 ∷ be_bytes 8 (len-SameEntries s i) ++ rest i

-- Maps that iterate in another order, at any depth, give the same bytes.
pub value_to_bytes-SameUpToOrder :
    (v w : Value) → SameUpToOrder v w → value_to_bytes v ≡ value_to_bytes w
unfolding value_to_bytes
value_to_bytes-SameUpToOrder = same_bytes 129
