-- ===== src/Deterministic/Injective.antt =====
-- The bytes that are hashed determine the value, up to the order in which its maps iterate and down
-- to the depth at which the encoder stops.
use evorule_tcb.Prelude.{
  ℕ, zero, suc, ◌+◌, ◌^◌, ◌<◌, String, ◌≡◌, refl, sym, ap, ◌∙◌, ◌≢◌, inl, inr, Bool, List, [], ◌∷◌,
  ◌++◌, map, arith, if◌then◌else◌, Bool-cases, length, IsI64, bits64, str_lt,
}
use evorule_tcb.Value.Data.{
  Value, null, bool, integer, float, string, list, object, bytes, Items, nil, cons, Entries, end,
  entry, to_list, of_list, pairs, of_pairs,
}
use evorule_tcb.Value.ImMap
use Prim.Native.String
use mathlib.Core.List.{append_assoc}
use evorule_tcb.Deterministic.Encode.{
  be_bytes, text_bytes, entry_bytes, insert_by_key, sort_by_key, iter_sorted, concat_map,
  value_to_bytes_inner, value_to_bytes, max_hash_depth,
}
use evorule_tcb.Deterministic.Bytes.{
  append_split, le_bytes_8-injective, be_bytes_8-injective, text_bytes-injective,
}
use evorule_tcb.Prelude.Int.{bits64-lt, bits64-injective}

abbrev pub All {ℓ κ} : {A : Type ℓ} → (A → Type κ) → List A → Type κ
All P [] = Unit
All P (x ∷ xs) = P x × All P xs

-- The numbers fit their machine types: what every value of the program satisfies.
abbrev mutual
  pub IsWire : Value → Type 0
  IsWire (integer i) = IsI64 i
  IsWire (float x) = x < 2 ^ 64
  IsWire (string s) = String.len s < 2 ^ 64
  IsWire (list v) = (length (to_list v) < 2 ^ 64) × ItemsAreWire v
  IsWire (object m) = (ImMap.len m < 2 ^ 64) × EntriesAreWire m
  IsWire (bytes b) = length b < 2 ^ 64
  IsWire _ = Unit

  pub ItemsAreWire : Items → Type 0
  ItemsAreWire nil = Unit
  ItemsAreWire (cons x xs) = IsWire x × ItemsAreWire xs

  pub EntriesAreWire : Entries → Type 0
  EntriesAreWire end = Unit
  EntriesAreWire (entry k v m) = (String.len k < 2 ^ 64) × IsWire v × EntriesAreWire m

-- What the encoder sees of a value: each map in the order of its keys, and nothing below the level
-- at which it stops.
unfoldable pub canonical : ℕ → Value → Value
unfolding iter_sorted
canonical zero v = null
canonical (suc f) (list v) = list (of_list (map (canonical f) (to_list v)))
canonical (suc f) (object m) =
    let seen = canonical f in object (of_pairs (map (λ e. (e.0, seen e.1)) (iter_sorted m)))
canonical (suc f) v = v

abbrev EntryIsWire : String × Value → Type 0
EntryIsWire e = (String.len e.0 < 2 ^ 64) × IsWire e.1

All-to_list : (v : Items) → ItemsAreWire v → All IsWire (to_list v)
All-to_list nil h = tt
All-to_list (cons x xs) h = (h.0, All-to_list xs h.1)

All-pairs : (m : Entries) → EntriesAreWire m → All EntryIsWire (pairs m)
All-pairs end h = tt
All-pairs (entry k v m) h = ((h.0, h.1), All-pairs m h.2)

module _ {ℓ κ} {A : Type ℓ} (P : String × A → Type κ) where
  All-insert_by_key :
      (k : String) (v : A) (m : List (String × A))
      → P (k, v)
      → All P m
      → All P (insert_by_key (k, v) m)
  unfolding insert_by_key
  All-insert_by_key k v [] p h = (p, tt)
  All-insert_by_key k v ((j, w) ∷ m) p h = elim (Bool-cases (str_lt j k)) [
    | inl e ↦ rw e (h.0, All-insert_by_key k v m p h.1)
    | inr e ↦ rw e (p, h)
  ]

  All-sort_by_key : (m : List (String × A)) → All P m → All P (sort_by_key m)
  unfolding sort_by_key
  All-sort_by_key [] h = tt
  All-sort_by_key ((k, v) ∷ m) h = All-insert_by_key k v (sort_by_key m) h.0 (All-sort_by_key m h.1)

module _ {ℓ} {A : Type ℓ} where
  length-insert_by_key :
      (k : String) (v : A) (m : List (String × A))
      → length (insert_by_key (k, v) m) ≡ suc (length m)
  unfolding insert_by_key
  length-insert_by_key k v [] = refl
  length-insert_by_key k v ((j, w) ∷ m) = ground (arith, length-insert_by_key k v m)

  pub length-sort_by_key : (m : List (String × A)) → length (sort_by_key m) ≡ length m
  unfolding sort_by_key
  length-sort_by_key [] = refl
  length-sort_by_key ((k, v) ∷ m) =
      omega (arith, length-insert_by_key k v (sort_by_key m), length-sort_by_key m)

length-pairs : (m : Entries) → length (pairs m) ≡ ImMap.len m
unfolding ImMap.len
length-pairs end = refl
length-pairs (entry k v m) = ap suc (length-pairs m)

length-iter_sorted : (m : Entries) → length (iter_sorted m) ≡ ImMap.len m
unfolding iter_sorted
length-iter_sorted m = length-sort_by_key (pairs m) ∙ length-pairs m

All-iter_sorted : (m : Entries) → EntriesAreWire m → All EntryIsWire (iter_sorted m)
unfolding iter_sorted
All-iter_sorted m h = All-sort_by_key EntryIsWire (pairs m) (All-pairs m h)

-- A concatenation of encodings that can each be read back can be read back.
concat_map-injective {ℓ κ μ} :
    {A : Type ℓ} {B : Type κ} (P : A → Type μ) (encode : A → List ℕ) (see : A → B)
    → ((x y : A) (r s : List ℕ)
        → P x
        → P y
        → encode x ++ r ≡ encode y ++ s
        → (see x ≡ see y) × (r ≡ s))
    → (xs ys : List A) (r s : List ℕ) → length xs ≡ length ys
    → All P xs
    → All P ys
    → concat_map encode xs ++ r ≡ concat_map encode ys ++ s
    → (map see xs ≡ map see ys) × (r ≡ s)
concat_map-injective P encode see each [] [] r s n hx hy h = (refl, h)
concat_map-injective P encode see each [] (y ∷ ys) r s n hx hy h = absurd (omega arith)
concat_map-injective P encode see each (x ∷ xs) [] r s n hx hy h = absurd (omega arith)
concat_map-injective P encode see each (x ∷ xs) (y ∷ ys) r s n hx hy h =
    let first = each x y (concat_map encode xs ++ r) (concat_map encode ys ++ s) hx.0 hy.0 (
      sym (append_assoc (encode x) (concat_map encode xs) r)
      ∙ h
      ∙ append_assoc (encode y) (concat_map encode ys) s) in
    let rest = concat_map-injective P encode see each xs ys r s (omega arith) hx.1 hy.1 first.1 in
    (λ i. first.0 i ∷ rest.0 i, rest.1)

bit-injective : (a b : Bool) → ◌≡◌ {A = ℕ} (if a then 1 else 0) (if b then 1 else 0) → a ≡ b
bit-injective a b h = ground arith

entry-injective :
    (encode : Value → List ℕ) (see : Value → Value)
    → ((v w : Value) (r s : List ℕ)
        → IsWire v
        → IsWire w
        → encode v ++ r ≡ encode w ++ s
        → (see v ≡ see w) × (r ≡ s))
    → (e d : String × Value) (r s : List ℕ) → EntryIsWire e
    → EntryIsWire d
    → entry_bytes encode e ++ r ≡ entry_bytes encode d ++ s
    → (◌≡◌ {A = String × Value} (e.0, see e.1) (d.0, see d.1)) × (r ≡ s)
unfolding entry_bytes
entry-injective encode see each (k, v) (j, w) r s he hd h =
    let keys = text_bytes-injective k j (encode v ++ r) (encode w ++ s) he.0 hd.0 (
      sym (append_assoc (text_bytes k) (encode v) r)
      ∙ h
      ∙ append_assoc (text_bytes j) (encode w) s) in
    let values = each v w r s he.1 hd.1 keys.1 in (λ i. (keys.0 i, values.0 i), values.1)

-- A list of bytes behind a count.
counted-injective :
    (n m : ℕ) (xs ys r s : List ℕ)
    → n < 2 ^ 64
    → m < 2 ^ 64
    → (be_bytes 8 n ++ xs) ++ r ≡ (be_bytes 8 m ++ ys) ++ s
    → (n ≡ m) × (xs ++ r ≡ ys ++ s)
counted-injective n m xs ys r s hn hm h =
    be_bytes_8-injective n m (xs ++ r) (ys ++ s) hn hm
      (sym (append_assoc (be_bytes 8 n) xs r) ∙ h ∙ append_assoc (be_bytes 8 m) ys s)

value_to_bytes_inner-injective :
    (f : ℕ) (v w : Value) (r s : List ℕ)
    → IsWire v
    → IsWire w
    → value_to_bytes_inner f v ++ r ≡ value_to_bytes_inner f w ++ s
    → (canonical f v ≡ canonical f w) × (r ≡ s)
unfolding value_to_bytes_inner canonical
value_to_bytes_inner-injective zero v w r s hv hw h = (refl, cc)
value_to_bytes_inner-injective (suc f) null null r s hv hw h = (refl, cc)
value_to_bytes_inner-injective (suc f) (bool a) (bool b) r s hv hw h =
    (ap bool (bit-injective a b (cc)), cc)
value_to_bytes_inner-injective (suc f) (integer a) (integer b) r s hv hw h =
    let both =
      le_bytes_8-injective (bits64 a) (bits64 b) r s (bits64-lt a hv) (bits64-lt b hw) (cc) in
    (ap integer (bits64-injective a b hv hw both.0), both.1)
value_to_bytes_inner-injective (suc f) (float a) (float b) r s hv hw h =
    let both = le_bytes_8-injective a b r s hv hw (cc) in (ap float both.0, both.1)
value_to_bytes_inner-injective (suc f) (string t) (string u) r s hv hw h =
    let both = text_bytes-injective t u r s hv hw (cc) in (ap string both.0, both.1)
value_to_bytes_inner-injective (suc f) (list a) (list b) r s hv hw h =
    let split = value_to_bytes_inner-injective f in
    let counted =
      counted-injective (length (to_list a)) (length (to_list b))
        (concat_map (value_to_bytes_inner f) (to_list a))
        (concat_map (value_to_bytes_inner f) (to_list b)) r s hv.0 hw.0 (cc) in
    let both =
      concat_map-injective IsWire (value_to_bytes_inner f) (canonical f) split (to_list a)
        (to_list b) r s counted.0 (All-to_list a hv.1) (All-to_list b hw.1) counted.1 in
    (ap (λ l. list (of_list l)) both.0, both.1)
value_to_bytes_inner-injective (suc f) (object a) (object b) r s hv hw h =
    let split =
      entry-injective (value_to_bytes_inner f) (canonical f) (value_to_bytes_inner-injective f) in
    let counted =
      counted-injective (ImMap.len a) (ImMap.len b)
        (concat_map (entry_bytes (value_to_bytes_inner f)) (iter_sorted a))
        (concat_map (entry_bytes (value_to_bytes_inner f)) (iter_sorted b)) r s hv.0 hw.0 (cc) in
    let both =
      concat_map-injective EntryIsWire (entry_bytes (value_to_bytes_inner f))
        (λ e. (e.0, canonical f e.1)) split (iter_sorted a) (iter_sorted b) r s
        (omega (arith, length-iter_sorted a, length-iter_sorted b, counted.0))
        (All-iter_sorted a hv.1) (All-iter_sorted b hw.1) counted.1 in
    (ap (λ m. object (of_pairs m)) both.0, both.1)
value_to_bytes_inner-injective (suc f) (bytes a) (bytes b) r s hv hw h =
    let counted = counted-injective (length a) (length b) a b r s hv hw (cc) in
    let both = append_split a b counted.0 counted.1 in (ap bytes both.0, both.1)
value_to_bytes_inner-injective (suc f) v w r s hv hw h = ground arith

nil-ne-bytes : (f : ℕ) (v : Value) (r : List ℕ) → [] ≢ value_to_bytes_inner f v ++ r
unfolding value_to_bytes_inner
nil-ne-bytes zero v r h = cc
nil-ne-bytes (suc f) null r h = cc
nil-ne-bytes (suc f) (bool b) r h = cc
nil-ne-bytes (suc f) (list b) r h = cc
nil-ne-bytes (suc f) _ r h = cc

-- Two lists of values whose lengths and numbers fit their machine types and whose bytes under the
-- digest are the same are the same list of values, up to the order of the entries of their maps and
-- down to 128 levels of nesting.
pub hashed_bytes-injective :
    (vs ws : List Value)
    → All IsWire vs
    → All IsWire ws
    → concat_map value_to_bytes vs ≡ concat_map value_to_bytes ws
    → map (canonical (max_hash_depth + 1)) vs ≡ map (canonical (max_hash_depth + 1)) ws
unfolding value_to_bytes
hashed_bytes-injective [] [] hv hw h = refl
hashed_bytes-injective [] (w ∷ ws) hv hw h =
    absurd (nil-ne-bytes 129 w (concat_map value_to_bytes ws) h)
hashed_bytes-injective (v ∷ vs) [] hv hw h =
    absurd (nil-ne-bytes 129 v (concat_map value_to_bytes vs) (sym h))
hashed_bytes-injective (v ∷ vs) (w ∷ ws) hv hw h =
    let both =
      value_to_bytes_inner-injective 129 v w (concat_map value_to_bytes vs)
        (concat_map value_to_bytes ws) hv.0 hw.0 h in
    let rest = hashed_bytes-injective vs ws hv.1 hw.1 both.1 in λ i. both.0 i ∷ rest i
