-- ===== src/Deterministic/Encode.antt =====
-- The canonical bytes of a value, `value_to_bytes` of crates/tcb/src/deterministic.rs, with the
-- standard library's fixed-width integers, UTF-8 and sort that it uses.
use evorule_tcb.Prelude.{
  ℕ, zero, suc, ◌+◌, ◌/◌, ◌%◌, String, ◌≡◌, refl, true, List, [], ◌∷◌, ◌++◌, ltb, if◌then◌else◌,
  length, bits64, str_lt,
}
use evorule_tcb.Value.Data.{
  Value, null, bool, integer, float, string, list, object, bytes, Entries, end, entry, to_list,
  pairs,
}
use evorule_tcb.Value.ImMap
use Prim.Native.Char.{code}
use Prim.Native.String

-- `n.to_le_bytes()` and `n.to_be_bytes()` of an integer of `k` bytes.
unfoldable pub le_bytes : ℕ → ℕ → List ℕ
le_bytes zero n = []
le_bytes (suc k) n = (n % 256) ∷ le_bytes k (n / 256)

unfoldable pub be_bytes : ℕ → ℕ → List ℕ
be_bytes zero n = []
be_bytes (suc k) n = be_bytes k (n / 256) ++ (n % 256) ∷ []

-- The UTF-8 of a character, by its number.
unfoldable pub utf8 : ℕ → List ℕ
utf8 c =
    if ltb c 128
    then c ∷ []
    else if ltb c 2048
    then (192 + c / 64) ∷ (128 + c % 64) ∷ []
    else if ltb c 65536
    then (224 + c / 4096) ∷ (128 + c / 64 % 64) ∷ (128 + c % 64) ∷ []
    else (240 + c / 262144) ∷ (128 + c / 4096 % 64) ∷ (128 + c / 64 % 64) ∷ (128 + c % 64) ∷ []

-- `s.as_bytes()`
unfoldable pub as_bytes : String → List ℕ
unfolding utf8
as_bytes String.[] = []
as_bytes (String.◌∷◌ c s) = utf8 (code c) ++ as_bytes s

-- `entries.sort_by(|a, b| a.0.cmp(b.0))`, a stable sort.
module _ {ℓ} {A : Type ℓ} where
  unfoldable pub insert_by_key : String × A → List (String × A) → List (String × A)
  insert_by_key (k, v) [] = (k, v) ∷ []
  insert_by_key (k, v) ((j, w) ∷ m) =
      let rest = insert_by_key (k, v) m in if str_lt j k then (j, w) ∷ rest else (k, v) ∷ (j, w) ∷ m

  unfoldable pub sort_by_key : List (String × A) → List (String × A)
  unfolding insert_by_key
  sort_by_key [] = []
  sort_by_key (e ∷ m) = insert_by_key e (sort_by_key m)

-- `m.iter_sorted()`
unfoldable pub iter_sorted : Entries → List (String × Value)
unfolding sort_by_key
iter_sorted m = sort_by_key (pairs m)

abbrev pub concat_map {ℓ κ} : {A : Type ℓ} {B : Type κ} → (A → List B) → List A → List B
concat_map f [] = []
concat_map f (x ∷ xs) = f x ++ concat_map f xs

-- A text behind its length in bytes.
unfoldable pub text_bytes : String → List ℕ
unfolding be_bytes as_bytes
text_bytes s = be_bytes 8 (String.len s) ++ as_bytes s

unfoldable pub entry_bytes : (Value → List ℕ) → String × Value → List ℕ
unfolding text_bytes
entry_bytes encode (k, v) = text_bytes k ++ encode v

abbrev pub max_hash_depth : ℕ
max_hash_depth = 128

-- The first argument counts the levels that are left, `MAX_HASH_DEPTH + 1 - depth`.
unfoldable pub value_to_bytes_inner : ℕ → Value → List ℕ
unfolding le_bytes be_bytes text_bytes as_bytes entry_bytes iter_sorted ImMap.len
value_to_bytes_inner zero v = 7 ∷ []
value_to_bytes_inner (suc f) null = 0 ∷ []
value_to_bytes_inner (suc f) (bool b) = 1 ∷ (if b then 1 else 0) ∷ []
value_to_bytes_inner (suc f) (integer i) = 2 ∷ le_bytes 8 (bits64 i)
value_to_bytes_inner (suc f) (float x) = 3 ∷ le_bytes 8 x
value_to_bytes_inner (suc f) (string s) = 4 ∷ text_bytes s
value_to_bytes_inner (suc f) (list v) =
    5 ∷ be_bytes 8 (length (to_list v)) ++ concat_map (value_to_bytes_inner f) (to_list v)
value_to_bytes_inner (suc f) (object m) =
    6 ∷ be_bytes 8 (ImMap.len m)
    ++ concat_map (entry_bytes (value_to_bytes_inner f)) (iter_sorted m)
value_to_bytes_inner (suc f) (bytes b) = 8 ∷ be_bytes 8 (length b) ++ b

unfoldable pub value_to_bytes : Value → List ℕ
unfolding value_to_bytes_inner
value_to_bytes = value_to_bytes_inner (max_hash_depth + 1)

object_bytes :
    value_to_bytes (object (entry "b" null (entry "a" (bool true) end)))
    ≡ 6 ∷ 0 ∷ 0 ∷ 0 ∷ 0 ∷ 0 ∷ 0 ∷ 0 ∷ 2 ∷ 0 ∷ 0 ∷ 0 ∷ 0 ∷ 0 ∷ 0 ∷ 0 ∷ 1 ∷ 97 ∷ 1 ∷ 1 ∷ 0 ∷ 0 ∷ 0 ∷ 0
      ∷ 0 ∷ 0 ∷ 0 ∷ 1 ∷ 98 ∷ 0 ∷ []
unfolding value_to_bytes
object_bytes = refl
