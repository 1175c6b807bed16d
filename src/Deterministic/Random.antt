-- ===== src/Deterministic/Random.antt =====
-- The logical clock and the random numbers of crates/tcb/src/deterministic.rs. A method that takes
-- `&mut self` returns the new value too; arithmetic wraps around, as in a release build.
pub mod Bounds
pub mod Shuffle
use evorule_tcb.Prelude.{
  ℕ, zero, suc, ◌+◌, ◌-◌, ◌*◌, ◌/◌, ◌%◌, ◌^◌, String, not, Option, none, some, List, [], ◌∷◌,
  nat_eq, if◌then◌else◌, and_then, unwrap_or, length, get_elem?, ℤ, pos, ◌+ℤ◌, ◌-ℤ◌, ltb_ℤ, bits64,
  of_bits64,
}
use evorule_tcb.Value.Data.{Value, integer, object, end, entry}
use evorule_tcb.Value.ImMap
use Prim.Native.String
use evorule_tcb.Platform.{Floats}
use evorule_tcb.Value.Accessors
use evorule_tcb.Value.Accessors.{as_integer}
use evorule_tcb.Deterministic.Encode.{as_bytes}
use evorule_tcb.Prelude.Lists.{set}
use evorule_tcb.Prelude.Int.{wrap_i64}

pub record LogicalClock : Type 0 where
  pub tick_count : ℕ

unfoldable pub from_tick : ℕ → LogicalClock
from_tick n = record { tick_count = n }

unfoldable pub tick : LogicalClock → ℕ × LogicalClock
tick c = (c.tick_count, record { tick_count = (c.tick_count + 1) % 2 ^ 64 })

unfoldable pub reset : LogicalClock → LogicalClock
reset c = record c { tick_count = 0 }

unfoldable pub state : LogicalClock → Value
state c = object (entry "tick_count" (integer (of_bits64 c.tick_count)) end)

unfoldable pub from_state : Value → LogicalClock
unfolding Accessors.get as_integer from_tick ImMap.get
from_state v =
    from_tick (bits64 (unwrap_or (and_then (Accessors.get v "tick_count") as_integer) (pos 0)))

pub record DeterministicRng : Type 0 where
  pub state : ℕ

unfoldable pub new : ℕ → DeterministicRng
new seed = record { state = if nat_eq seed 0 then 1 else seed }

abbrev pub fold_bytes : ℕ → List ℕ → ℕ
fold_bytes acc [] = acc
fold_bytes acc (b ∷ bs) = fold_bytes ((acc * 31 + b) % 2 ^ 64) bs

unfoldable pub from_content_hash : String → DeterministicRng
unfolding new as_bytes
from_content_hash hash = new (fold_bytes 0 (as_bytes hash))

unfoldable pub next_u64 : DeterministicRng → ℕ × DeterministicRng
next_u64 g =
    let s = (g.state * 6364136223846793005 + 1442695040888963407) % 2 ^ 64 in
    (s, record { state = s })

module _ (F : Floats) where
  -- The top 53 bits over 2^53; both fit an `i64`.
  unfoldable pub random : DeterministicRng → ℕ × DeterministicRng
  unfolding next_u64
  random g =
      let drawn = next_u64 g in
      (F.num_div (F.of_i64 (pos (drawn.0 / 2 ^ 11))) (F.of_i64 (pos (2 ^ 53))), drawn.1)

-- `(max - min + 1) as u64`
unfoldable pub range_of : ℤ → ℤ → ℕ
range_of min max = bits64 (wrap_i64 (wrap_i64 (max -ℤ min) +ℤ pos 1))

-- `min + k as i64`
unfoldable pub offset : ℤ → ℕ → ℤ
offset min k = wrap_i64 (min +ℤ of_bits64 k)

-- It panics, `none`, on a remainder by a range of 0.
unfoldable pub randint : DeterministicRng → ℤ → ℤ → Option (ℤ × DeterministicRng)
unfolding next_u64 range_of offset
randint g min max =
    if not (ltb_ℤ min max)
    then some (min, g)
    else (let range = range_of min max in
        let drawn = next_u64 g in
        if nat_eq range 0 then none else some (offset min (drawn.0 % range), drawn.1))

module _ {ℓ} {A : Type ℓ} where
  unfoldable pub choice : DeterministicRng → List A → Option A × DeterministicRng
  unfolding next_u64
  choice g [] = (none, g)
  choice g (x ∷ xs) =
      let drawn = next_u64 g in (get_elem? (x ∷ xs) (drawn.0 % length (x ∷ xs)), drawn.1)

  abbrev pub exchange : List A → ℕ → ℕ → Option A → Option A → Option (List A)
  exchange items i j (some a) (some b) = some (set (set items i b) j a)
  exchange items i j (some a) none = none
  exchange items i j none o = none

  -- `items.swap(i, j)`; it panics, `none`, out of bounds.
  unfoldable pub swap : List A → ℕ → ℕ → Option (List A)
  swap items i j = exchange items i j (get_elem? items i) (get_elem? items j)

  abbrev pub shuffle_with :
      (List A → DeterministicRng → Option (List A × DeterministicRng))
      → Option (List A)
      → DeterministicRng
      → Option (List A × DeterministicRng)
  shuffle_with rest none g = none
  shuffle_with rest (some items) g = rest items g

  -- The loop from `i` down to 1.
  unfoldable pub shuffle_from : ℕ → List A → DeterministicRng → Option (List A × DeterministicRng)
  unfolding next_u64 swap
  shuffle_from zero items g = some (items, g)
  shuffle_from (suc i) items g =
      let drawn = next_u64 g in
      shuffle_with (shuffle_from i) (swap items (suc i) (drawn.0 % (suc i + 1))) drawn.1

  unfoldable pub shuffle : List A → DeterministicRng → Option (List A × DeterministicRng)
  unfolding shuffle_from
  shuffle items g = shuffle_from (length items - 1) items g
