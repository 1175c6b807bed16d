-- ===== src/Deterministic/Random/Bounds.antt =====
-- The random integers are within their bounds, crates/tcb/src/deterministic.rs.
use evorule_tcb.Prelude.{
  ℕ, ◌+◌, ◌-◌, ◌%◌, ◌^◌, ◌≤◌, ◌<◌, ◌≡◌, refl, inl, inr, true, none, some, arith, Bool-cases, ℤ,
  pos_part, neg_part, ◌+ℤ◌, ◌-ℤ◌, ◌≤ℤ◌, ltb_ℤ, i64_max, i64_min, IsI64,
}
use evorule_tcb.Deterministic.Random.{DeterministicRng, next_u64, range_of, offset, randint}

-- How far one integer is above another.
abbrev pub distance : ℤ → ℤ → ℕ
distance min max = pos_part max + neg_part min - (pos_part min + neg_part max)

range_of_lem :
    (min max : ℤ)
    → IsI64 min
    → IsI64 max
    → ltb_ℤ min max ≡ true
    → distance min max + 1 < 2 ^ 64
    → range_of min max ≡ distance min max + 1
unfolding range_of ◌-ℤ◌ ◌+ℤ◌
range_of_lem min max hmin hmax lt small = ground arith

offset-within :
    (min max : ℤ) (k : ℕ)
    → IsI64 min
    → IsI64 max
    → ltb_ℤ min max ≡ true
    → k ≤ distance min max
    → (min ≤ℤ offset min k) × (offset min k ≤ℤ max)
unfolding offset ◌+ℤ◌
offset-within min max k hmin hmax lt le = ground arith

-- `randint` with bounds that are in order and not both those of `i64` returns a number between the
-- bounds, in whatever state the generator is.
pub randint_lem :
    (g : DeterministicRng) (min max : ℤ)
    → IsI64 min
    → IsI64 max
    → min ≤ℤ max
    → distance min max + 1 < 2 ^ 64
    → (n : ℤ) × (g' : DeterministicRng) × (randint g min max ≡ some (n, g'))
      × (min ≤ℤ n)
      × (n ≤ℤ max)
unfolding randint
randint_lem g min max hmin hmax le small = elim (Bool-cases (ltb_ℤ min max)) [
  | inl lt ↦
      let d = distance min max in
      let drawn = next_u64 g in
      let k_le : drawn.0 % (d + 1) ≤ d = omega arith in
      let within = offset-within min max (drawn.0 % (d + 1)) hmin hmax lt k_le in
      (
        offset min (drawn.0 % (d + 1)),
        drawn.1,
        rw (lt, range_of_lem min max hmin hmax lt small) (ground arith),
        within.0,
        within.1,
      )
  | inr ge ↦ (min, g, rw ge refl, omega arith, le)
]

-- With the least and the greatest `i64` as bounds `randint` panics.
pub randint_full_range : (g : DeterministicRng) → randint g i64_min i64_max ≡ none
unfolding randint range_of ◌-ℤ◌ ◌+ℤ◌
randint_full_range g = refl
