-- ===== src/Witnesses/Randoms.antt =====
-- The theorems on random numbers on concrete inputs, crates/tcb/src/deterministic.rs.
use evorule_tcb.Prelude.{
  String, ◌≡◌, Bool, some, List, [], ◌∷◌, arith, length, ℤ, pos, negsuc, ◌≤ℤ◌,
}
use evorule_tcb.Deterministic.Random.{DeterministicRng, randint, shuffle}
use evorule_tcb.Deterministic.Random.Bounds.{randint_lem}
use evorule_tcb.Deterministic.Random.Shuffle.{count, shuffle_lem}

abbrev seeded : DeterministicRng
seeded = record { state = 42 }

randint_lem_example :
    (n : ℤ) × (g' : DeterministicRng) × (randint seeded (negsuc 4) (pos 5) ≡ some (n, g'))
    × (negsuc 4 ≤ℤ n)
    × (n ≤ℤ pos 5)
randint_lem_example =
    randint_lem seeded (negsuc 4) (pos 5) (omega arith) (omega arith) (omega arith) (omega arith)

abbrev letters : List String
letters = "a" ∷ "b" ∷ "c" ∷ []

shuffle_lem_example :
    (ys : List String) × (g' : DeterministicRng) × (shuffle letters seeded ≡ some (ys, g'))
    × (length ys ≡ 3)
    × ((p : String → Bool) → count p ys ≡ count p letters)
shuffle_lem_example = shuffle_lem letters seeded
