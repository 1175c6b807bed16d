-- ===== src/Deterministic/Random/Shuffle.antt =====
-- Shuffling permutes and never panics; a choice is an item, crates/tcb/src/deterministic.rs.
use evorule_tcb.Prelude.{
  ℕ, zero, suc, ◌+◌, ◌-◌, ◌%◌, ◌<◌, ◌≡◌, refl, ap, ◌∙◌, subst, ◌≢◌, inl, inr, Bool, true, false,
  some, List, [], ◌∷◌, arith, nat_eq, nat_eq_iff, Bool-cases, length, get_elem?, length-set,
}
use evorule_tcb.Prelude.Lists.{set, get_elem?-set_self}
use evorule_tcb.Deterministic.Random.{
  DeterministicRng, next_u64, choice, swap, shuffle_with, shuffle_from, shuffle,
}

abbrev one_if : Bool → ℕ
one_if true = 1
one_if false = 0

abbrev pub count {ℓ} : {A : Type ℓ} → (A → Bool) → List A → ℕ
count p [] = 0
count p (x ∷ xs) = one_if (p x) + count p xs

module _ {ℓ} {A : Type ℓ} where
  get_elem?-some : (xs : List A) (i : ℕ) → i < length xs → (x : A) × (get_elem? xs i ≡ some x)
  get_elem?-some [] i h = absurd (omega arith)
  get_elem?-some (x ∷ xs) zero h = (x, refl)
  get_elem?-some (x ∷ xs) (suc i) h = get_elem?-some xs i (omega arith)

  count-set :
      (p : A → Bool) (xs : List A) (i : ℕ) (a v : A)
      → get_elem? xs i ≡ some a
      → count p (set xs i v) + one_if (p a) ≡ count p xs + one_if (p v)
  count-set p [] i a v h = cc
  count-set p (x ∷ xs) zero a v h =
      let same : x ≡ a = cc in omega (arith, ap (λ y. one_if (p y)) same)
  count-set p (x ∷ xs) (suc i) a v h = omega (arith, count-set p xs i a v h)

  get_elem?-set :
      (xs : List A) (i j : ℕ) (v : A) → i ≢ j → get_elem? (set xs i v) j ≡ get_elem? xs j
  get_elem?-set [] i j v h = refl
  get_elem?-set (x ∷ xs) zero zero v h = absurd (h refl)
  get_elem?-set (x ∷ xs) zero (suc j) v h = refl
  get_elem?-set (x ∷ xs) (suc i) zero v h = refl
  get_elem?-set (x ∷ xs) (suc i) (suc j) v h = get_elem?-set xs i j v (λ e. h (ap suc e))

  -- A list with the same items as often.
  abbrev pub SameItems : List A → List A → Type ℓ
  SameItems xs ys = (length xs ≡ length ys) × ((p : A → Bool) → count p xs ≡ count p ys)

  -- After the first write of a swap the second position still holds its item.
  still_there :
      (xs : List A) (i j : ℕ) (a b : A)
      → get_elem? xs i ≡ some a
      → get_elem? xs j ≡ some b
      → i < length xs
      → get_elem? (set xs i b) j ≡ some b
  still_there xs i j a b ha hb hi = elim (Bool-cases (nat_eq i j)) [
    | inl e ↦
        subst (λ k. get_elem? (set xs i b) k ≡ some b) ((nat_eq_iff i j).0 e)
          (get_elem?-set_self xs i b hi)
    | inr e ↦ get_elem?-set xs i j b (λ h. cc ((nat_eq_iff i j).1 h, e)) ∙ hb
  ]

  count_swapped :
      (p : A → Bool) (xs : List A) (i j : ℕ) (a b : A)
      → get_elem? xs i ≡ some a
      → get_elem? xs j ≡ some b
      → i < length xs
      → count p (set (set xs i b) j a) ≡ count p xs
  count_swapped p xs i j a b ha hb hi =
      let first = count-set p xs i a b ha in
      let second = count-set p (set xs i b) j b a (still_there xs i j a b ha hb hi) in
      omega (arith, first, second)

  swap_lem :
      (xs : List A) (i j : ℕ)
      → i < length xs
      → j < length xs
      → (ys : List A) × (swap xs i j ≡ some ys) × SameItems ys xs
  unfolding swap
  swap_lem xs i j hi hj =
      let (a, ha) = get_elem?-some xs i hi in
      let (b, hb) = get_elem?-some xs j hj in
      (
        set (set xs i b) j a,
        rw (ha, hb) refl,
        (length-set (set xs i b) j a ∙ length-set xs i b, λ p. count_swapped p xs i j a b ha hb hi),
      )

  shuffle_from_lem :
      (i : ℕ) (xs : List A) (g : DeterministicRng)
      → i < length xs
      → (ys : List A) × (g' : DeterministicRng) × (shuffle_from i xs g ≡ some (ys, g'))
        × SameItems ys xs
  unfolding shuffle_from
  shuffle_from_lem zero xs g h = (xs, g, refl, (refl, λ p. refl))
  shuffle_from_lem (suc i) xs g h =
      let drawn = next_u64 g in
      let once = swap_lem xs (suc i) (drawn.0 % (suc i + 1)) h (omega arith) in
      let rest = shuffle_from_lem i once.0 drawn.1 (omega (arith, once.2.0)) in
      (
        rest.0,
        rest.1,
        ap (λ o. shuffle_with (shuffle_from i) o drawn.1) once.1 ∙ rest.2,
        (rest.3.0 ∙ once.2.0, λ p. rest.3.1 p ∙ once.2.1 p),
      )

  -- `shuffle` never panics, and the list that it leaves has the length of the old one and holds each
  -- item as often.
  pub shuffle_lem :
      (xs : List A) (g : DeterministicRng)
      → (ys : List A) × (g' : DeterministicRng) × (shuffle xs g ≡ some (ys, g'))
        × (length ys ≡ length xs)
        × ((p : A → Bool) → count p ys ≡ count p xs)
  unfolding shuffle shuffle_from
  shuffle_lem [] g = ([], g, refl, refl, λ p. refl)
  shuffle_lem (x ∷ xs) g =
      let r = shuffle_from_lem (length (x ∷ xs) - 1) (x ∷ xs) g (omega arith) in
      (r.0, r.1, r.2, r.3.0, r.3.1)

  -- From a list that is not empty `choice` returns an item of it.
  pub choice_lem :
      (x : A) (xs : List A) (g : DeterministicRng)
      → (i : ℕ) × (y : A) × (i < length (x ∷ xs))
        × (get_elem? (x ∷ xs) i ≡ some y)
        × ((choice g (x ∷ xs)).0 ≡ some y)
  unfolding choice
  choice_lem x xs g =
      let i = (next_u64 g).0 % length (x ∷ xs) in
      let small : i < length (x ∷ xs) = omega arith in
      let (y, h) = get_elem?-some (x ∷ xs) i small in (i, y, small, h, h)
