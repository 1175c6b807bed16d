-- ===== src/Primitive/ComputeOps/Sets.antt =====
-- The set operations on lists of texts, crates/tcb/src/primitive/compute_ops.rs: their members and
-- the order of their results.
use evorule_tcb.Prelude.{
  String, ◌≡◌, refl, ap, ◌∙◌, inl, inr, Bool, true, false, not, ◌&&◌, ◌||◌, List, [], ◌∷◌, ◌++◌,
  arith, ◌==◌, eq_iff, Bool-cases, str_lt, str_lt_asymm,
}
use evorule_tcb.Primitive.ComputeOps.{
  contains_text, insert_text, sort_texts, filter_texts, distinct, intersection, difference, union,
}

-- In the order of texts; a text may stand more than once.
abbrev pub IsSorted : List String → Type 0
IsSorted [] = Unit
IsSorted (t ∷ []) = Unit
IsSorted (t ∷ u ∷ ts) = (str_lt u t ≡ false) × IsSorted (u ∷ ts)

pub contains_text-insert_text :
    (t u : String) (ts : List String)
    → contains_text (insert_text t ts) u ≡ contains_text (t ∷ ts) u
unfolding insert_text
contains_text-insert_text t u [] = refl
contains_text-insert_text t u (x ∷ ts) = ground (arith, contains_text-insert_text t u ts)

pub contains_text-sort_texts :
    (ts : List String) (u : String) → contains_text (sort_texts ts) u ≡ contains_text ts u
unfolding sort_texts
contains_text-sort_texts [] u = refl
contains_text-sort_texts (t ∷ ts) u =
    ground (arith, contains_text-insert_text t u (sort_texts ts), contains_text-sort_texts ts u)

pub contains_text-distinct :
    (ts : List String) (u : String) → contains_text (distinct ts) u ≡ contains_text ts u
unfolding distinct
contains_text-distinct [] u = refl
contains_text-distinct (t ∷ ts) u =
    ground (arith, contains_text-distinct ts u, contains_text-distinct ts t, eq_iff t u)

pub contains_text-append :
    (ts us : List String) (u : String)
    → contains_text (ts ++ us) u ≡ (contains_text ts u || contains_text us u)
contains_text-append [] us u = refl
contains_text-append (t ∷ ts) us u = ground (arith, contains_text-append ts us u)

same_test : (p : String → Bool) (t u : String) → (t == u) ≡ true → p t ≡ p u
same_test p t u h = ap p ((eq_iff t u).0 h)

contains_text-filter_texts :
    (p : String → Bool) (ts : List String) (u : String)
    → contains_text (filter_texts p ts) u ≡ (contains_text ts u && p u)
contains_text-filter_texts p [] u = refl
contains_text-filter_texts p (t ∷ ts) u =
    ground (arith, contains_text-filter_texts p ts u, same_test p t u)

and_swap : (b c : Bool) → (b && c) ≡ (c && b)
and_swap b c = ground arith

insert_text-IsSorted : (t : String) (ts : List String) → IsSorted ts → IsSorted (insert_text t ts)
unfolding insert_text
insert_text-IsSorted t [] h = tt
insert_text-IsSorted t (u ∷ []) h = elim (Bool-cases (str_lt u t)) [
  | inl e ↦ rw e (str_lt_asymm u t e, tt)
  | inr e ↦ rw e (e, tt)
]
insert_text-IsSorted t (u ∷ v ∷ ts) h =
    let rest = insert_text-IsSorted t (v ∷ ts) h.1 in
    elim (Bool-cases (str_lt u t)) [
      | inl e ↦ elim (Bool-cases (str_lt v t)) [
        | inl d ↦ rw (e, d) (h.0, rw d at rest)
        | inr d ↦ rw (e, d) (str_lt_asymm u t e, (d, h.1))
      ]
      | inr e ↦ rw e (e, h)
    ]

sort_texts-IsSorted : (ts : List String) → IsSorted (sort_texts ts)
unfolding sort_texts
sort_texts-IsSorted [] = tt
sort_texts-IsSorted (t ∷ ts) = insert_text-IsSorted t (sort_texts ts) (sort_texts-IsSorted ts)

-- The intersection, the difference and the union of two lists of texts are in order and have exactly
-- the members of the sets that they are named for.
pub set_operations_lem :
    (a b : List String)
    → (IsSorted (intersection a b) × IsSorted (difference a b) × IsSorted (union a b))
      × ((t : String)
          → (contains_text (intersection a b) t ≡ (contains_text a t && contains_text b t))
            × (contains_text (difference a b) t ≡ (contains_text a t && not (contains_text b t)))
            × (contains_text (union a b) t ≡ (contains_text a t || contains_text b t)))
unfolding intersection difference union
set_operations_lem a b =
    let shared = filter_texts (contains_text a) b in
    let only = filter_texts (λ t. not (contains_text b t)) a in
    (
      (
        sort_texts-IsSorted shared,
        sort_texts-IsSorted only,
        sort_texts-IsSorted (distinct (a ++ b)),
      ),
      λ t. (
        contains_text-sort_texts shared t
            ∙ contains_text-filter_texts (contains_text a) b t
            ∙ and_swap (contains_text b t) (contains_text a t),
        contains_text-sort_texts only t
            ∙ contains_text-filter_texts (λ u. not (contains_text b u)) a t,
        contains_text-sort_texts (distinct (a ++ b)) t
            ∙ contains_text-distinct (a ++ b) t
            ∙ contains_text-append a b t,
      ),
    )
