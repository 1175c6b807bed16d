-- ===== src/State/SetPath/Advances.antt =====
-- Each step of `set_path`, crates/tcb/src/state.rs, makes at most one version, gives no error, and ends but
-- for the index `usize::MAX`.
use evorule_tcb.Prelude.{
  ℕ, String, ◌≡◌, refl, ap, ◌⊎◌, inl, inr, Bool, true, false, not, Option, none, some, List, [],
  ◌∷◌, arith, ltb, nat_eq, Bool-cases, Option-cases, length, any, ◌||◌, ◌∙◌, get_elem?,
}
use evorule_tcb.Value.Data.{Value, list, object, Items, nil, to_list}
use evorule_tcb.Value.ImMap
use evorule_tcb.Error.{ok, err}
use evorule_tcb.State.{State, next_version, empty, from_im_map, set, to_value}
use evorule_tcb.State.Run.{Run, ◌>>!◌}
use evorule_tcb.State.Path.{parse_usize}
use evorule_tcb.State.SetPath.{
  usize_max, padded, put_at, store_padded, put_padded, set_padded, set_under, set_only, only_list,
  list_keys, set_in_list, into_list, into_missing, descend, element_state, set_at_index,
  set_array_element_by_index, set_path_recursive,
}

abbrev pub is_usize_max : Option ℕ → Bool
is_usize_max none = false
is_usize_max (some i) = nat_eq i usize_max

-- A part is the index `usize::MAX`.
abbrev pub names_max : List String → Bool
names_max parts = any (λ part. is_usize_max (parse_usize part)) parts

-- The write succeeded, with at most one new version, or it never ends, for which there is the reason.
abbrev pub Advances : Bool → State → Run → Type 0
Advances endless s none = endless ≡ true
Advances endless s (some (ok s')) = (s'.version ≡ s.version) ⊎ (s'.version ≡ next_version s)
Advances endless s (some (err e)) = ⊥

abbrev Keeps : Bool → (State → Run) → Type 0
Keeps endless below = (sub : State) → Advances endless sub (below sub)

padded-none : (v : List Value) (i : ℕ) → padded v i ≡ none → nat_eq i usize_max ≡ true
unfolding padded
padded-none v i h = ground arith

module _ (endless : Bool) (s : State) (key : String) where
  pub Advances-put : (v : Value) → Advances endless s (some (ok (set s key v)))
  unfolding set
  Advances-put v = inr refl

  Advances-set :
      (sub : State) (m : Run) (f : State → Value)
      → Advances endless sub m
      → Advances endless s (m >>! λ t. some (ok (set s key (f t))))
  Advances-set sub none f h = h
  Advances-set sub (some (ok t)) f h = Advances-put (f t)
  Advances-set sub (some (err e)) f h = absurd h

  store_padded-Advances :
      (i : ℕ) (value : Value) (o : Option (List Value))
      → (o ≡ none → endless ≡ true)
      → Advances endless s (store_padded s key i value o)
  unfolding store_padded
  store_padded-Advances i value none h = h refl
  store_padded-Advances i value (some v) h = Advances-put (put_at i value v)

  set_padded-Advances :
      (below_next : State → Run) (i : ℕ) (more : Bool) (value : Value) (o : Option (List Value))
      → (o ≡ none → endless ≡ true)
      → Keeps endless below_next
      → Advances endless s (set_padded below_next s key i more value o)
  set_padded-Advances below_next i more value none h k = h refl
  set_padded-Advances below_next i false value (some v) h k = Advances-put (put_at i value v)
  set_padded-Advances below_next i true value (some v) h k =
      let sub = element_state (get_elem? v i) in
      Advances-set sub (below_next sub) (λ t. put_at i (to_value t) v) (k sub)

  -- The index that is met is the reason if it is `usize::MAX`.
  abbrev Reason : Option ℕ → Type 0
  Reason o = is_usize_max o ≡ true → endless ≡ true

  set_in_list-Advances :
      (below_next : State → Run) (v : Items) (i : ℕ) (more : Bool) (value : Value)
      → Reason (some i)
      → Keeps endless below_next
      → Advances endless s (set_in_list below_next s key v i more value)
  unfolding set_in_list
  set_in_list-Advances below_next v i more value r k =
      set_padded-Advances below_next i more value (padded (to_list v) i)
        (λ e. r (padded-none (to_list v) i e)) k

  into_list-Advances :
      (below_next : State → Run) (v : Items) (more : Bool) (value : Value) (o : Option ℕ)
      → Reason o
      → Keeps endless below_next
      → Advances endless s (into_list below_next s key v more value o)
  unfolding into_list
  into_list-Advances below_next v more value none r k = inl refl
  into_list-Advances below_next v more value (some i) r k =
      set_in_list-Advances below_next v i more value r k

  into_missing-Advances :
      (below below_next : State → Run) (more : Bool) (value : Value) (o : Option ℕ)
      → Reason o
      → Keeps endless below
      → Keeps endless below_next
      → Advances endless s (into_missing below below_next s key more value o)
  unfolding into_missing
  into_missing-Advances below below_next more value none r h k =
      Advances-set empty (below empty) to_value (h empty)
  into_missing-Advances below below_next more value (some i) r h k =
      set_in_list-Advances below_next nil i more value r k

  descend-Advances :
      (below below_next : State → Run) (next : String) (more : Bool) (value : Value)
      (o : Option Value)
      → Reason (parse_usize next)
      → Keeps endless below
      → Keeps endless below_next
      → Advances endless s (descend below below_next s key next more value o)
  unfolding descend
  descend-Advances below below_next next more value (some (object m)) r h k =
      Advances-set (from_im_map m) (below (from_im_map m)) to_value (h (from_im_map m))
  descend-Advances below below_next next more value (some (list v)) r h k =
      into_list-Advances below_next v more value (parse_usize next) r k
  descend-Advances below below_next next more value _ r h k =
      into_missing-Advances below below_next more value (parse_usize next) r h k

  only_list-Advances :
      (i : ℕ) (value : Value) (o : Option (List Value))
      → (o ≡ none → endless ≡ true)
      → Advances endless s (only_list s key i value o)
  only_list-Advances i value none h = h refl
  only_list-Advances i value (some v) h = inr refl

  set_under-Advances :
      (i : ℕ) (value : Value) (is_last : Bool) (o : Option Value)
      → Reason (some i)
      → Advances endless s (set_under s key i value is_last o)
  unfolding put_padded
  set_under-Advances i value is_last (some (list v)) r =
      elim (Bool-cases (ltb i (length (to_list v)) || is_last)) [
        | inl e ↦
            rw (e, Advances)
              (store_padded-Advances i value (padded (to_list v) i)
                (λ p. r (padded-none (to_list v) i p)))
        | inr e ↦ rw (e, Advances) (inl refl)
      ]
  set_under-Advances i value is_last none r = inl refl
  set_under-Advances i value is_last (some _) r = inl refl

set_only-Advances :
    (endless : Bool) (s : State) (i : ℕ) (value : Value) (is_last : Bool) (keys : List String)
    → Reason endless s "" (some i)
    → Advances endless s (set_only s i value is_last keys)
unfolding set_only
set_only-Advances endless s i value is_last [] r = inl refl
set_only-Advances endless s i value is_last (key ∷ []) r =
    set_under-Advances endless s key i value is_last (ImMap.get s.data_map key) r
set_only-Advances endless s i value is_last (key ∷ other ∷ keys) r = inl refl

set_at_index-Advances :
    (endless : Bool) (s : State) (key : String) (i : ℕ) (value : Value) (is_last : Bool)
    → Reason endless s key (some i)
    → Advances endless s (set_at_index s key i value is_last)
unfolding set_at_index set_array_element_by_index
set_at_index-Advances endless s key i value is_last r =
    elim (Bool-cases (nat_eq (ImMap.len s.data_map) 0)) [
      | inl e ↦
          rw (e, Advances)
            (only_list-Advances endless s key i value (padded [] i) (λ p. r (padded-none [] i p)))
      | inr e ↦
          rw (e, Advances) (set_only-Advances endless s i value is_last (list_keys s.data_map) r)
    ]

or_left : (a b : Bool) → a ≡ true → (a || b) ≡ true
or_left a b h = ground arith

or_right : (a b : Bool) → b ≡ true → (a || b) ≡ true
or_right a b h = ground arith

-- The recursion succeeds or never ends.
pub set_path_recursive-Advances :
    (endless : Bool) (parts : List String) (s : State) (value : Value)
    → (names_max parts ≡ true → endless ≡ true)
    → Advances endless s (set_path_recursive s parts value)
unfolding set_path_recursive
set_path_recursive-Advances endless [] s value r = inl refl
set_path_recursive-Advances endless (key ∷ []) s value r = elim (Option-cases (parse_usize key)) [
  | inl e ↦ rw (e, set_path_recursive) (Advances-put endless s key value)
  | inr (i, e) ↦
      let here = λ (h : nat_eq i usize_max ≡ true).
        r (or_left (is_usize_max (parse_usize key)) false (ap is_usize_max e ∙ h)) in
      rw (e, set_path_recursive) (set_at_index-Advances endless s key i value true here)
]
set_path_recursive-Advances endless (key ∷ next ∷ rest) s value r =
    let here = is_usize_max (parse_usize key) in
    let after = is_usize_max (parse_usize next) in
    let later =
      λ (h : names_max (next ∷ rest) ≡ true). r (or_right here (names_max (next ∷ rest)) h) in
    let below =
      λ (sub : State). set_path_recursive-Advances endless (next ∷ rest) sub value later in
    let below_next = λ (sub : State).
      set_path_recursive-Advances endless rest sub value
        (λ h. later (or_right after (names_max rest) h)) in
    elim (Option-cases (parse_usize key)) [
      | inl e ↦
          rw (e, set_path_recursive)
            (descend-Advances endless s key (λ sub. set_path_recursive sub (next ∷ rest) value)
              (λ sub. set_path_recursive sub rest value) next (not (nat_eq (length rest) 0)) value
              (ImMap.get s.data_map key) (λ h. later (or_left after (names_max rest) h)) below
              below_next)
      | inr (i, e) ↦
          rw (e, set_path_recursive)
            (set_at_index-Advances endless s key i value false
              (λ h. r (or_left here (names_max (next ∷ rest)) (ap is_usize_max e ∙ h))))
    ]
