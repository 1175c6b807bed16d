-- ===== src/State/SetPath/Laws.antt =====
-- The outcomes of `State::set_path`, crates/tcb/src/state.rs: an error, a state, or no end.
use evorule_tcb.Prelude.{
  ℕ, ◌≤◌, ◌<◌, String, ◌≡◌, refl, ap, ◌⊎◌, inl, inr, Bool, true, false, none, some, List, [], ◌∷◌,
  arith, ◌==◌, eq_iff, ltb, Bool-cases, length,
}
use evorule_tcb.Value.Data.{Value}
use evorule_tcb.Error.{path_depth_exceeded, ok, err}
use evorule_tcb.State.{State, next_version, max_path_depth}
use evorule_tcb.State.Run.{Run}
use native.Mathlib.Decide.{dec_lt}
use evorule_tcb.State.Path.{split_path}
use evorule_tcb.State.SetPath.{set_parts, set_path}
use evorule_tcb.State.SetPath.Advances.{
  names_max, Advances, Advances-put, set_path_recursive-Advances,
}

abbrev pub parts_count : String → ℕ
parts_count path = length (split_path path)

abbrev pub names_usize_max : String → Bool
names_usize_max path = names_max (split_path path)

set_parts-Advances :
    (s : State) (parts : List String) (value : Value)
    → length parts ≤ max_path_depth
    → Advances (names_max parts) s (set_parts s parts value)
set_parts-Advances s [] value h = inl refl
set_parts-Advances s (part ∷ []) value h = Advances-put (names_max (part ∷ [])) s part value
set_parts-Advances s (part ∷ next ∷ rest) value h =
    let deep : ltb max_path_depth (length (part ∷ next ∷ rest)) ≡ false = ground arith in
    let parts = part ∷ next ∷ rest in
    rw (deep, set_parts) (set_path_recursive-Advances (names_max parts) parts s value (λ e. e))

set_path-Advances :
    (s : State) (path : String) (value : Value)
    → parts_count path ≤ max_path_depth
    → Advances (names_usize_max path) s (set_path s path value)
unfolding set_path
set_path-Advances s path value h = elim (Bool-cases (path == "")) [
  | inl e ↦ rw (e, Advances) (Advances-put (names_usize_max path) s "" value)
  | inr e ↦ rw (e, Advances) (set_parts-Advances s (split_path path) value h)
]

-- A write that succeeds, with at most one new version.
abbrev pub Succeeds : State → Run → Type 0
Succeeds s m =
    (s' : State) × (m ≡ some (ok s')) × ((s'.version ≡ s.version) ⊎ (s'.version ≡ next_version s))

Advances-cases :
    (endless : Bool) (s : State) (m : Run)
    → Advances endless s m
    → Succeeds s m ⊎ ((m ≡ none) × (endless ≡ true))
Advances-cases endless s none h = inr (refl, h)
Advances-cases endless s (some (ok s')) h = inl (s', refl, h)
Advances-cases endless s (some (err e)) h = absurd h

set_parts_too_deep :
    (s : State) (parts : List String) (value : Value)
    → max_path_depth < length parts
    → set_parts s parts value ≡ some (err (path_depth_exceeded (length parts) max_path_depth))
set_parts_too_deep s [] value h = absurd (omega arith)
set_parts_too_deep s (part ∷ []) value h = absurd (omega arith)
set_parts_too_deep s (part ∷ next ∷ rest) value h = ground arith

parts_count_empty : parts_count "" ≡ 0
unfolding split_path
parts_count_empty = refl

set_path_too_deep :
    (s : State) (path : String) (value : Value)
    → max_path_depth < parts_count path
    → set_path s path value ≡ some (err (path_depth_exceeded (parts_count path) max_path_depth))
unfolding set_path
set_path_too_deep s path value h = elim (Bool-cases (path == "")) [
  | inl e ↦ absurd (omega (arith, parts_count_empty, ap parts_count ((eq_iff path "").0 e)))
  | inr e ↦ rw e (set_parts_too_deep s (split_path path) value h)
]

-- A path of more than 64 parts gives `path_depth_exceeded`. A write to any other path gives no error: it
-- gives a state of the same version or the next one, or else a part of the path is the index
-- `usize::MAX` and the padding of a list never ends.
pub set_path_outcome :
    (s : State) (path : String) (value : Value)
    → ((max_path_depth < parts_count path)
        × (set_path s path value
            ≡ some (err (path_depth_exceeded (parts_count path) max_path_depth))))
      ⊎ ((parts_count path ≤ max_path_depth)
          × (Succeeds s (set_path s path value)
              ⊎ ((set_path s path value ≡ none) × (names_usize_max path ≡ true))))
set_path_outcome s path value = elim (dec_lt max_path_depth (parts_count path)) [
  | yes h ↦ inl (h, set_path_too_deep s path value h)
  | no h ↦
      let small : parts_count path ≤ max_path_depth = omega arith in
      inr (
        small,
        Advances-cases (names_usize_max path) s (set_path s path value)
            (set_path-Advances s path value small),
      )
]
