-- ===== src/Control/Refs/Plain.antt =====
-- Values without references, and references that lead to themselves: `resolve_refs` of
-- crates/tcb/src/control/dispatch.rs.
use evorule_tcb.Prelude.{ℕ, zero, suc, ◌+◌, ◌≡◌, refl, ap, ◌∙◌, true, false}
use evorule_tcb.Value.Data.{
  Value, null, bool, integer, float, string, list, object, bytes, Items, nil, cons, Entries, end,
  entry,
}
use evorule_tcb.State.{State}
use evorule_tcb.Control.Refs.{
  max_ref_depth, resolve_path, is_single, map_items, map_entries, resolve_refs_inner, resolve_refs,
}

abbrev pub AllItems : (Value → Type 0) → Items → Type 0
AllItems P nil = Unit
AllItems P (cons v vs) = P v × AllItems P vs

abbrev pub AllEntries : (Value → Type 0) → Entries → Type 0
AllEntries P end = Unit
AllEntries P (entry k v m) = P v × AllEntries P m

-- Within a number of levels, without an object that is a reference.
abbrev pub HasNoRefs : ℕ → Value → Type 0
HasNoRefs zero v = ⊥
HasNoRefs (suc f) (object m) =
    (is_single m "$ref" ≡ false) × (is_single m "$pass" ≡ false) × AllEntries (HasNoRefs f) m
HasNoRefs (suc f) (list v) = AllItems (HasNoRefs f) v
HasNoRefs (suc f) v = Unit

module _ (f : Value → Value) (P : Value → Type 0) (fixed : (v : Value) → P v → f v ≡ v) where
  map_items-fixed : (v : Items) → AllItems P v → map_items f v ≡ v
  map_items-fixed nil h = refl
  map_items-fixed (cons v vs) h = λ i. cons (fixed v h.0 i) (map_items-fixed vs h.1 i)

  map_entries-fixed : (m : Entries) → AllEntries P m → map_entries f m ≡ m
  map_entries-fixed end h = refl
  map_entries-fixed (entry k v m) h = λ i. entry k (fixed v h.0 i) (map_entries-fixed m h.1 i)

fixed_within : (f : ℕ) (s : State) (v : Value) → HasNoRefs f v → resolve_refs_inner f s v ≡ v
unfolding resolve_refs_inner
fixed_within zero s v h = absurd h
fixed_within (suc f) s (object m) h =
    rw (h.0, h.1)
      (ap object
        (map_entries-fixed (resolve_refs_inner f s) (HasNoRefs f) (fixed_within f s) m h.2))
fixed_within (suc f) s (list v) h =
    ap list (map_items-fixed (resolve_refs_inner f s) (HasNoRefs f) (fixed_within f s) v h)
fixed_within (suc f) s null h = refl
fixed_within (suc f) s (bool b) h = refl
fixed_within (suc f) s (integer i) h = refl
fixed_within (suc f) s (float x) h = refl
fixed_within (suc f) s (string t) h = refl
fixed_within (suc f) s (bytes b) h = refl

-- A value of at most 65 levels in which no object is a reference is resolved to itself, whatever the
-- state is.
pub resolve_refs-HasNoRefs :
    (s : State) (v : Value) → HasNoRefs (max_ref_depth + 1) v → resolve_refs s v ≡ v
unfolding resolve_refs
resolve_refs-HasNoRefs s v h = fixed_within (max_ref_depth + 1) s v h

circular_within :
    (f : ℕ) (s : State) (m : Entries)
    → is_single m "$ref" ≡ true
    → resolve_path s (object m) ≡ object m
    → resolve_refs_inner f s (object m) ≡ null
unfolding resolve_refs_inner
circular_within zero s m h e = refl
circular_within (suc f) s m h e = rw h (ap (resolve_refs_inner f s) e ∙ circular_within f s m h e)

-- A reference that leads to itself becomes null.
pub circular_null :
    (s : State) (m : Entries)
    → is_single m "$ref" ≡ true
    → resolve_path s (object m) ≡ object m
    → resolve_refs s (object m) ≡ null
unfolding resolve_refs
circular_null s m h e = circular_within (max_ref_depth + 1) s m h e
