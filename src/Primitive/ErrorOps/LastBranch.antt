-- ===== src/Primitive/ErrorOps/LastBranch.antt =====
-- Which branch decides a field after a forced merge, crates/tcb/src/primitive/error_ops.rs.
use evorule_tcb.Prelude.{
  ℕ, ◌+◌, String, ◌≡◌, refl, sym, ap, ◌∙◌, subst, ◌≢◌, inl, inr, true, false, Option, none, some,
  List, [], ◌∷◌, ◌++◌, ◌⊎◌, Option-cases, if◌then◌else◌, Bool-cases,
}
use evorule_tcb.Value.Data.{Value}
use evorule_tcb.Platform.{Floats}
use evorule_tcb.State
use evorule_tcb.State.{State}
use evorule_tcb.Primitive.ErrorOps.{differs, write_of, last_write, force_merge}
use evorule_tcb.Primitive.ErrorOps.Merge.{is_merge_system_field, value_or, get-force_merge_value}

module _ (F : Floats) (s : State) (k : String) where
  -- A branch that leaves the field without a new value.
  abbrev pub Unchanged : State → Type 0
  unfolding State.get
  Unchanged r = (v : Value) → State.get r k ≡ some v → differs F (State.get s k) v ≡ false

  abbrev pub AllUnchanged : List State → Type 0
  AllUnchanged [] = Unit
  AllUnchanged (r ∷ rs) = Unchanged r × AllUnchanged rs

  -- The value of the field when the branches are merged.
  pub data Merged : List State → Option Value → Type 0 where
    system_field : (rs : List State) → is_merge_system_field k ≡ true → Merged rs (State.get s k)
    no_branch :
        (rs : List State)
        → is_merge_system_field k ≡ false
        → AllUnchanged rs
        → Merged rs (State.get s k)
    last_branch :
        (before after : List State) (r : State) (v : Value)
        → is_merge_system_field k ≡ false
        → State.get r k ≡ some v
        → differs F (State.get s k) v ≡ true
        → AllUnchanged after
        → Merged (before ++ r ∷ after) (some v)

  -- What `last_write` finds, from what was found before.
  data Written : List State → Option (Value × ℕ) → Option (Value × ℕ) → Type 0 where
    none_wrote :
        (rs : List State) (found : Option (Value × ℕ)) → AllUnchanged rs → Written rs found found
    wrote :
        (before after : List State) (r : State) (v : Value) (i : ℕ) (found : Option (Value × ℕ))
        → State.get r k ≡ some v
        → differs F (State.get s k) v ≡ true
        → AllUnchanged after
        → Written (before ++ r ∷ after) found (some (v, i))

  -- One branch writes, or it leaves what was found.
  abbrev Step : State → ℕ → (found next : Option (Value × ℕ)) → Type 0
  Step r i found next =
      (Unchanged r × (next ≡ found))
      ⊎ ((v : Value) × (State.get r k ≡ some v)
          × (differs F (State.get s k) v ≡ true)
          × (next ≡ some (v, i)))

  differs-Unchanged :
      (r : State) (v : Value)
      → differs F (State.get s k) v ≡ false
      → State.get r k ≡ some v
      → Unchanged r
  unfolding Unchanged
  differs-Unchanged r v d e w h =
      let same : v ≡ w = cc in subst (λ x. differs F (State.get s k) x ≡ false) same d

  write_of-Step :
      (r : State) (i : ℕ) (found : Option (Value × ℕ))
      → Step r i found (write_of F s k (State.get r k) i found)
  unfolding write_of
  write_of-Step r i found = elim (Option-cases (State.get r k)) [
    | inl e ↦ inl (λ v h. cc, rw e refl)
    | inr (v, e) ↦ elim (Bool-cases (differs F (State.get s k) v)) [
      | inl d ↦ inr (v, e, d, rw e (rw d refl))
      | inr d ↦ inl (differs-Unchanged r v d e, rw e (rw d refl))
    ]
  ]

  Written-Step :
      (r : State) (rs : List State) (i : ℕ) (found next result : Option (Value × ℕ))
      → Step r i found next
      → Written rs next result
      → Written (r ∷ rs) found result
  Written-Step r _ i found next _ (inl (u, e)) (none_wrote rs _ a) =
      subst (λ o. Written (r ∷ rs) found o) (sym e) (none_wrote (r ∷ rs) found (u, a))
  Written-Step r _ i found next _ (inr (v, g, d, e)) (none_wrote rs _ a) =
      subst (λ o. Written (r ∷ rs) found o) (sym e) (wrote [] rs r v i found g d a)
  Written-Step r _ i found next _ step (wrote before after q v j _ g d a) =
      wrote (r ∷ before) after q v j found g d a

  last_write-Written :
      (i : ℕ) (rs : List State) (found : Option (Value × ℕ))
      → Written rs found (last_write F s k i rs found)
  unfolding last_write
  last_write-Written i [] found = none_wrote [] found tt
  last_write-Written i (r ∷ rs) found =
      let next = write_of F s k (State.get r k) i found in
      Written-Step r rs i found next (last_write F s k (i + 1) rs next) (write_of-Step r i found)
        (last_write-Written (i + 1) rs next)

  Written-Merged :
      (rs : List State) (found result : Option (Value × ℕ))
      → is_merge_system_field k ≡ false
      → found ≡ none
      → Written rs found result
      → Merged rs (value_or result (State.get s k))
  Written-Merged _ found _ n e (none_wrote rs _ a) =
      subst (λ o. Merged rs (value_or o (State.get s k))) (sym e) (no_branch rs n a)
  Written-Merged _ found _ n e (wrote before after r v i _ g d a) =
      last_branch before after r v n g d a

  -- After a forced merge of the states of the branches, a field that is no system field has the value of
  -- the last branch that gave it a value other than the initial one, and its initial value if there is
  -- no such branch; a system field other than the provenance of the merge has its initial value.
  pub get-force_merge :
      (rs : List State)
      → "__parallel_provenance__" ≢ k
      → Merged rs (State.get (force_merge F s rs) k)
  get-force_merge rs n =
      let o = last_write F s k 0 rs none in
      let value = get-force_merge_value F s rs k n in
      elim (Bool-cases (is_merge_system_field k)) [
        | inl e ↦
            subst (Merged rs)
              (sym (value ∙ ap (λ b. if b then State.get s k else value_or o (State.get s k)) e))
              (system_field rs e)
        | inr e ↦
            subst (Merged rs)
              (sym (value ∙ ap (λ b. if b then State.get s k else value_or o (State.get s k)) e))
              (Written-Merged rs none o e refl (last_write-Written 0 rs none))
      ]
