-- ===== src/Primitive/ErrorOps/Merge.antt =====
-- The forced merge of branches, crates/tcb/src/primitive/error_ops.rs: the value that is
-- written to each field.
use evorule_tcb.Prelude.{
  ℕ, ◌+◌, String, ◌≡◌, refl, sym, ap, ◌∙◌, subst, ◌≢◌, inl, inr, Bool, true, false, not, ◌&&◌, ◌||◌,
  Option, none, some, List, [], ◌∷◌, arith, ◌==◌, eq_iff, if◌then◌else◌, Bool-cases, length,
}
use evorule_tcb.Value.Data.{Value, object, Entries, end, entry}
use evorule_tcb.Value.ImMap
use evorule_tcb.Platform.{Floats}
use evorule_tcb.State
use evorule_tcb.State.{State}
use evorule_tcb.Primitive.ComputeOps.{distinct, contains_text}
use evorule_tcb.Primitive.ComputeOps.Sets.{
  contains_text-sort_texts, contains_text-distinct, contains_text-append,
}
use evorule_tcb.Primitive.ErrorOps.{
  merge_system_fields, differs, changed_in, changed_in_any, changed_keys, write_of, last_write,
  merge_field, merge_fields, with_provenance, force_merge,
}

abbrev pub is_merge_system_field : String → Bool
is_merge_system_field k = contains_text merge_system_fields k

abbrev pub value_or : Option (Value × ℕ) → Option Value → Option Value
value_or none old = old
value_or (some (v, branch_idx)) old = some v

contains_text-if :
    (b : Bool) (j k : String) (ts : List String)
    → contains_text (if b then j ∷ ts else ts) k ≡ ((b && (j == k)) || contains_text ts k)
contains_text-if true j k ts = ground arith
contains_text-if false j k ts = refl

-- An entry of a system field is left out, and another entry counts if it differs.
left_out : (b d e x : Bool) → (e ≡ true → b ≡ true) → x ≡ false → (((not b && d) && e) || x) ≡ false
left_out b d e x h n = ground arith

or_false : (x y : Bool) → (x || y) ≡ false → (x ≡ false) × (y ≡ false)
or_false x y h = ground arith

same_key : (p : String → Bool) (j k : String) (b : Bool) → (j == k) ≡ true → p k ≡ b → p j ≡ b
same_key p j k b h e = ap p ((eq_iff j k).0 h) ∙ e

once :
    (b c : Bool) (o found : Option (Value × ℕ)) (x y : Option Value)
    → (b ≡ true → o ≡ found)
    → y ≡ (if b then value_or o x else x)
    → (if c then value_or found y else y) ≡ (if b || c then value_or found x else x)
once true true o none x y h e = e ∙ ap (λ p. value_or p x) (h refl)
once true true o (some w) x y h e = refl
once true false o found x y h e = e ∙ ap (λ p. value_or p x) (h refl)
once false c o found x y h e = rw e refl

module _ (F : Floats) (s : State) where
  changed_in-system :
      (k : String) (m : Entries)
      → is_merge_system_field k ≡ true
      → contains_text (changed_in F s m) k ≡ false
  unfolding changed_in
  changed_in-system k end h = refl
  changed_in-system k (entry j v m) h =
      contains_text-if (not (is_merge_system_field j) && differs F (State.get s j) v) j k
        (changed_in F s m)
      ∙ left_out (is_merge_system_field j) (differs F (State.get s j) v) (j == k)
          (contains_text (changed_in F s m) k) (λ e. same_key is_merge_system_field j k true e h)
          (changed_in-system k m h)

  changed_in_any-system :
      (k : String) (rs : List State)
      → is_merge_system_field k ≡ true
      → contains_text (changed_in_any F s rs) k ≡ false
  changed_in_any-system k [] h = refl
  changed_in_any-system k (r ∷ rs) h =
      contains_text-append (changed_in F s r.data_map) (changed_in_any F s rs) k
      ∙ rw (changed_in-system k r.data_map h) (changed_in_any-system k rs h)

  counted : (b d e x : Bool) → b ≡ false → e ≡ true → (((not b && d) && e) || x) ≡ false → d ≡ false
  counted b d e x h p q = ground arith

  unchanged :
      (k : String) (m : Entries) (v : Value)
      → is_merge_system_field k ≡ false
      → contains_text (changed_in F s m) k ≡ false
      → ImMap.get m k ≡ some v
      → differs F (State.get s k) v ≡ false
  unfolding changed_in ImMap.get
  unchanged k end v n h e = cc
  unchanged k (entry j w m) v n h e =
      let b = is_merge_system_field j in
      let d = differs F (State.get s j) w in
      let split = sym (contains_text-if (not b && d) j k (changed_in F s m)) ∙ h in
      elim (Bool-cases (j == k)) [
        | inl p ↦
            let same : w ≡ v = ground arith in
            let here =
              counted b d (j == k) (contains_text (changed_in F s m) k)
                (same_key is_merge_system_field j k false p n) p split in
            subst (λ x. differs F (State.get s k) x ≡ false) same
              (subst (λ x. differs F (State.get s x) w ≡ false) ((eq_iff j k).0 p) here)
        | inr p ↦
            unchanged k m v n
              (or_false ((not b && d) && (j == k)) (contains_text (changed_in F s m) k) split).1
              (rw p at e)
      ]

  write_of-unchanged :
      (k : String) (o : Option Value) (branch_idx : ℕ) (found : Option (Value × ℕ))
      → ((v : Value) → o ≡ some v → differs F (State.get s k) v ≡ false)
      → write_of F s k o branch_idx found ≡ found
  unfolding write_of
  write_of-unchanged k none branch_idx found h = refl
  write_of-unchanged k (some v) branch_idx found h = rw (h v refl) refl

  last_write-unchanged :
      (k : String) (branch_idx : ℕ) (rs : List State) (found : Option (Value × ℕ))
      → is_merge_system_field k ≡ false
      → contains_text (changed_in_any F s rs) k ≡ false
      → last_write F s k branch_idx rs found ≡ found
  unfolding last_write State.get
  last_write-unchanged k branch_idx [] found n h = refl
  last_write-unchanged k branch_idx (r ∷ rs) found n h =
      let parts =
        or_false (contains_text (changed_in F s r.data_map) k)
          (contains_text (changed_in_any F s rs) k)
          (sym (contains_text-append (changed_in F s r.data_map) (changed_in_any F s rs) k) ∙ h) in
      last_write-unchanged k (branch_idx + 1) rs (write_of F s k (State.get r k) branch_idx found) n
        parts.1
      ∙ write_of-unchanged k (State.get r k) branch_idx found
          (λ v e. unchanged k r.data_map v n parts.0 e)

  get-merge_field :
      (j k : String) (n : ℕ) (o : Option (Value × ℕ)) (acc : State × Entries)
      → State.get (merge_field F j n o acc).0 k
        ≡ (if j == k then value_or o (State.get acc.0 k) else State.get acc.0 k)
  unfolding merge_field State.get State.set
  get-merge_field j k n none acc = ground arith
  get-merge_field j k n (some (v, i)) acc = ImMap.get-insert acc.0.data_map j k v

  -- A field in the list has the value of its last write.
  get-merge_fields :
      (rs : List State) (ks : List String) (acc : State × Entries) (k : String)
      → State.get (merge_fields F s rs ks acc).0 k ≡ (
          if contains_text ks k
          then value_or (last_write F s k 0 rs none) (State.get acc.0 k)
          else State.get acc.0 k)
  unfolding merge_fields
  get-merge_fields rs [] acc k = refl
  get-merge_fields rs (j ∷ ks) acc k =
      let o = last_write F s j 0 rs none in
      get-merge_fields rs ks (merge_field F j (length rs) o acc) k
      ∙ once (j == k) (contains_text ks k) o (last_write F s k 0 rs none) (State.get acc.0 k)
          (State.get (merge_field F j (length rs) o acc).0 k)
          (λ e. ap (λ x. last_write F s x 0 rs none) ((eq_iff j k).0 e))
          (get-merge_field j k (length rs) o acc)

  get-with_provenance :
      (p : State × Entries) (k : String)
      → "__parallel_provenance__" ≢ k
      → State.get (with_provenance F p) k ≡ State.get p.0 k
  unfolding with_provenance State.get State.set
  get-with_provenance (merged, end) k n = refl
  get-with_provenance (merged, entry j v m) k n =
      ImMap.get-insert_ne merged.data_map "__parallel_provenance__" k (object (entry j v m)) n

  contains_text-changed_keys :
      (rs : List State) (k : String)
      → contains_text (changed_keys F s rs) k ≡ contains_text (changed_in_any F s rs) k
  unfolding changed_keys
  contains_text-changed_keys rs k =
      contains_text-sort_texts (distinct (changed_in_any F s rs)) k
      ∙ contains_text-distinct (changed_in_any F s rs) k

  merged_value :
      (c : Bool) (o : Option (Value × ℕ)) (x : Option Value)
      → (c ≡ false → o ≡ none)
      → (if c then value_or o x else x) ≡ value_or o x
  merged_value true o x h = refl
  merged_value false o x h = rw (h refl) refl

  -- The value of a field is the one of its last write.
  pub get-force_merge_value :
      (rs : List State) (k : String)
      → "__parallel_provenance__" ≢ k
      → State.get (force_merge F s rs) k ≡ (
          if is_merge_system_field k
          then State.get s k
          else value_or (last_write F s k 0 rs none) (State.get s k))
  unfolding force_merge
  get-force_merge_value rs k n =
      let keys = changed_keys F s rs in
      let o = last_write F s k 0 rs none in
      let found = contains_text-changed_keys rs k in
      get-with_provenance (merge_fields F s rs keys (s, end)) k n
      ∙ get-merge_fields rs keys (s, end) k
      ∙ elim (Bool-cases (is_merge_system_field k)) [
        | inl p ↦ rw (found, changed_in_any-system k rs p, p) refl
        | inr p ↦
            merged_value (contains_text keys k) o (State.get s k)
              (λ e. last_write-unchanged k 0 rs none p (sym found ∙ e))
            ∙ ap (λ b. if b then State.get s k else value_or o (State.get s k)) (sym p)
      ]
