-- ===== src/State/SetPath/ReadBack.antt =====
-- What `set_path` writes, `get_path` reads, crates/tcb/src/state.rs: paths of keys through objects.
use evorule_tcb.Prelude.{
  ◌≤◌, String, ◌≡◌, refl, ap, ◌∙◌, ◌≢◌, Bool, false, not, Option, none, some, List, [], ◌∷◌, arith,
  ◌==◌, eq_iff, ltb, nat_eq, length,
}
use evorule_tcb.Value.Data.{Value, list, object, Entries, end}
use evorule_tcb.Value.ImMap
use evorule_tcb.Error.{ok, err}
use evorule_tcb.State.Run.{Run, ◌>>!◌}
use evorule_tcb.State.{
  State, next_version, empty, from_im_map, set, to_value, get, walk, get_path, get_parts,
  max_path_depth,
}
use evorule_tcb.State.Path.{split_path, parse_usize}
use evorule_tcb.State.SetPath.{into_missing, descend, set_path_recursive, set_parts, set_path}

abbrev pub AreKeys : List String → Type 0
AreKeys [] = Unit
AreKeys (k ∷ ks) = (parse_usize k ≡ none) × AreKeys ks

abbrev pub NoListUnder : (Entries → Type 0) → Option Value → Type 0
NoListUnder P (some (object m)) = P m
NoListUnder P (some (list v)) = ⊥
NoListUnder P _ = Unit

-- No list stands at a proper prefix of the path.
abbrev pub NoList : List String → Entries → Type 0
NoList [] m = Unit
NoList (k ∷ []) m = Unit
NoList (k ∷ j ∷ ks) m = NoListUnder (NoList (j ∷ ks)) (ImMap.get m k)

-- The value is read back at the path, and the other keys of the top level keep their values.
abbrev Writes : State → String → List String → Value → Run → Type 0
Writes s k ks v (some (ok s')) =
    (get_parts s' (k ∷ ks) ≡ some v)
    × ((j : String) → k ≢ j → ImMap.get s'.data_map j ≡ ImMap.get s.data_map j)
    × (s'.version ≡ next_version s)
Writes s k ks v (some (err e)) = ⊥
Writes s k ks v none = ⊥

Writes-set :
    (s : State) (k : String) (ks : List String) (v w : Value)
    → walk ks w ≡ some v
    → Writes s k ks v (some (ok (set s k w)))
unfolding set
Writes-set s k ks v w h =
    (rw (ImMap.get-insert_self s.data_map k w) h, λ j. ImMap.get-insert_ne s.data_map k j w, refl)

NoList-end : (k : String) (ks : List String) → NoList (k ∷ ks) end
unfolding ImMap.get
NoList-end k [] = tt
NoList-end k (j ∷ ks) = tt

Writes-below :
    (s : State) (k j : String) (ks : List String) (v : Value) (sub : State) (m : Run)
    → Writes sub j ks v m
    → Writes s k (j ∷ ks) v (m >>! λ t. some (ok (set s k (to_value t))))
unfolding to_value walk
Writes-below s k j ks v sub (some (ok t)) h = Writes-set s k (j ∷ ks) v (object t.data_map) h.0
Writes-below s k j ks v sub (some (err e)) h = absurd h
Writes-below s k j ks v sub none h = absurd h

descend-Writes :
    (below below_next : State → Run) (s : State) (k j : String) (ks : List String) (more : Bool)
    (v : Value) (o : Option Value)
    → parse_usize j ≡ none
    → ((sub : State) → NoList (j ∷ ks) sub.data_map → Writes sub j ks v (below sub))
    → NoListUnder (NoList (j ∷ ks)) o
    → Writes s k (j ∷ ks) v (descend below below_next s k j more v o)
unfolding descend into_missing from_im_map empty
descend-Writes below below_next s k j ks more v (some (object m)) p ih h =
    Writes-below s k j ks v (from_im_map m) (below (from_im_map m)) (ih (from_im_map m) h)
descend-Writes below below_next s k j ks more v (some (list l)) p ih h = absurd h
descend-Writes below below_next s k j ks more v _ p ih h =
    rw (p, Writes) (Writes-below s k j ks v empty (below empty) (ih empty (NoList-end j ks)))

set_path_recursive-Writes :
    (k : String) (ks : List String) (s : State) (v : Value)
    → AreKeys (k ∷ ks)
    → NoList (k ∷ ks) s.data_map
    → Writes s k ks v (set_path_recursive s (k ∷ ks) v)
unfolding set_path_recursive walk
set_path_recursive-Writes k [] s v p h = rw (p.0, Writes) (Writes-set s k [] v v refl)
set_path_recursive-Writes k (j ∷ ks) s v p h =
    let below = λ (sub : State). set_path_recursive sub (j ∷ ks) v in
    let below_next = λ (sub : State). set_path_recursive sub ks v in
    rw (p.0, Writes)
      (descend-Writes below below_next s k j ks (not (nat_eq (length ks) 0)) v
        (ImMap.get s.data_map k) p.1.0 (λ sub. set_path_recursive-Writes j ks sub v p.1) h)

set_parts-Writes :
    (k : String) (ks : List String) (s : State) (v : Value)
    → AreKeys (k ∷ ks)
    → NoList (k ∷ ks) s.data_map
    → length (k ∷ ks) ≤ max_path_depth
    → Writes s k ks v (set_parts s (k ∷ ks) v)
unfolding walk
set_parts-Writes k [] s v p h n = Writes-set s k [] v v refl
set_parts-Writes k (j ∷ ks) s v p h n =
    let fits : ltb max_path_depth (length (k ∷ j ∷ ks)) ≡ false = ground arith in
    rw (fits, set_parts) (set_path_recursive-Writes k (j ∷ ks) s v p h)

Writes-ok :
    (s : State) (k : String) (ks : List String) (v : Value) (m : Run)
    → Writes s k ks v m
    → (s' : State) × (m ≡ some (ok s'))
      × (get_parts s' (k ∷ ks) ≡ some v)
      × ((j : String) → k ≢ j → ImMap.get s'.data_map j ≡ ImMap.get s.data_map j)
      × (s'.version ≡ next_version s)
Writes-ok s k ks v (some (ok s')) h = (s', refl, h.0, h.1, h.2)
Writes-ok s k ks v (some (err e)) h = absurd h
Writes-ok s k ks v none h = absurd h

split_empty : split_path "" ≡ []
unfolding split_path
split_empty = refl

module _ (path : String) (k : String) (ks : List String) (e : split_path path ≡ k ∷ ks) where
  path-ne-empty : (path == "") ≡ false
  path-ne-empty = ground (arith, eq_iff path "", split_at_empty)
    where
      split_at_empty : path ≡ "" → ⊥
      split_at_empty h = cc (ap split_path h, split_empty, e)

  get_path_lem : (s : State) → get_path s path ≡ get_parts s (k ∷ ks)
  unfolding get_path
  get_path_lem s = rw (path-ne-empty, e)

  set_path_lem : (s : State) (v : Value) → set_path s path v ≡ set_parts s (k ∷ ks) v
  unfolding set_path
  set_path_lem s v = rw (path-ne-empty, e)

  -- A path of at most 64 parts, none of them an index, on which no list stands: the write succeeds,
  -- `get_path` of the path is the value written, the other keys of the top level keep their
  -- values, and the version is the next one.
  pub set_path-get_path :
      (s : State) (v : Value)
      → AreKeys (k ∷ ks)
      → NoList (k ∷ ks) s.data_map
      → length (k ∷ ks) ≤ max_path_depth
      → (s' : State) × (set_path s path v ≡ some (ok s'))
        × (get_path s' path ≡ some v)
        × ((j : String) → k ≢ j → get s' j ≡ get s j)
        × (s'.version ≡ next_version s)
  unfolding get
  set_path-get_path s v keys free n =
      let r = Writes-ok s k ks v (set_parts s (k ∷ ks) v) (set_parts-Writes k ks s v keys free n) in
      (r.0, set_path_lem s v ∙ r.1, get_path_lem r.0 ∙ r.2, r.3, r.4)
