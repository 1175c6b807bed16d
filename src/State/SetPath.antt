-- ===== src/State/SetPath.antt =====
-- `State::set_path`, crates/tcb/src/state.rs: a write at the end of a path, with the lists and the
-- objects that are missing on the way.
pub mod Advances
pub mod Laws
pub mod ReadBack
use evorule_tcb.Prelude.{
  ℕ, zero, suc, ◌-◌, String, ◌≡◌, refl, Bool, true, false, not, ◌||◌, Option, none, some, List, [],
  ◌∷◌, ◌++◌, ◌==◌, ltb, nat_eq, if◌then◌else◌, length, get_elem?,
}
use evorule_tcb.Value.Data.{
  Value, null, bool, list, object, Items, nil, cons, Entries, end, entry, to_list, of_list,
}
use evorule_tcb.Value.ImMap
use evorule_tcb.Error.{path_depth_exceeded, ok, err}
use evorule_tcb.State.{State, next_version, empty, from_im_map, set, to_value, max_path_depth}
use evorule_tcb.Prelude.Lists.{set as set_elem}
use evorule_tcb.State.Run.{Run, ◌>>!◌}
use evorule_tcb.State.Path.{split_path, parse_usize}

abbrev replicate : ℕ → List Value → List Value
replicate zero tail = tail
replicate (suc n) tail = null ∷ replicate n tail

abbrev pub usize_max : ℕ
usize_max = 18446744073709551615

-- `while new_list.len() <= index { new_list.push_back(Null) }`, which leaves a list that is long enough
-- as it is. No length is above `usize::MAX`, so that the loop never ends for this index.
unfoldable pub padded : List Value → ℕ → Option (List Value)
padded v index =
    if ltb index (length v)
    then some v
    else if nat_eq index usize_max
    then none
    else some (v ++ replicate (suc index - length v) [])

-- `new_list.set(index, value)`
abbrev pub put_at : ℕ → Value → List Value → Value
put_at index value v = list (of_list (set_elem v index value))

-- The list, padded, with the value at the index, stored under the key.
abbrev pub store_padded : State → String → ℕ → Value → Option (List Value) → Run
unfolding set
store_padded s key index value none = none
store_padded s key index value (some v) = some (ok (set s key (put_at index value v)))

unfoldable pub put_padded : State → String → List Value → ℕ → Value → Run
unfolding padded
put_padded s key v index value = store_padded s key index value (padded v index)

abbrev pub list_keys : Entries → List String
list_keys end = []
list_keys (entry k (list v) m) = k ∷ list_keys m
list_keys (entry k v m) = list_keys m

abbrev pub set_under : State → String → ℕ → Value → (is_last : Bool) → Option Value → Run
unfolding put_padded
set_under s key index value is_last (some (list v)) =
    if ltb index (length (to_list v)) || is_last
    then put_padded s key (to_list v) index value
    else some (ok s)
set_under s key index value is_last _ = some (ok s)

abbrev pub set_only : State → ℕ → Value → (is_last : Bool) → List String → Run
unfolding ImMap.get
set_only s index value is_last (key ∷ []) =
    set_under s key index value is_last (ImMap.get s.data_map key)
set_only s index value is_last _ = some (ok s)

-- The only list among the values, if there is just one.
unfoldable pub set_array_element_by_index : State → ℕ → Value → Bool → Run
set_array_element_by_index s index value is_last =
    set_only s index value is_last (list_keys s.data_map)

-- The object that stands for a list's element on the way down.
abbrev pub element_state : Option Value → State
element_state (some (object m)) = from_im_map m
element_state _ = empty

-- A list under a key, padded, with the value at an index or below the element there.
abbrev pub set_padded :
    (State → Run) → State → String → ℕ → Bool → Value → Option (List Value) → Run
set_padded below_next s key i has_more value none = none
set_padded below_next s key i false value (some v) = some (ok (set s key (put_at i value v)))
set_padded below_next s key i true value (some v) =
    below_next (element_state (get_elem? v i)) >>! λ sub.
    some (ok (set s key (put_at i (to_value sub) v)))

unfoldable pub set_in_list : (State → Run) → State → String → Items → ℕ → Bool → Value → Run
unfolding padded set to_value
set_in_list below_next s key v i has_more value =
    set_padded below_next s key i has_more value (padded (to_list v) i)

-- A list is reached: the next part is an index into it, or the write has no effect.
unfoldable pub into_list : (State → Run) → State → String → Items → Bool → Value → Option ℕ → Run
into_list below_next s key v has_more value none = some (ok s)
into_list below_next s key v has_more value (some i) =
    set_in_list below_next s key v i has_more value

-- Nothing that can be entered is reached: a new list if the next part is an index, else a new object.
unfoldable pub into_missing :
    (State → Run) → (State → Run) → State → String → Bool → Value → Option ℕ → Run
into_missing below below_next s key has_more value none =
    below empty >>! λ sub. some (ok (set s key (to_value sub)))
into_missing below below_next s key has_more value (some i) =
    set_in_list below_next s key nil i has_more value

-- What stands under a key that is not the last part; `below` writes the parts behind it, and
-- `below_next` those behind the next one.
unfoldable pub descend :
    (State → Run) → (State → Run) → State → String → String → Bool → Value → Option Value → Run
descend below below_next s key next has_more value (some (object m)) =
    below (from_im_map m) >>! λ sub. some (ok (set s key (to_value sub)))
descend below below_next s key next has_more value (some (list v)) =
    into_list below_next s key v has_more value (parse_usize next)
descend below below_next s key next has_more value _ =
    into_missing below below_next s key has_more value (parse_usize next)

-- A state that holds nothing but the list.
abbrev pub only_list : State → String → ℕ → Value → Option (List Value) → Run
only_list s key index value none = none
only_list s key index value (some v) =
    some (ok (record { data_map = entry key (put_at index value v) end; version = next_version s }))

-- A part that is an index, in the object that has been reached.
unfoldable pub set_at_index : State → String → ℕ → Value → Bool → Run
unfolding padded set_array_element_by_index
set_at_index s key index value is_last =
    if nat_eq (ImMap.len s.data_map) 0
    then only_list s key index value (padded [] index)
    else set_array_element_by_index s index value is_last

-- The parts from `idx` on. An index comes before a key.
unfoldable pub set_path_recursive : State → List String → Value → Run
set_path_recursive s [] value = some (ok s)
set_path_recursive s (key ∷ []) value = elim (parse_usize key) [
  | some index ↦ set_at_index s key index value true
  | none ↦ some (ok (set s key value))
]
set_path_recursive s (key ∷ next ∷ rest) value =
    let below = λ (sub : State). set_path_recursive sub (next ∷ rest) value in
    let below_next = λ (sub : State). set_path_recursive sub rest value in
    let has_more = not (nat_eq (length rest) 0) in
    elim (parse_usize key) [
      | some index ↦ set_at_index s key index value false
      | none ↦ descend below below_next s key next has_more value (ImMap.get s.data_map key)
    ]

abbrev pub set_parts : State → List String → Value → Run
set_parts s [] value = some (ok s)
set_parts s (part ∷ []) value = some (ok (set s part value))
set_parts s (part ∷ next ∷ rest) value =
    if ltb max_path_depth (length (part ∷ next ∷ rest))
    then some (err (path_depth_exceeded (length (part ∷ next ∷ rest)) max_path_depth))
    else set_path_recursive s (part ∷ next ∷ rest) value

unfoldable pub set_path : State → String → Value → Run
set_path s path value =
    if path == "" then some (ok (set s "" value)) else set_parts s (split_path path) value

abbrev nested : State
nested = record { data_map = entry "n" (list (cons null nil)) end; version = 3 }

set_path_example :
    set_path nested "a.b[1].c" (bool true)
    ≡ some (
        ok (record {
          data_map = entry "n" (list (cons null nil)) (
              entry "a"
                (object (
                  entry "b" (list (cons null (cons (object (entry "c" (bool true) end)) nil))) end))
                end);
          version = 4;
        }))
unfolding set_path set_path_recursive descend into_missing set_in_list set to_value empty split_path
    parse_usize ImMap.get
set_path_example = refl

endless_example : set_path empty "a[18446744073709551615]" null ≡ none
unfolding set_path set_path_recursive descend into_missing set_in_list split_path parse_usize
    ImMap.get empty
endless_example = refl
