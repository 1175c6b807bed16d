-- ===== src/State.antt =====
-- The immutable state container, crates/tcb/src/state.rs. Each operation returns a new state; the
-- version counts the changes made to the top level.
pub mod Path
pub mod SetPath
pub mod Run
pub mod Exec
pub mod System
use evorule_tcb.Prelude.{
  ℕ, ◌+◌, ◌%◌, ◌^◌, String, Bool, not, ◌||◌, Option, none, some, List, [], ◌∷◌, ◌==◌, if◌then◌else◌,
  and_then, get_elem?,
}
use evorule_tcb.Value.Data.{Value, list, object, Entries, end, to_list}
use evorule_tcb.Value.ImMap
use evorule_tcb.Value.Accessors
use text.Mathlib.Text.{starts_with}
use evorule_tcb.Deterministic.Encode.{iter_sorted}
use Path.{split_path, parse_usize}

abbrev pub max_path_depth : ℕ
max_path_depth = 64

pub record State : Type 0 where
  pub data_map : Entries
  pub version : ℕ

-- `self.version + 1` on a `u64`, which wraps around in a release build.
abbrev pub next_version : State → ℕ
next_version s = (s.version + 1) % 2 ^ 64

unfoldable pub empty : State
empty = record { data_map = end; version = 0 }

unfoldable pub from_im_map : Entries → State
from_im_map m = record { data_map = m; version = 0 }

-- `State::new` and `from_std_map`
unfoldable pub new : List (String × Value) → State
unfolding ImMap.insert_all
new items = record { data_map = ImMap.insert_all end items; version = 0 }

unfoldable pub from_value : Value → State
unfolding empty
from_value (object m) = record { data_map = m; version = 0 }
from_value _ = empty

abbrev is_system_field : String → Bool
is_system_field k =
    k == "__exec__"
    || k == "__audit_chain"
    || k == "__audit_trace"
    || k == "__parallel_provenance__"

unfoldable pub business_state_snapshot : State → Value
unfolding ImMap.filter_keys
business_state_snapshot s = object (ImMap.filter_keys (λ k. not (is_system_field k)) s.data_map)

unfoldable pub get : State → String → Option Value
unfolding ImMap.get
get s key = ImMap.get s.data_map key

unfoldable pub get_user : State → String → Option Value
unfolding get
get_user s key = if starts_with key "__" then none else get s key

unfoldable pub contains_key : State → String → Bool
unfolding ImMap.contains_key
contains_key s key = ImMap.contains_key s.data_map key

unfoldable pub set : State → String → Value → State
unfolding ImMap.insert
set s key v = record { data_map = ImMap.insert s.data_map key v; version = next_version s }

-- One version for all the updates.
unfoldable pub set_all : State → List (String × Value) → State
unfolding ImMap.insert_all
set_all s items = record { data_map = ImMap.insert_all s.data_map items; version = next_version s }

unfoldable pub remove : State → String → State
unfolding ImMap.without
remove s key = record { data_map = ImMap.without s.data_map key; version = next_version s }

unfoldable pub to_value : State → Value
to_value s = object s.data_map

abbrev user_only : List (String × Value) → List String
user_only [] = []
user_only ((k, v) ∷ m) = let rest = user_only m in if starts_with k "__" then rest else k ∷ rest

unfoldable pub user_keys : State → List String
unfolding iter_sorted
user_keys s = user_only (iter_sorted s.data_map)

-- The rest of a path, below a value.
unfoldable pub walk : List String → Value → Option Value
unfolding ImMap.get parse_usize
walk [] v = some v
walk (part ∷ parts) (object m) = let below = walk parts in and_then (ImMap.get m part) below
walk (part ∷ parts) (list v) =
    let below = walk parts in
    and_then (parse_usize part) (λ i. and_then (get_elem? (to_list v) i) below)
walk (part ∷ parts) _ = none

abbrev get_parts : State → List String → Option Value
get_parts s [] = none
get_parts s (part ∷ parts) = and_then (ImMap.get s.data_map part) (walk parts)

unfoldable pub get_path : State → String → Option Value
unfolding get to_value walk split_path
get_path s path =
    if path == ""
    then elim (get s "") [ some v ↦ some v | none ↦ some (to_value s) ]
    else get_parts s (split_path path)
