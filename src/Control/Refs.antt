-- ===== src/Control/Refs.antt =====
-- References to the state, crates/tcb/src/control/dispatch.rs: `$ref` and `$pass` in parameters and
-- cases, and the nested write of `set_path_value`.
pub mod Plain
use evorule_tcb.Prelude.{
  ℕ, zero, suc, ◌+◌, String, Bool, ◌&&◌, Option, none, some, List, [], ◌∷◌, ◌==◌, ltb, nat_eq,
  if◌then◌else◌, and_then, unwrap_or, length,
}
use evorule_tcb.Value.Data.{Value, null, list, object, Items, nil, cons, Entries, end, entry}
use evorule_tcb.Value.ImMap
use evorule_tcb.Error.{path_depth_exceeded, Result, ok, err}
use Prim.Native.Char.{Char, code}
use evorule_tcb.Value.Accessors
use evorule_tcb.Value.Accessors.{empty_object, as_str}
use evorule_tcb.State
use evorule_tcb.State.{State, get_path, max_path_depth}
use evorule_tcb.State.Exec.{exec_field}
use evorule_tcb.Instruction.{GenericInstruction}

abbrev pub max_ref_depth : ℕ
max_ref_depth = 64

unfoldable pub resolve_ref_path : State → String → Value
unfolding State.to_value get_path
resolve_ref_path s path = if path == "" then State.to_value s else unwrap_or (get_path s path) null

abbrev pub ref_or : State → Value → Option String → Value
unfolding resolve_ref_path
ref_or s v (some path) = resolve_ref_path s path
ref_or s v none = v

unfoldable pub resolve_path : State → Value → Value
unfolding ImMap.contains_key ImMap.get as_str resolve_ref_path
resolve_path s (object m) =
    if ImMap.contains_key m "$ref"
    then ref_or s (object m) (and_then (ImMap.get m "$ref") as_str)
    else object m
resolve_path s v = v

-- `__exec__.instruction.params`
abbrev pub instruction_params : State → Option Value
unfolding exec_field Accessors.get
instruction_params s = and_then (exec_field s "instruction") (λ i. Accessors.get i "params")

unfoldable pub resolve_pass : State → Value → Value
unfolding Accessors.get as_str
resolve_pass s v =
    let field = unwrap_or (and_then (Accessors.get v "$pass") as_str) "" in
    if field == ""
    then unwrap_or (instruction_params s) empty_object
    else unwrap_or (and_then (instruction_params s) (λ p. Accessors.get p field)) null

unfoldable pub is_single : Entries → String → Bool
unfolding ImMap.contains_key ImMap.len
is_single m key = ImMap.contains_key m key && nat_eq (ImMap.len m) 1

abbrev pub map_items : (Value → Value) → Items → Items
map_items f nil = nil
map_items f (cons v vs) = cons (f v) (map_items f vs)

abbrev pub map_entries : (Value → Value) → Entries → Entries
map_entries f end = end
map_entries f (entry k v m) = entry k (f v) (map_entries f m)

-- The first argument counts the levels that are left, `MAX_REF_DEPTH + 1 - depth`.
unfoldable pub resolve_refs_inner : ℕ → State → Value → Value
unfolding resolve_path resolve_pass is_single
resolve_refs_inner zero s v = null
resolve_refs_inner (suc f) s (object m) =
    if is_single m "$ref"
    then resolve_refs_inner f s (resolve_path s (object m))
    else if is_single m "$pass"
    then resolve_pass s (object m)
    else object (map_entries (resolve_refs_inner f s) m)
resolve_refs_inner (suc f) s (list v) = list (map_items (resolve_refs_inner f s) v)
resolve_refs_inner (suc f) s v = v

unfoldable pub resolve_refs : State → Value → Value
unfolding resolve_refs_inner
resolve_refs = resolve_refs_inner (max_ref_depth + 1)

-- The parts of a path at each dot, as `path.split('.')` gives them, never none.
abbrev pub push_first : Char → List String → List String
push_first c [] = String.◌∷◌ c String.[] ∷ []
push_first c (p ∷ ps) = String.◌∷◌ c p ∷ ps

unfoldable pub split_dots : String → List String
split_dots String.[] = "" ∷ []
split_dots (String.◌∷◌ c cs) =
    let rest = split_dots cs in if nat_eq (code c) b'.' then "" ∷ rest else push_first c rest

unfoldable pub build_nested_state : State → List String → Value → State
unfolding State.set State.get State.from_value State.to_value
build_nested_state s [] v = s
build_nested_state s (part ∷ []) v = State.set s part v
build_nested_state s (part ∷ next ∷ parts) v =
    let child = State.from_value (unwrap_or (State.get s part) empty_object) in
    State.set s part (State.to_value (build_nested_state child (next ∷ parts) v))

unfoldable pub set_parts_value : State → List String → Value → Result State
unfolding build_nested_state State.set
set_parts_value s (part ∷ []) v = ok (State.set s part v)
set_parts_value s parts v =
    if ltb max_path_depth (length parts)
    then err (path_depth_exceeded (length parts) max_path_depth)
    else ok (build_nested_state s parts v)

unfoldable pub set_path_value : State → String → Value → Result State
unfolding set_parts_value split_dots State.from_value
set_path_value s path v =
    if path == "" then ok (State.from_value v) else set_parts_value s (split_dots path) v

-- `params.get(key).and_then(|v| resolve_path(state, v).as_str().map(..)).unwrap_or(default)`
unfoldable pub text_param : State → GenericInstruction → (key default : String) → String
unfolding resolve_path ImMap.get as_str
text_param s i key default =
    unwrap_or (and_then (ImMap.get i.params key) (λ v. as_str (resolve_path s v))) default
