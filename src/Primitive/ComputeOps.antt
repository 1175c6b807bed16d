-- ===== src/Primitive/ComputeOps.antt =====
-- The computation primitives, crates/tcb/src/primitive/compute_ops.rs: hashes, elements of lists, keys of
-- objects, and lists of texts as sets.
pub mod Sets
use evorule_tcb.Prelude.{
  ℕ, String, Bool, not, Option, none, some, List, [], ◌∷◌, ◌++◌, map, ◌==◌, nat_eq, if◌then◌else◌,
  and_then, unwrap_or, length, get_elem?, any, ℤ, pos, ◌+ℤ◌, ltb_ℤ, bits64, str_lt,
}
use evorule_tcb.Value.Data.{
  Value, null, integer, string, list, object, Items, nil, to_list, of_list,
}
use evorule_tcb.Value.ImMap
use evorule_tcb.Instruction.{GenericInstruction}
use evorule_tcb.State.{State}
use evorule_tcb.Engine.{Registry}
use Prim.Native.Char.{code}
use evorule_tcb.Platform.{Crates}
use evorule_tcb.Value.Accessors.{as_str, as_list, as_integer}
use evorule_tcb.State
use evorule_tcb.State.{get_path}
use evorule_tcb.State.Run.{Run}
use evorule_tcb.State.SetPath.{set_path}
use evorule_tcb.Control.Refs.{resolve_path, text_param}
use evorule_tcb.Control.WhileLoop.{texts_of}
use evorule_tcb.Deterministic.Encode.{iter_sorted}
use evorule_tcb.Audit.{content_hash}

abbrev pub values_at : State → List String → List Value
unfolding State.get
values_at s [] = []
values_at s (k ∷ ks) = unwrap_or (State.get s k) null ∷ values_at s ks

abbrev pub hashed_values : State → List Value → List Value
unfolding State.to_value
hashed_values s [] = State.to_value s ∷ []
hashed_values s (k ∷ ks) = values_at s (texts_of (k ∷ ks))

unfoldable pub exec_content_hash : Crates → Registry → State → GenericInstruction → Run
unfolding as_list as_str ImMap.get content_hash set_path
exec_content_hash C R s i =
    let keys = to_list (unwrap_or (and_then (ImMap.get i.params "keys") as_list) nil) in
    let store_as = unwrap_or (and_then (ImMap.get i.params "store_as") as_str) "__hash__" in
    set_path s store_as (string (content_hash C (hashed_values s keys)))

-- `s.strip_prefix('$').unwrap_or(s)`
abbrev pub strip_dollar : String → String
strip_dollar String.[] = String.[]
strip_dollar (String.◌∷◌ c cs) = if nat_eq (code c) b'$' then cs else String.◌∷◌ c cs

abbrev pub index_value : State → Value → Option ℤ
unfolding get_path as_integer
index_value s (integer n) = some n
index_value s (string t) = and_then (get_path s (strip_dollar t)) as_integer
index_value s v = none

-- A negative index counts from the end; `as usize` wraps what is still negative.
unfoldable pub position : ℕ → ℤ → ℕ
position len index = if ltb_ℤ index (pos 0) then bits64 (pos len +ℤ index) else bits64 index

abbrev pub ref_param : State → GenericInstruction → String → Value
unfolding resolve_path ImMap.get
ref_param s i name = resolve_path s (unwrap_or (ImMap.get i.params name) null)

abbrev pub listed : State → Value → Option Items
unfolding get_path as_list
listed s (string t) = and_then (get_path s (strip_dollar t)) as_list
listed s v = none

unfoldable pub item_at : Option Items → ℤ → Value
unfolding position
item_at none index = null
item_at (some vs) index =
    unwrap_or (get_elem? (to_list vs) (position (length (to_list vs)) index)) null

unfoldable pub exec_get_index : Registry → State → GenericInstruction → Run
unfolding item_at resolve_path ImMap.get text_param set_path
exec_get_index R s i =
    let index =
      unwrap_or (and_then (ImMap.get i.params "index") (λ v. index_value s (resolve_path s v)))
        (pos 0) in
    set_path s (text_param s i "result_attr" "item")
      (item_at (listed s (ref_param s i "ref")) index)

abbrev pub referred : State → Value → Value
unfolding get_path
referred s (string t) = unwrap_or (get_path s (strip_dollar t)) null
referred s v = v

unfoldable pub keys_of : Value → List String
unfolding iter_sorted
keys_of (object m) = map (λ (e : String × Value). e.0) (iter_sorted m)
keys_of v = []

abbrev pub texts : List String → Value
texts ts = list (of_list (map string ts))

unfoldable pub exec_object_keys : Registry → State → GenericInstruction → Run
unfolding keys_of text_param set_path
exec_object_keys R s i =
    set_path s (text_param s i "result_attr" "keys")
      (texts (keys_of (referred s (ref_param s i "ref"))))

abbrev pub texts_in : Value → List String
texts_in (list vs) = texts_of (to_list vs)
texts_in v = []

unfoldable pub extract_string_list : State → GenericInstruction → String → List String
extract_string_list s i param_name = texts_in (referred s (ref_param s i param_name))

abbrev pub contains_text : List String → String → Bool
contains_text ts t = any (λ u. u == t) ts

-- `Vec::sort` on texts.
unfoldable pub insert_text : String → List String → List String
insert_text t [] = t ∷ []
insert_text t (u ∷ us) = let rest = insert_text t us in if str_lt u t then u ∷ rest else t ∷ u ∷ us

unfoldable pub sort_texts : List String → List String
unfolding insert_text
sort_texts [] = []
sort_texts (t ∷ ts) = insert_text t (sort_texts ts)

abbrev pub filter_texts : (String → Bool) → List String → List String
filter_texts p [] = []
filter_texts p (t ∷ ts) = let rest = filter_texts p ts in if p t then t ∷ rest else rest

-- The elements of a `HashSet`, each of them once.
unfoldable pub distinct : List String → List String
distinct [] = []
distinct (t ∷ ts) = let rest = distinct ts in if contains_text rest t then rest else t ∷ rest

unfoldable pub intersection : (a b : List String) → List String
unfolding sort_texts
intersection a b = sort_texts (filter_texts (contains_text a) b)

unfoldable pub difference : (a b : List String) → List String
unfolding sort_texts
difference a b = sort_texts (filter_texts (λ t. not (contains_text b t)) a)

unfoldable pub union : (a b : List String) → List String
unfolding sort_texts distinct
union a b = sort_texts (distinct (a ++ b))

unfoldable pub exec_set_intersection : Registry → State → GenericInstruction → Run
unfolding extract_string_list intersection text_param set_path
exec_set_intersection R s i =
    set_path s (text_param s i "result_attr" "intersection")
      (texts (intersection (extract_string_list s i "list_a") (extract_string_list s i "list_b")))

unfoldable pub exec_set_diff : Registry → State → GenericInstruction → Run
unfolding extract_string_list difference text_param set_path
exec_set_diff R s i =
    set_path s (text_param s i "result_attr" "diff")
      (texts (difference (extract_string_list s i "list_a") (extract_string_list s i "list_b")))

unfoldable pub exec_set_union : Registry → State → GenericInstruction → Run
unfolding extract_string_list union text_param set_path
exec_set_union R s i =
    set_path s (text_param s i "result_attr" "union")
      (texts (union (extract_string_list s i "list_a") (extract_string_list s i "list_b")))
