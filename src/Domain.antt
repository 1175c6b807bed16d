-- ===== src/Domain.antt =====
-- Domains, crates/tcb/src/domain.rs: conditions on a state, their evaluation and their JSON form.
pub mod Parse
pub mod Dict
pub mod Depth
use evorule_tcb.Prelude.{
  ℕ, zero, suc, ◌+◌, Ordering, String, Bool, true, false, not, ◌&&◌, ◌||◌, Option, none, some, List,
  ◌∷◌, if◌then◌else◌, and_then, unwrap_or, option_map, any,
}
use evorule_tcb.Value.Data.{Value, string, list, to_list}
use evorule_tcb.Value.ImMap
use Prim.Native.String.{compare as compare_text}
use Prim.Native.Nat.{Ordering}
use evorule_tcb.Value.Compare.{as_number, loosely_equals}
use evorule_tcb.Value.Accessors.{as_str}
use evorule_tcb.Platform.{Floats}
use evorule_tcb.State.{State, get_path}
use evorule_tcb.State.Exec.{exec_field}
use evorule_tcb.Value.Accessors

pub data RelOp : Type 0 where
  eq ne gt ge lt le contains_op not_contains in_op not_in between not_between exists not_exists :
      RelOp

mutual
  pub data Domain : Type 0 where
    atom : (attribute : String) → RelOp → Value → Domain
    and : Domains → Domain
    or : Domains → Domain
    not_domain : Domain → Domain
    instruction : String → Domain
    universal : Domain
    empty : Domain

  pub data Domains : Type 0 where
    no_domains : Domains
    domain : Domain → Domains → Domains

abbrev pub max_domain_depth : ℕ
max_domain_depth = 128

module _ (F : Floats) where
  unfoldable pub values_equal : Value → Value → Bool
  values_equal = loosely_equals F

  abbrev compare_floats : ℕ → ℕ → Ordering
  compare_floats a b =
      if F.num_lt a b then Ordering.lt else if F.num_lt b a then Ordering.gt else Ordering.eq

  abbrev compare_texts : Option String → Option String → Option Ordering
  compare_texts (some s) (some t) = some (compare_text s t)
  compare_texts _ _ = none

  abbrev numbers_or : Option ℕ → Option ℕ → Option Ordering → Option Ordering
  numbers_or (some x) (some y) other = some (compare_floats x y)
  numbers_or _ _ other = other

  -- Numbers as `f64`, texts in their order, nothing else.
  unfoldable pub compare_values : Value → Value → Option Ordering
  compare_values a b =
      numbers_or (as_number F a) (as_number F b) (compare_texts (as_str a) (as_str b))

  unfoldable pub value_contains : Value → Value → Bool
  value_contains (list v) expected = any (λ item. values_equal item expected) (to_list v)
  value_contains _ expected = false

  unfoldable pub value_in : Value → Value → Bool
  value_in actual (list v) = any (λ item. values_equal item actual) (to_list v)
  value_in actual _ = false

  -- `a >= b` of `f64`
  abbrev num_ge : ℕ → ℕ → Bool
  num_ge a b = F.num_lt b a || F.num_eq b a

  abbrev in_range : List Value → Option ℕ → Bool
  in_range (lo ∷ hi ∷ _) (some n) =
      unwrap_or
        (and_then (as_number F lo)
          (λ a. option_map (λ b. num_ge n a && num_ge b n) (as_number F hi)))
        false
  in_range _ _ = false

  unfoldable pub value_between : Value → Value → Bool
  value_between actual (list v) = in_range (to_list v) (as_number F actual)
  value_between actual _ = false

  abbrev is_gt : Option Ordering → Bool
  is_gt (some Ordering.gt) = true
  is_gt _ = false

  abbrev is_lt : Option Ordering → Bool
  is_lt (some Ordering.lt) = true
  is_lt _ = false

  abbrev is_eq : Option Ordering → Bool
  is_eq (some Ordering.eq) = true
  is_eq _ = false

  unfoldable pub apply : RelOp → Value → Value → Bool
  apply eq a e = values_equal a e
  apply ne a e = not (values_equal a e)
  apply gt a e = is_gt (compare_values a e)
  apply ge a e = is_gt (compare_values a e) || is_eq (compare_values a e)
  apply lt a e = is_lt (compare_values a e)
  apply le a e = is_lt (compare_values a e) || is_eq (compare_values a e)
  apply contains_op a e = value_contains a e
  apply not_contains a e = not (value_contains a e)
  apply in_op a e = value_in a e
  apply not_in a e = not (value_in a e)
  apply between a e = value_between a e
  apply not_between a e = not (value_between a e)
  apply exists a e = false
  apply not_exists a e = false

  unfoldable pub atom_present : RelOp → Value → Value → Bool
  atom_present exists actual value = true
  atom_present not_exists actual value = false
  atom_present op actual value = apply op actual value

  unfoldable pub atom_missing : RelOp → Bool
  atom_missing ne = true
  atom_missing not_exists = true
  atom_missing _ = false

  abbrev atom_holds : RelOp → Value → Option Value → Bool
  atom_holds op value (some actual) = atom_present op actual value
  atom_holds op value none = atom_missing op

  abbrev instruction_holds : String → Option Value → Bool
  instruction_holds name (some actual) = values_equal actual (string name)
  instruction_holds name none = false

  -- The second argument is `MAX_DOMAIN_DEPTH + 1 - depth`: at zero the limit is passed.
  unfoldable mutual
    pub contains_inner : Domain → ℕ → State → Bool
    contains_inner d zero s = false
    contains_inner (atom attribute op value) (suc f) s = atom_holds op value (get_path s attribute)
    contains_inner (and ds) (suc f) s = all_contain ds f s
    contains_inner (or ds) (suc f) s = any_contains ds f s
    contains_inner (not_domain d) (suc f) s = not (contains_inner d f s)
    contains_inner (instruction name) (suc f) s =
        instruction_holds name (and_then (exec_field s "instruction") (λ i. Accessors.get i "type"))
    contains_inner universal (suc f) s = true
    contains_inner empty (suc f) s = false

    pub all_contain : Domains → ℕ → State → Bool
    all_contain no_domains f s = true
    all_contain (domain d ds) f s = contains_inner d f s && all_contain ds f s

    pub any_contains : Domains → ℕ → State → Bool
    any_contains no_domains f s = false
    any_contains (domain d ds) f s = contains_inner d f s || any_contains ds f s

  unfoldable pub contains : Domain → State → Bool
  contains d s = contains_inner d (max_domain_depth + 1) s
