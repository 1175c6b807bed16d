-- ===== src/Witnesses/Primitives.antt =====
-- The theorems on the primitives and the operations on the context on concrete inputs,
-- crates/tcb/src/primitive and crates/tcb/src/instruction/registry.rs.
use evorule_tcb.Prelude.{
  ℕ, String, ◌≡◌, not, ◌&&◌, ◌||◌, List, [], ◌∷◌, arith, ℤ, pos, ◌+ℤ◌, ◌-ℤ◌, ◌*ℤ◌, i64_max, IsI64,
}
use evorule_tcb.Value.Data.{Value, integer, string, object, end, entry}
use evorule_tcb.Value.ImMap
use evorule_tcb.Value.Accessors
use evorule_tcb.State
use evorule_tcb.State.{State}
use evorule_tcb.Primitive.ErrorOps.{force_merge}
use evorule_tcb.Primitive.ErrorOps.LastBranch.{Merged, get-force_merge}
use evorule_tcb.Primitive.ComputeOps.{contains_text, intersection, difference, union}
use evorule_tcb.Primitive.ComputeOps.Sets.{IsSorted, set_operations_lem}
use evorule_tcb.Registry.ContextOps.{ops_add, ops_sub, ops_mul, ops_div}
use evorule_tcb.Registry.ContextOps.Bounds.{integer_ops_lem}
use evorule_tcb.Witnesses.Domains.{toy_floats}

abbrev one_field : ℕ → State
one_field n = record { data_map = entry "x" (integer (pos n)) end; version = 0 }

get-force_merge_example :
    Merged toy_floats (one_field 0) "x" (one_field 1 ∷ one_field 2 ∷ one_field 0 ∷ []) (
      State.get
        (force_merge toy_floats (one_field 0) (one_field 1 ∷ one_field 2 ∷ one_field 0 ∷ []))
        "x")
get-force_merge_example =
    get-force_merge toy_floats (one_field 0) "x" (one_field 1 ∷ one_field 2 ∷ one_field 0 ∷ [])
      (λ e. cc)

abbrev left : String
left = "x"

abbrev right : String
right = "y"

abbrev rule_named : String → Value
rule_named t = object (entry "rule_id" (string t) end)

abbrev three_rules : List Value
three_rules = rule_named "a" ∷ rule_named "b" ∷ rule_named "a" ∷ []

integer_ops_lem_example :
    ((z : ℤ) × (ops_add toy_floats (integer i64_max) (integer (pos 1)) ≡ integer z)
      × IsI64 z
      × (IsI64 (i64_max +ℤ pos 1) → z ≡ i64_max +ℤ pos 1))
    × ((z : ℤ) × (ops_sub toy_floats (integer i64_max) (integer (pos 1)) ≡ integer z)
        × IsI64 z
        × (IsI64 (i64_max -ℤ pos 1) → z ≡ i64_max -ℤ pos 1))
    × ((z : ℤ) × (ops_mul toy_floats (integer i64_max) (integer (pos 1)) ≡ integer z)
        × IsI64 z
        × (IsI64 (i64_max *ℤ pos 1) → z ≡ i64_max *ℤ pos 1))
    × ((z : ℤ) × (ops_div toy_floats (integer i64_max) (integer (pos 1)) ≡ integer z) × IsI64 z)
integer_ops_lem_example = integer_ops_lem toy_floats i64_max (pos 1) (omega arith) (omega arith)

abbrev letters : List String
letters = "b" ∷ "a" ∷ "b" ∷ []

abbrev others : List String
others = "c" ∷ "b" ∷ []

set_operations_lem_example :
    (IsSorted (intersection letters others)
      × IsSorted (difference letters others)
      × IsSorted (union letters others))
    × ((t : String)
        → (contains_text (intersection letters others) t
            ≡ (contains_text letters t && contains_text others t))
          × (contains_text (difference letters others) t
              ≡ (contains_text letters t && not (contains_text others t)))
          × (contains_text (union letters others) t
              ≡ (contains_text letters t || contains_text others t)))
set_operations_lem_example = set_operations_lem letters others
