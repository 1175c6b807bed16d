-- ===== src/Registry.antt =====
-- The instruction registry, crates/tcb/src/instruction/registry.rs: its entries, registration and the
-- queries on it.
pub mod ContextOps
pub mod Execute
pub mod Full
use evorule_tcb.Prelude.{
  ℕ, String, Bool, true, false, Option, none, some, List, [], ◌∷◌, map, ◌==◌, nat_eq, if◌then◌else◌,
  and_then, option_map, is_some, length,
}
use evorule_tcb.Value.Data.{
  Value, string, list, object, Items, nil, cons, Entries, end, entry, of_list,
}
use evorule_tcb.Value.ImMap
use evorule_tcb.Instruction.{GenericInstruction}
use evorule_tcb.Engine.{ContextOp, Executor}
use evorule_tcb.Deterministic.Encode.{sort_by_key}

-- Entries of meta-instructions, each of them the entries of an object.
pub record EvalBranch : Type 0 where
  pub meta_instructions : List Entries

pub data InstructionLayer : Type 0 where
  d0 d1 d2 d3 d4 d5 e0 e1 : InstructionLayer

unfoldable pub rank : InstructionLayer → ℕ
rank d0 = 0
rank d1 = 1
rank d2 = 2
rank d3 = 3
rank d4 = 4
rank d5 = 5
rank e0 = 6
rank e1 = 7

unfoldable pub name : InstructionLayer → String
name d0 = "D0-core"
name d1 = "D1-control"
name d2 = "D2-queue"
name d3 = "D3-domain"
name d4 = "D4-audit"
name d5 = "D5-error"
name e0 = "E0-compute"
name e1 = "E1-io"

abbrev pub objects_of : List Entries → Items
objects_of [] = nil
objects_of (m ∷ ms) = cons (object m) (objects_of ms)

abbrev pub only_objects : Items → List Entries
only_objects nil = []
only_objects (cons (object m) vs) = m ∷ only_objects vs
only_objects (cons v vs) = only_objects vs

unfoldable pub branch_to_value : EvalBranch → Value
branch_to_value b = list (objects_of b.meta_instructions)

unfoldable pub branch_from_value : Value → Option EvalBranch
branch_from_value (list v) = some (record { meta_instructions = only_objects v })
branch_from_value _ = none

abbrev pub Explainer : Type 0
Explainer = GenericInstruction → String

pub record InstructionDef : Type 0 where
  pub exec : Executor
  pub eval_branch : Option EvalBranch
  pub explainer : Option Explainer
  pub layer : InstructionLayer

-- A map of the standard library, as a list of its entries.
abbrev pub find {ℓ} : {A : Type ℓ} → List (String × A) → String → Option A
find [] k = none
find ((j, v) ∷ m) k = let rest = find m k in if j == k then some v else rest

abbrev pub put {ℓ} : {A : Type ℓ} → List (String × A) → String → A → List (String × A)
put [] k v = (k, v) ∷ []
put ((j, w) ∷ m) k v = let rest = put m k v in if j == k then (j, v) ∷ m else (j, w) ∷ rest

pub record InstructionRegistry : Type 0 where
  pub instructions : List (String × InstructionDef)
  pub context_ops : List (String × ContextOp)
  pub frozen : Bool

unfoldable pub freeze : InstructionRegistry → InstructionRegistry
freeze r = record r { frozen = true }

unfoldable pub unfreeze : InstructionRegistry → InstructionRegistry
unfreeze r = record r { frozen = false }

unfoldable pub is_frozen : InstructionRegistry → Bool
is_frozen r = r.frozen

-- A frozen registry ignores the call, as in a release build.
unfoldable pub register_with_metadata :
    InstructionRegistry → String → InstructionDef → InstructionRegistry
register_with_metadata r key def =
    if r.frozen then r else record r { instructions = put r.instructions key def }

unfoldable pub register_with_layer :
    InstructionRegistry → String → Executor → InstructionLayer → InstructionRegistry
unfolding register_with_metadata
register_with_layer r key exec layer =
    register_with_metadata r key
      (record { exec = exec; eval_branch = none; explainer = none; layer = layer })

unfoldable pub register : InstructionRegistry → String → Executor → InstructionRegistry
unfolding register_with_layer
register r key exec = register_with_layer r key exec d0

unfoldable pub get : InstructionRegistry → String → Option InstructionDef
get r key = find r.instructions key

unfoldable pub has : InstructionRegistry → String → Bool
has r key = is_some (find r.instructions key)

unfoldable pub get_layer : InstructionRegistry → String → Option InstructionLayer
get_layer r key = option_map (λ (d : InstructionDef). d.layer) (find r.instructions key)

-- The entries in the order of their names.
abbrev pub sorted : InstructionRegistry → List (String × InstructionDef)
unfolding sort_by_key
sorted r = sort_by_key r.instructions

unfoldable pub list_instructions : InstructionRegistry → List String
list_instructions r = map (λ (e : String × InstructionDef). e.0) (sorted r)

abbrev pub of_layer : InstructionLayer → List (String × InstructionDef) → List String
unfolding rank
of_layer l [] = []
of_layer l ((k, d) ∷ m) =
    let rest = of_layer l m in if nat_eq (rank d.layer) (rank l) then k ∷ rest else rest

abbrev pub group :
    InstructionLayer
    → List String
    → List (InstructionLayer × List String)
    → List (InstructionLayer × List String)
group l [] rest = rest
group l (k ∷ ks) rest = (l, k ∷ ks) ∷ rest

abbrev pub groups_of :
    List InstructionLayer → List (String × InstructionDef) → List (InstructionLayer × List String)
groups_of [] m = []
groups_of (l ∷ ls) m = group l (of_layer l m) (groups_of ls m)

-- The layers that have instructions, by rank, each with its names in order.
unfoldable pub instructions_by_layer : InstructionRegistry → List (InstructionLayer × List String)
instructions_by_layer r = groups_of (d0 ∷ d1 ∷ d2 ∷ d3 ∷ d4 ∷ d5 ∷ e0 ∷ e1 ∷ []) (sorted r)

unfoldable pub register_context_op : InstructionRegistry → String → ContextOp → InstructionRegistry
register_context_op r key op = record r { context_ops = put r.context_ops key op }

unfoldable pub get_context_operation : InstructionRegistry → String → Option ContextOp
get_context_operation r key = find r.context_ops key

unfoldable pub explain_instruction : InstructionRegistry → GenericInstruction → Option String
explain_instruction r i =
    and_then (find r.instructions i.instruction_type)
      (λ (d : InstructionDef). option_map (λ (f : Explainer). f i) d.explainer)

-- One explainer is injected into the entry of its name, if there is one.
abbrev pub inject :
    List (String × InstructionDef) → String → Explainer → List (String × InstructionDef)
inject [] k f = []
inject ((j, d) ∷ m) k f =
    let rest = inject m k f in
    if j == k then (j, record d { explainer = some f }) ∷ m else (j, d) ∷ rest

unfoldable pub inject_explainers :
    InstructionRegistry → List (String × Explainer) → InstructionRegistry
inject_explainers r [] = r
inject_explainers r ((k, f) ∷ fs) =
    inject_explainers (record r { instructions = inject r.instructions k f }) fs

abbrev pub branch_entries : Option EvalBranch → Entries
unfolding branch_to_value
branch_entries none = end
branch_entries (some b) = entry "eval_branch" (branch_to_value b) end

abbrev pub entry_value : String × InstructionDef → Value
entry_value (k, d) = object (entry "instruction_type" (string k) (branch_entries d.eval_branch))

unfoldable pub to_value : InstructionRegistry → Value
to_value r = object (entry "entries" (list (of_list (map entry_value (sorted r)))) end)

unfoldable pub len : InstructionRegistry → ℕ
len r = length r.instructions

unfoldable pub is_empty : InstructionRegistry → Bool
is_empty r = nat_eq (length r.instructions) 0
