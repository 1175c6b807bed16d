-- ===== src/Registry/Full.antt =====
-- The registry with every executor, crates/tcb/src/instruction/registry.rs with the tables of
-- crates/tcb/src/primitive/mod.rs and crates/tcb/src/control/mod.rs.
pub mod Contract
pub mod Table
pub mod Machine
use evorule_tcb.Prelude.{
  String, false, not, Option, none, some, List, [], ◌∷◌, ◌++◌, if◌then◌else◌, and_then, unwrap_or,
}
use evorule_tcb.Value.Data.{Value, object}
use evorule_tcb.Value.ImMap
use evorule_tcb.Error.{invalid_config, Result, ok, err}
use evorule_tcb.Engine.{Executor, pure_executor, writing_executor, ops_executor}
use text.Mathlib.Text.{starts_with}
use Prim.Native.String
use evorule_tcb.Platform.{Floats, Crates}
use evorule_tcb.Value.Accessors
use evorule_tcb.Value.Accessors.{as_str}
use evorule_tcb.Deterministic.Encode.{iter_sorted}
use evorule_tcb.Registry.{
  InstructionRegistry, InstructionLayer, d0, d1, d2, d3, d4, d5, e0, e1, Explainer,
  branch_from_value, find, register, register_with_metadata, inject_explainers,
}
use evorule_tcb.Registry.ContextOps.{default_context_ops}
use evorule_tcb.Audit.TraceStep.{exec_trace_step}
use evorule_tcb.Control.Dispatch.{exec_dispatch}
use evorule_tcb.Control.WhileLoop.{exec_while_loop}
use evorule_tcb.Primitive.StateOps.{exec_set_context, exec_state_set, exec_state_compute}
use evorule_tcb.Primitive.Queue.{
  exec_advance_instruction, exec_push_instruction, exec_push_instruction_sequence,
}
use evorule_tcb.Primitive.Queue.Sequence.{exec_instruction_sequence}
use evorule_tcb.Primitive.DomainOps.{exec_evaluate_domain, exec_match_domain, exec_domain_intersect}
use evorule_tcb.Primitive.RuleOps.{exec_apply_rule, exec_observe_rules, exec_filter_rules}
use evorule_tcb.Primitive.RuleOps.Inject.{exec_inject_rule}
use evorule_tcb.Primitive.ComputeOps.{
  exec_content_hash, exec_get_index, exec_object_keys, exec_set_intersection, exec_set_diff,
  exec_set_union,
}
use evorule_tcb.Primitive.ErrorOps.{exec_execute_try_catch, exec_execute_parallel}
use evorule_tcb.Primitive.Noop.{exec_noop}

abbrev pub trace_executor : Crates → Executor
unfolding exec_trace_step
trace_executor C h s i c = some (exec_trace_step C s i c)

module _ (F : Floats) (C : Crates) where
  -- `all_exec_fns` of the primitives, which `register_all` registers in the same order.
  unfoldable pub primitive_fns : List (String × Executor)
  unfolding trace_executor
  primitive_fns =
      ("set_context", ops_executor exec_set_context)
      ∷ ("state_set", writing_executor exec_state_set)
      ∷ ("state_compute", ops_executor exec_state_compute)
      ∷ ("advance_instruction", pure_executor (λ R s i. exec_advance_instruction F R s))
      ∷ ("push_instruction", pure_executor (exec_push_instruction F))
      ∷ ("push_instruction_sequence", pure_executor (exec_push_instruction_sequence F))
      ∷ ("instruction_sequence", exec_instruction_sequence)
      ∷ ("evaluate_domain", pure_executor (exec_evaluate_domain F))
      ∷ ("match_domain", writing_executor (exec_match_domain F))
      ∷ ("domain_intersect", writing_executor exec_domain_intersect)
      ∷ ("apply_rule", exec_apply_rule)
      ∷ ("observe_rules", writing_executor exec_observe_rules)
      ∷ ("filter_rules", writing_executor exec_filter_rules)
      ∷ ("inject_rule", writing_executor exec_inject_rule)
      ∷ ("content_hash", writing_executor (exec_content_hash C))
      ∷ ("get_index", writing_executor exec_get_index)
      ∷ ("object_keys", writing_executor exec_object_keys)
      ∷ ("set_intersection", writing_executor exec_set_intersection)
      ∷ ("set_diff", writing_executor exec_set_diff)
      ∷ ("set_union", writing_executor exec_set_union)
      ∷ ("trace_step", trace_executor C)
      ∷ ("execute_try_catch", exec_execute_try_catch)
      ∷ ("execute_parallel", exec_execute_parallel F)
      ∷ ("noop", pure_executor exec_noop)
      ∷ []

  unfoldable pub control_fns : List (String × Executor)
  control_fns = ("dispatch", exec_dispatch C) ∷ ("while_loop", exec_while_loop F) ∷ []

  unfoldable pub register_all : InstructionRegistry → List (String × Executor) → InstructionRegistry
  unfolding register
  register_all reg [] = reg
  register_all reg ((k, exec) ∷ fns) = register_all (register reg k exec) fns

  -- `InstructionRegistry::new().with_default_context_ops()`
  unfoldable pub with_default_context_ops : InstructionRegistry
  unfolding default_context_ops
  with_default_context_ops = record {
    instructions = [];
    context_ops = default_context_ops F;
    frozen = false;
  }

  unfoldable pub create_full_registry : List (String × Explainer) → InstructionRegistry
  unfolding register_all primitive_fns control_fns with_default_context_ops inject_explainers
  create_full_registry explainers =
      inject_explainers
        (register_all (register_all with_default_context_ops primitive_fns) control_fns) explainers

abbrev pub layer_names : List (String × InstructionLayer)
layer_names =
    ("D0", d0)
    ∷ ("D1", d1)
    ∷ ("D2", d2)
    ∷ ("D3", d3)
    ∷ ("D4", d4)
    ∷ ("D5", d5)
    ∷ ("E0", e0)
    ∷ ("E1", e1)
    ∷ []

abbrev pub layer_of : Value → InstructionLayer
unfolding Accessors.get as_str
layer_of v = unwrap_or (and_then (and_then (Accessors.get v "layer") as_str) (find layer_names)) d0

-- The registry so far, and the names without an executor.
abbrev pub Registration : Type 0
Registration = InstructionRegistry × List String

module _ (fns : List (String × Executor)) (explainers : List (String × Explainer)) where
  abbrev pub register_found : String → Value → Option Executor → Registration → Registration
  unfolding register_with_metadata Accessors.get branch_from_value
  register_found prim_name prim_val none (reg, missing) = (reg, missing ++ prim_name ∷ [])
  register_found prim_name prim_val (some exec) (reg, missing) = (
    register_with_metadata reg prim_name (record {
      exec = exec;
      eval_branch = and_then (Accessors.get prim_val "eval_branch") branch_from_value;
      explainer = find explainers prim_name;
      layer = layer_of prim_val;
    }),
    missing,
  )

  unfoldable pub register_primitives : List (String × Value) → Registration → Registration
  unfolding register_found
  register_primitives [] acc = acc
  register_primitives ((prim_name, prim_val) ∷ primitives) acc = register_primitives primitives (
      if starts_with prim_name "_"
      then acc
      else register_found prim_name prim_val (find fns prim_name) acc)

  unfoldable pub register_categories : List (String × Value) → Registration → Registration
  unfolding register_primitives iter_sorted
  register_categories [] acc = acc
  register_categories ((name, object m) ∷ categories) acc =
      register_categories categories (register_primitives (iter_sorted m) acc)
  register_categories ((name, v) ∷ categories) acc = register_categories categories acc

  abbrev pub self_check :
      (List String → String) → Registration → Result (Unit {0}) × InstructionRegistry
  self_check debug (reg, []) = (ok tt, reg)
  self_check debug (reg, missing) = (
    err (
        invalid_config (
          String.◌++◌ "primitives declared in JSON but not implemented in Rust: " (debug missing))),
    reg,
  )

  -- The registry is changed also when the self-check fails.
  unfoldable pub register_from_config :
      (List String → String) → InstructionRegistry → Value → Result (Unit {0}) × InstructionRegistry
  unfolding register_categories iter_sorted
  register_from_config debug reg (object categories) =
      self_check debug (register_categories (iter_sorted categories) (reg, []))
  register_from_config debug reg v =
      (err (invalid_config "primitives config must be an object"), reg)

abbrev pub or_else :
    Result (Unit {0}) × InstructionRegistry → InstructionRegistry → InstructionRegistry
or_else (ok u, reg) fallback = reg
or_else (err e, reg) fallback = fallback

unfoldable pub create_full_registry_from_config :
    Floats
    → Crates
    → List (String × Explainer)
    → (List String → String)
    → Option Value
    → InstructionRegistry
unfolding create_full_registry register_from_config with_default_context_ops primitive_fns
    control_fns
create_full_registry_from_config F C explainers debug none = create_full_registry F C explainers
create_full_registry_from_config F C explainers debug (some config) =
    or_else
      (register_from_config (primitive_fns F C ++ control_fns F C) explainers debug
        (with_default_context_ops F C) config)
      (create_full_registry F C explainers)
