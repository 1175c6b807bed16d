-- ===== src/Primitive/Monotone.antt =====
-- The primitives of crates/tcb/src/primitive that execute instructions are monotone in the fuel of
-- their handle.
use evorule_tcb.Prelude.{
  String, Bool, Option, none, some, [], ◌∷◌, ◌++◌, ◌==◌, and_then, unwrap_or, option_map,
}
use evorule_tcb.Value.Data.{
  Value, null, bool, integer, float, string, list, object, bytes, Items, nil, cons,
}
use evorule_tcb.Value.ImMap
use evorule_tcb.Error.{EvoRuleError, missing_param, rule_not_found, ok, err}
use evorule_tcb.ExecCtlCtx.{ExecCtlCtx}
use evorule_tcb.Instruction.{GenericInstruction}
use evorule_tcb.State.{State}
use evorule_tcb.Engine.{Outcome, Registry, Handle}
use evorule_tcb.Engine.Fuel.{
  ◌⊑◌, out_of_fuel, equal, ⊑->>=, ⊑-attempt, ⊑-proceed, ⊑-if, Below, with_execute, IsMonotone,
}
use evorule_tcb.Platform.{Floats}
use evorule_tcb.Value.Accessors
use evorule_tcb.Value.Accessors.{empty_list, as_str}
use evorule_tcb.Instruction
use evorule_tcb.Instruction.{ok_or}
use evorule_tcb.State.SetPath.{set_path}
use evorule_tcb.Error.Display.{display}
use evorule_tcb.Control.Refs.{resolve_path, text_param}
use evorule_tcb.Primitive.Queue.Sequence.{exec_instruction_sequence, run_sequence, instruction_list}
use evorule_tcb.Primitive.ErrorOps.{
  caught, run_catch, exec_execute_try_catch, Branches, Continuation, run_branches, run_parallel,
  exec_execute_parallel,
}
use evorule_tcb.Primitive.RuleOps.{exec_apply_rule, chosen_rule}

⊑-caught :
    {o p : Outcome} (f g : State × ExecCtlCtx → Outcome) (x y : EvoRuleError → ExecCtlCtx → Outcome)
    → o ⊑ p
    → ((s : State) (d : ExecCtlCtx) → f (s, d) ⊑ g (s, d))
    → ((e : EvoRuleError) (d : ExecCtlCtx) → x e d ⊑ y e d)
    → caught o f x ⊑ caught p g y
⊑-caught f g x y out_of_fuel q r = out_of_fuel
⊑-caught f g x y (equal {o = none}) q r = equal
⊑-caught f g x y (equal {o = some (ok s, d)}) q r = q s d
⊑-caught f g x y (equal {o = some (err e, d)}) q r = r e d

module _ (R : Registry) (ops : String → Option (Value → Value → Value))
    (m n : State → GenericInstruction → ExecCtlCtx → Outcome) (below : Below m n) where
  abbrev low : Handle
  low = with_execute R ops m

  abbrev high : Handle
  high = with_execute R ops n

  ⊑-run_sequence :
      (vs : Items) (s : State) (c : ExecCtlCtx) → run_sequence low vs s c ⊑ run_sequence high vs s c
  unfolding run_sequence
  ⊑-run_sequence nil s c = equal
  ⊑-run_sequence (cons v vs) s c =
      ⊑-if (unwrap_or (and_then (Accessors.get v "type") as_str) "" == "") _ _ _ _
        (⊑-run_sequence vs s c)
        (⊑-attempt (Instruction.from_value v) c _ _
          λ i. ⊑->>= _ _ (below s i c) (⊑-run_sequence vs))

  ⊑-run_catch :
      (s : State) (v : Option Value) (c : ExecCtlCtx) → run_catch low s v c ⊑ run_catch high s v c
  unfolding run_catch
  ⊑-run_catch s none c = equal
  ⊑-run_catch s (some v) c =
      ⊑-attempt (Instruction.from_value v) c _ _
        λ i. ⊑-caught _ _ _ _ (below s i c) (λ t d. equal) (λ e d. equal)

  ⊑-run_branches :
      (s : State) (fail_fast : Bool) (vs : Items) (b : Branches) (c : ExecCtlCtx)
      (next : Continuation)
      → run_branches low s fail_fast vs b c next ⊑ run_branches high s fail_fast vs b c next
  unfolding run_branches
  ⊑-run_branches s fail_fast nil b c next = equal
  ⊑-run_branches s fail_fast (cons v vs) b c next =
      ⊑-caught _ _ _ _
        (⊑-attempt (Instruction.from_value v) c (λ i. m s i c) (λ i. n s i c) λ i. below s i c)
        (λ t d. ⊑-run_branches s fail_fast vs (record b { results = b.results ++ t ∷ [] }) d next)
        (λ e d.
          ⊑-if fail_fast _ _ _ _ equal
            (⊑-run_branches s fail_fast vs (record b { last_error = some e }) d next))

  ⊑-run_parallel :
      (F : Floats) (s : State) (merge strategy : String) (v : Value) (c : ExecCtlCtx)
      → run_parallel F low s merge strategy v c ⊑ run_parallel F high s merge strategy v c
  unfolding run_parallel
  ⊑-run_parallel F s merge strategy (list vs) c =
      ⊑-run_branches s (strategy == "fail_fast") vs _ c _
  ⊑-run_parallel F s merge strategy null c = equal
  ⊑-run_parallel F s merge strategy (bool b) c = equal
  ⊑-run_parallel F s merge strategy (integer z) c = equal
  ⊑-run_parallel F s merge strategy (float x) c = equal
  ⊑-run_parallel F s merge strategy (string t) c = equal
  ⊑-run_parallel F s merge strategy (object o) c = equal
  ⊑-run_parallel F s merge strategy (bytes bs) c = equal

pub IsMonotone-exec_instruction_sequence : IsMonotone exec_instruction_sequence
unfolding exec_instruction_sequence
IsMonotone-exec_instruction_sequence = record {
  below = λ R ops m n k s i c.
      ⊑-attempt (instruction_list (unwrap_or (ImMap.get i.params "instructions") empty_list)) c _ _
        λ vs. ⊑-run_sequence R ops m n k vs s c;
}

pub IsMonotone-exec_execute_try_catch : IsMonotone exec_execute_try_catch
unfolding exec_execute_try_catch
IsMonotone-exec_execute_try_catch = record {
  below = λ R ops m n k s i c.
      ⊑-attempt (ok_or (ImMap.get i.params "try") (missing_param "execute_try_catch" "try")) c _ _
        λ v. ⊑-attempt (Instruction.from_value (resolve_path s v)) c _ _ λ j.
          ⊑-caught _ _ _ _ (k s j c) (λ t d. equal)
            λ e d.
              ⊑-proceed
                (set_path s (text_param s i "error_attr" "__error__") (string (display R.show e))) d
                _ _
                λ t.
                  ⊑-run_catch R ops m n k t
                    (option_map (resolve_path s) (ImMap.get i.params "catch")) d;
}

pub IsMonotone-exec_execute_parallel : (F : Floats) → IsMonotone (exec_execute_parallel F)
unfolding exec_execute_parallel
IsMonotone-exec_execute_parallel F = record {
  below = λ R ops m n k s i c.
      ⊑-attempt
        (ok_or (ImMap.get i.params "branches") (missing_param "execute_parallel" "branches")) c _ _
        λ v. ⊑-run_parallel R ops m n k F s _ _ (resolve_path s v) c;
}

pub IsMonotone-exec_apply_rule : IsMonotone exec_apply_rule
unfolding exec_apply_rule
IsMonotone-exec_apply_rule = record {
  below = λ R ops m n k s i c.
      ⊑-attempt (ok_or (chosen_rule s i) (rule_not_found "unknown")) c _ _ λ r.
        ⊑-attempt (ok_or (Accessors.get r "transform") (missing_param "apply_rule" "transform")) c _
          _ λ v. ⊑-attempt (Instruction.from_value v) c _ _ λ j. ⊑->>= _ _ (k s j c) λ t d. equal;
}
