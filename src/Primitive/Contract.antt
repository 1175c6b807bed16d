-- ===== src/Primitive/Contract.antt =====
-- The primitives of crates/tcb/src/primitive that execute instructions keep to the contract of the
-- executors.
use evorule_tcb.Prelude.{
  String, Bool, Option, none, some, [], ◌∷◌, ◌++◌, ◌==◌, and_then, unwrap_or, option_map,
}
use evorule_tcb.Value.Data.{
  Value, null, bool, integer, float, string, list, object, bytes, Items, nil, cons,
}
use evorule_tcb.Value.ImMap
use evorule_tcb.Error.{EvoRuleError, missing_param, rule_not_found, ok, err}
use evorule_tcb.ExecCtlCtx.{ExecCtlCtx}
use evorule_tcb.Instruction.{GenericInstruction}
use evorule_tcb.State.{State}
use evorule_tcb.Engine.{Outcome, attempt, Handle}
use evorule_tcb.Engine.Contract.{
  After-refl, Ends, Ends-later, Ends->>=, Ends-attempt, Ends-proceed, Ends-if, EndsAll, Respects,
}
use evorule_tcb.Platform.{Floats}
use evorule_tcb.Value.Accessors
use evorule_tcb.Value.Accessors.{empty_list, as_str}
use evorule_tcb.Instruction
use evorule_tcb.Instruction.{ok_or}
use evorule_tcb.State.SetPath.{set_path}
use evorule_tcb.Error.Display.{display}
use evorule_tcb.Control.Refs.{resolve_path, text_param}
use evorule_tcb.Primitive.Queue.Sequence.{exec_instruction_sequence, run_sequence, instruction_list}
use evorule_tcb.Primitive.ErrorOps.{
  caught, run_catch, exec_execute_try_catch, Branches, Continuation, run_branches, run_parallel,
  exec_execute_parallel,
}
use evorule_tcb.Primitive.RuleOps.{exec_apply_rule, chosen_rule}

Ends-caught :
    (c : ExecCtlCtx) (o : Outcome) (succeeded : State × ExecCtlCtx → Outcome)
    (failed : EvoRuleError → ExecCtlCtx → Outcome)
    → Ends c o
    → ((s : State) (d : ExecCtlCtx) → Ends d (succeeded (s, d)))
    → ((e : EvoRuleError) (d : ExecCtlCtx) → Ends d (failed e d))
    → Ends c (caught o succeeded failed)
Ends-caught c none succeeded failed p q r = tt
Ends-caught c (some (ok s, d)) succeeded failed p q r = Ends-later c d (succeeded (s, d)) p (q s d)
Ends-caught c (some (err e, d)) succeeded failed p q r = Ends-later c d (failed e d) p (r e d)

Ends-execute_value :
    (h : Handle)
    → EndsAll h
    → (s : State) (v : Value) (c : ExecCtlCtx)
    → Ends c (attempt (Instruction.from_value v) c (λ i. h.execute s i c))
Ends-execute_value h k s v c = Ends-attempt c (Instruction.from_value v) _ λ i. k s i c

Ends-run_sequence :
    (h : Handle)
    → EndsAll h
    → (vs : Items) (s : State) (c : ExecCtlCtx) → Ends c (run_sequence h vs s c)
unfolding run_sequence
Ends-run_sequence h k nil s c = After-refl c
Ends-run_sequence h k (cons v vs) s c =
    Ends-if c (unwrap_or (and_then (Accessors.get v "type") as_str) "" == "") _ _
      (Ends-run_sequence h k vs s c)
      (Ends-attempt c (Instruction.from_value v) _
        λ i. Ends->>= c (h.execute s i c) _ (k s i c) (Ends-run_sequence h k vs))

pub Respects-exec_instruction_sequence : Respects exec_instruction_sequence
unfolding exec_instruction_sequence
Respects-exec_instruction_sequence = record {
  ends = λ h k s i c.
      Ends-attempt c (instruction_list (unwrap_or (ImMap.get i.params "instructions") empty_list)) _
        λ vs. Ends-run_sequence h k vs s c;
}

Ends-run_catch :
    (h : Handle)
    → EndsAll h
    → (s : State) (v : Option Value) (c : ExecCtlCtx) → Ends c (run_catch h s v c)
unfolding run_catch
Ends-run_catch h k s none c = After-refl c
Ends-run_catch h k s (some v) c =
    Ends-attempt c (Instruction.from_value v) _
      λ i. Ends-caught c (h.execute s i c) _ _ (k s i c) (λ t d. After-refl d) (λ e d. After-refl d)

pub Respects-exec_execute_try_catch : Respects exec_execute_try_catch
unfolding exec_execute_try_catch
Respects-exec_execute_try_catch = record {
  ends = λ h k s i c.
      Ends-attempt c (ok_or (ImMap.get i.params "try") (missing_param "execute_try_catch" "try")) _
        λ v. Ends-attempt c (Instruction.from_value (resolve_path s v)) _ λ j.
          Ends-caught c (h.execute s j c) _ _ (k s j c) (λ t d. After-refl d)
            λ e d.
              Ends-proceed d
                (set_path s (text_param s i "error_attr" "__error__")
                  (string (display h.registry.show e)))
                _
                λ t.
                  Ends-run_catch h k t (option_map (resolve_path s) (ImMap.get i.params "catch")) d;
}

Ends-run_branches :
    (h : Handle)
    → EndsAll h
    → (s : State) (fail_fast : Bool) (vs : Items) (b : Branches) (c : ExecCtlCtx)
      (next : Continuation)
    → ((b : Branches) (d : ExecCtlCtx) → Ends d (next b d))
    → Ends c (run_branches h s fail_fast vs b c next)
unfolding run_branches
Ends-run_branches h k s fail_fast nil b c next q = q b c
Ends-run_branches h k s fail_fast (cons v vs) b c next q =
    Ends-caught c (attempt (Instruction.from_value v) c (λ i. h.execute s i c)) _ _
      (Ends-execute_value h k s v c)
      (λ t d.
        Ends-run_branches h k s fail_fast vs (record b { results = b.results ++ t ∷ [] }) d next q)
      (λ e d.
        let failed = record b { last_error = some e } in
        Ends-if d fail_fast _ _ (q failed d) (Ends-run_branches h k s fail_fast vs failed d next q))

Ends-run_parallel :
    (F : Floats) (h : Handle)
    → EndsAll h
    → (s : State) (m e : String) (v : Value) (c : ExecCtlCtx) → Ends c (run_parallel F h s m e v c)
unfolding run_parallel
Ends-run_parallel F h k s m e (list vs) c =
    Ends-run_branches h k s (e == "fail_fast") vs _ c _ λ b d. After-refl d
Ends-run_parallel F h k s m e null c = After-refl c
Ends-run_parallel F h k s m e (bool b) c = After-refl c
Ends-run_parallel F h k s m e (integer n) c = After-refl c
Ends-run_parallel F h k s m e (float x) c = After-refl c
Ends-run_parallel F h k s m e (string t) c = After-refl c
Ends-run_parallel F h k s m e (object o) c = After-refl c
Ends-run_parallel F h k s m e (bytes bs) c = After-refl c

pub Respects-exec_execute_parallel : (F : Floats) → Respects (exec_execute_parallel F)
unfolding exec_execute_parallel
Respects-exec_execute_parallel F = record {
  ends = λ h k s i c.
      Ends-attempt c
        (ok_or (ImMap.get i.params "branches") (missing_param "execute_parallel" "branches")) _
        λ v. Ends-run_parallel F h k s _ _ (resolve_path s v) c;
}

pub Respects-exec_apply_rule : Respects exec_apply_rule
unfolding exec_apply_rule
Respects-exec_apply_rule = record {
  ends = λ h k s i c. Ends-attempt c (ok_or (chosen_rule s i) (rule_not_found "unknown")) _ λ r.
      Ends-attempt c (ok_or (Accessors.get r "transform") (missing_param "apply_rule" "transform"))
        _
        λ v.
          Ends-attempt c (Instruction.from_value v) _
            λ j. Ends->>= c (h.execute s j c) _ (k s j c) λ t d. After-refl d;
}
