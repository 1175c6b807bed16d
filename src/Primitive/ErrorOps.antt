-- ===== src/Primitive/ErrorOps.antt =====
-- The error primitives, crates/tcb/src/primitive/error_ops.rs: an execution with a fallback, and
-- branches that are executed one after the other and merged.
pub mod Merge
pub mod LastBranch
use evorule_tcb.Prelude.{
  ℕ, ◌+◌, String, Bool, true, not, ◌&&◌, Option, none, some, List, [], ◌∷◌, ◌++◌, ◌==◌,
  if◌then◌else◌, option_map, length, any, of_bits64,
}
use evorule_tcb.Value.Data.{
  Value, integer, string, list, object, Items, nil, cons, Entries, end, entry,
}
use evorule_tcb.Value.ImMap
use evorule_tcb.Error.{EvoRuleError, type_error, missing_param, invalid_param, Result, ok, err}
use evorule_tcb.ExecCtlCtx.{ExecCtlCtx}
use evorule_tcb.State.{State}
use evorule_tcb.Engine.{Outcome, attempt, proceed, Handle, Executor}
use evorule_tcb.Platform.{Floats}
use evorule_tcb.Value.Accessors.{type_name}
use evorule_tcb.Value.Compare.{value_eq}
use evorule_tcb.Error.Display.{display}
use evorule_tcb.Instruction
use evorule_tcb.Instruction.{ok_or}
use evorule_tcb.State
use evorule_tcb.State.SetPath.{set_path}
use evorule_tcb.Control.Refs.{resolve_path, text_param}
use evorule_tcb.Primitive.ComputeOps.{distinct, sort_texts}

-- A result that is not handed on: what is done on success and on an error.
abbrev pub caught :
    Outcome → (State × ExecCtlCtx → Outcome) → (EvoRuleError → ExecCtlCtx → Outcome) → Outcome
caught none succeeded failed = none
caught (some (ok s, c)) succeeded failed = succeeded (s, c)
caught (some (err e, c)) succeeded failed = failed e c

abbrev pub done : State × ExecCtlCtx → Outcome
done p = some (ok p.0, p.1)

unfoldable pub run_catch : Handle → State → Option Value → ExecCtlCtx → Outcome
unfolding Instruction.from_value
run_catch h s none c = some (ok s, c)
run_catch h s (some v) c =
    attempt (Instruction.from_value v) c
      (λ i. caught (h.execute s i c) done (λ e d. some (ok s, d)))

unfoldable pub exec_execute_try_catch : Executor
unfolding resolve_path ImMap.get text_param Instruction.from_value set_path display run_catch
exec_execute_try_catch h s i c =
    attempt (ok_or (ImMap.get i.params "try") (missing_param "execute_try_catch" "try")) c
      λ try_raw.
        let catch_val = option_map (resolve_path s) (ImMap.get i.params "catch") in
        let error_attr = text_param s i "error_attr" "__error__" in
        attempt (Instruction.from_value (resolve_path s try_raw)) c λ try_instr.
          caught (h.execute s try_instr c) done (λ e d.
            proceed (set_path s error_attr (string (display h.registry.show e))) d
              (λ state_with_error. run_catch h state_with_error catch_val d))

-- What the branches have left so far: the states of those that succeeded, and the last error.
pub record Branches : Type 0 where
  pub results : List State
  pub last_error : Option EvoRuleError

abbrev pub Continuation : Type 0
Continuation = Branches → ExecCtlCtx → Outcome

-- Every branch is executed on the same state.
unfoldable pub run_branches :
    Handle → State → (fail_fast : Bool) → Items → Branches → ExecCtlCtx → Continuation → Outcome
unfolding Instruction.from_value
run_branches h s fail_fast nil b c next = next b c
run_branches h s fail_fast (cons v vs) b c next =
    caught (attempt (Instruction.from_value v) c (λ i. h.execute s i c))
      (λ p. run_branches h s fail_fast vs (record b { results = b.results ++ p.0 ∷ [] }) p.1 next)
      (λ e d.
        let failed = record b { last_error = some e } in
        if fail_fast then next failed d else run_branches h s fail_fast vs failed d next)

abbrev pub merge_system_fields : List String
merge_system_fields =
    "__exec__" ∷ "__universe_rules__" ∷ "__domain_result__" ∷ "__audit_chain" ∷ "__audit_trace"
    ∷ "__parallel_provenance__" ∷ []

module _ (F : Floats) where
  abbrev pub differs : Option Value → Value → Bool
  unfolding value_eq
  differs none v = true
  differs (some w) v = not (value_eq F w v)

  -- The fields of a result that are no system fields and differ from the initial state.
  abbrev pub changed_in : State → Entries → List String
  unfolding State.get
  changed_in s end = []
  changed_in s (entry k v m) =
      let rest = changed_in s m in
      if not (any (λ n. n == k) merge_system_fields) && differs (State.get s k) v
      then k ∷ rest
      else rest

  abbrev pub changed_in_any : State → List State → List String
  changed_in_any s [] = []
  changed_in_any s (r ∷ rs) = changed_in s r.data_map ++ changed_in_any s rs

  unfoldable pub changed_keys : State → List State → List String
  unfolding distinct sort_texts
  changed_keys s results = sort_texts (distinct (changed_in_any s results))

  abbrev pub write_of : State → String → Option Value → ℕ → Option (Value × ℕ) → Option (Value × ℕ)
  unfolding State.get
  write_of s k none branch_idx found = found
  write_of s k (some v) branch_idx found =
      if differs (State.get s k) v then some (v, branch_idx) else found

  unfoldable pub last_write :
      State → String → ℕ → List State → Option (Value × ℕ) → Option (Value × ℕ)
  unfolding State.get
  last_write s k branch_idx [] found = found
  last_write s k branch_idx (r ∷ rs) found =
      last_write s k (branch_idx + 1) rs (write_of s k (State.get r k) branch_idx found)

  abbrev pub merge_field : String → ℕ → Option (Value × ℕ) → State × Entries → State × Entries
  unfolding State.set ImMap.insert
  merge_field k total none (merged, provenance) = (merged, provenance)
  merge_field k total (some (v, branch_idx)) (merged, provenance) = (
    State.set merged k v,
    ImMap.insert provenance k (
        object (
          entry "branch" (integer (of_bits64 branch_idx))
            (entry "total_branches" (integer (of_bits64 total)) end))),
  )

  unfoldable pub merge_fields : State → List State → List String → State × Entries → State × Entries
  unfolding last_write
  merge_fields s results [] acc = acc
  merge_fields s results (k ∷ ks) acc =
      merge_fields s results ks (merge_field k (length results) (last_write s k 0 results none) acc)

  abbrev pub with_provenance : State × Entries → State
  unfolding State.set
  with_provenance (merged, end) = merged
  with_provenance (merged, provenance) =
      State.set merged "__parallel_provenance__" (object provenance)

  unfoldable pub force_merge : State → List State → State
  unfolding changed_keys merge_fields
  force_merge s results = with_provenance (merge_fields s results (changed_keys s results) (s, end))

  abbrev pub last_result : State → List State → State
  last_result r [] = r
  last_result r (q ∷ rs) = last_result q rs

  unfoldable pub merge_results :
      State → (merge_strategy : String) → Option EvoRuleError → List State → Result State
  unfolding force_merge
  merge_results s merge_strategy (some e) [] = err e
  merge_results s merge_strategy none [] =
      err (invalid_param "execute_parallel" "branches" "empty branches list or all branches failed")
  merge_results s merge_strategy last_error (r ∷ rs) =
      if merge_strategy == "force" then ok (force_merge s (r ∷ rs)) else ok (last_result r rs)

  unfoldable pub run_parallel :
      Handle → State → (merge_strategy error_strategy : String) → Value → ExecCtlCtx → Outcome
  unfolding run_branches merge_results type_name
  run_parallel h s merge_strategy error_strategy (list branches) c =
      run_branches h s (error_strategy == "fail_fast") branches
        (record { results = []; last_error = none }) c
        (λ b d. some (merge_results s merge_strategy b.last_error b.results, d))
  run_parallel h s merge_strategy error_strategy v c =
      some (err (type_error "List" (type_name v)), c)

  unfoldable pub exec_execute_parallel : Executor
  unfolding resolve_path ImMap.get text_param run_parallel
  exec_execute_parallel h s i c =
      attempt (ok_or (ImMap.get i.params "branches") (missing_param "execute_parallel" "branches"))
        c
        λ v.
          run_parallel h s (text_param s i "merge" "last_wins")
            (text_param s i "error_strategy" "fail_fast") (resolve_path s v) c
