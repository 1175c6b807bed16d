-- ===== src/Control/WhileLoop.antt =====
-- The while loop, crates/tcb/src/control/while_loop.rs: the body, the drain of the queue after it, and
-- the flag of a loop that its step limit has ended.
pub mod Contract
pub mod Monotone
pub mod Drain
pub mod Limit
use evorule_tcb.Prelude.{
  ℕ, zero, suc, ◌+◌, ◌-◌, ◌%◌, ◌^◌, String, Bool, true, false, not, ◌&&◌, Option, none, some, List,
  [], ◌∷◌, ◌==◌, nat_eq, if◌then◌else◌, and_then, unwrap_or, option_map, any, ℤ, pos, ltb_ℤ, bits64,
}
use evorule_tcb.Value.Data.{Value, bool, string, list, object, Items, nil, cons, Entries, to_list}
use evorule_tcb.Value.ImMap
use evorule_tcb.Error
use evorule_tcb.Error.{Result, ok}
use evorule_tcb.ExecCtlCtx.{ExecCtlCtx}
use evorule_tcb.Instruction.{GenericInstruction}
use evorule_tcb.State.{State}
use evorule_tcb.Engine.{Outcome, ◌>>=◌, attempt, Registry, Handle, Executor}
use Prim.Native.String
use evorule_tcb.Platform.{Floats}
use evorule_tcb.Value.Accessors
use evorule_tcb.Value.Accessors.{empty_list, as_bool, as_integer, as_str, as_list}
use evorule_tcb.Value.Compare.{truthy}
use evorule_tcb.Instruction
use evorule_tcb.Domain.{contains}
use evorule_tcb.Domain.Parse
use evorule_tcb.State
use evorule_tcb.State.Exec.{exec_field, update_exec_field}
use evorule_tcb.Control.Refs.{resolve_refs}
use evorule_tcb.Control.Dispatch.{is_running}

abbrev pub texts_of : List Value → List String
unfolding as_str
texts_of [] = []
texts_of (string t ∷ vs) = t ∷ texts_of vs
texts_of (_ ∷ vs) = texts_of vs

unfoldable pub load_meta_types : State → List String
unfolding exec_field as_list
load_meta_types s =
    unwrap_or
      (option_map (λ v. texts_of (to_list v))
        (and_then (exec_field s "meta_instruction_types") as_list))
      []

unfoldable pub load_audit_on : State → Bool
unfolding exec_field as_bool
load_audit_on s = unwrap_or (and_then (exec_field s "audit_on") as_bool) true

unfoldable pub load_drain_meta_trace : State → Bool
unfolding exec_field as_bool
load_drain_meta_trace s = unwrap_or (and_then (exec_field s "drain_meta_trace") as_bool) false

unfoldable pub set_trace_source : State → String → State
unfolding update_exec_field
set_trace_source s source = update_exec_field s "__trace_source" (string source)

module _ (F : Floats) (R : Registry) where
  abbrev pub condition_on_object : State → Entries → Result Bool
  unfolding ImMap.contains_key resolve_refs truthy Parse.from_value contains
  condition_on_object s m =
      if ImMap.contains_key m "$ref"
      then ok (truthy F (resolve_refs s (object m)))
      else if ImMap.contains_key m "type"
      then Error.◌>>=◌ (Parse.from_value R.debug (object m)) (λ domain. ok (contains F domain s))
      else ok (truthy F (object m))

  unfoldable pub check_condition : State → Option Value → Result Bool
  unfolding is_running truthy condition_on_object
  check_condition s none = ok (is_running s)
  check_condition s (some (object m)) = condition_on_object s m
  check_condition s (some v) = ok (truthy F v)

abbrev pub type_of : Option Value → String
unfolding Accessors.get as_str
type_of v = unwrap_or (and_then (and_then v (λ i. Accessors.get i "type")) as_str) ""

-- The executions of `trace_step` that the settings ask for.
unfoldable pub trace_if : Bool → Handle → State → ExecCtlCtx → Outcome
unfolding Instruction.simple
trace_if true h s c = h.execute s (Instruction.simple "trace_step") c
trace_if false h s c = some (ok s, c)

-- What the drain reads of the settings at the start of the loop.
pub record Settings : Type 0 where
  pub meta_types : List String
  pub audit_on : Bool
  pub drain_meta_trace : Bool

unfoldable pub settings : State → Settings
unfolding load_meta_types load_audit_on load_drain_meta_trace
settings s = record {
  meta_types = load_meta_types s;
  audit_on = load_audit_on s;
  drain_meta_trace = load_drain_meta_trace s;
}

abbrev pub contains_type : Settings → String → Bool
contains_type g t = any (λ m. m == t) g.meta_types

-- An instruction popped from the queue: a meta-instruction is executed and the drain goes on with
-- `rest`, a business instruction becomes the current one.
unfoldable pub pop_front :
    Handle
    → Settings
    → (rest : State → ExecCtlCtx → Outcome) → State
    → Value
    → Items
    → ExecCtlCtx
    → Outcome
unfolding trace_if Instruction.from_value update_exec_field set_trace_source
pop_front h g rest s next_dict remaining c =
    let popped = update_exec_field s "queue" (list remaining) in
    let next_type = type_of (some next_dict) in
    if contains_type g next_type
    then attempt (Instruction.from_value next_dict) c (λ i.
      h.execute (set_trace_source popped (String.◌++◌ "drain_meta:" next_type)) i c >>= λ p.
      trace_if (g.audit_on && g.drain_meta_trace) h p.0 p.1 >>= λ q. rest q.0 q.1)
    else trace_if g.audit_on h
        (set_trace_source (update_exec_field popped "instruction" next_dict) "queue_pop") c

-- The queue is empty.
unfoldable pub drained : Handle → Settings → State → ExecCtlCtx → Outcome
unfolding trace_if exec_field set_trace_source Instruction.simple
drained h g s c =
    let cur_type = type_of (exec_field s "instruction") in
    if not (cur_type == "") && not (contains_type g cur_type)
    then trace_if g.audit_on h s c
    else (h.execute (set_trace_source s "advance") (Instruction.simple "advance_instruction") c
        >>= λ p. trace_if g.audit_on h p.0 p.1)

unfoldable pub drain_step :
    Handle → Settings → (rest : State → ExecCtlCtx → Outcome) → State → Value → ExecCtlCtx → Outcome
unfolding is_running pop_front drained
drain_step h g rest s (list (cons first remaining)) c =
    if is_running s then pop_front h g rest s first remaining c else some (ok s, c)
drain_step h g rest s (list nil) c = drained h g s c
drain_step h g rest s _ c = some (ok s, c)

-- On fuel: one step is one round of the loop.
unfoldable pub drain : ℕ → Handle → Settings → State → ExecCtlCtx → Outcome
unfolding drain_step exec_field
drain zero h g s c = none
drain (suc f) h g s c =
    drain_step h g (drain f h g) s (unwrap_or (exec_field s "queue") empty_list) c

-- A round that goes on has executed an instruction, so the budget bounds the rounds.
unfoldable pub drain_queue : Handle → Settings → State → ExecCtlCtx → Outcome
unfolding drain
drain_queue h g s c = drain (suc (c.max_instructions - c.instruction_count)) h g s c

unfoldable pub run_all : Handle → Items → State → ExecCtlCtx → Outcome
unfolding Instruction.from_value
run_all h nil s c = some (ok s, c)
run_all h (cons v vs) s c =
    attempt (Instruction.from_value v) c λ i. h.execute s i c >>= λ p. run_all h vs p.0 p.1

abbrev pub body_items : Value → Items
body_items (list instructions) = instructions
body_items v = cons v nil

-- `last_step == max_steps - 1`, where the subtraction wraps around.
unfoldable pub finish : (max_steps last_step : ℕ) → (condition_holds_at_exit : Bool) → State → State
unfolding update_exec_field is_running
finish max_steps last_step condition_holds_at_exit s =
    update_exec_field s "__terminated_by_max_steps" (
      bool (
        nat_eq last_step ((max_steps + (2 ^ 64 - 1)) % 2 ^ 64)
        && condition_holds_at_exit
        && is_running s))

abbrev pub default_max_steps : ℤ
default_max_steps = pos 10000

abbrev pub min_ℤ : ℤ → ℤ → ℤ
min_ℤ a b = if ltb_ℤ b a then b else a

-- `.min(100000) as usize`
unfoldable pub step_limit : GenericInstruction → ℕ
unfolding ImMap.get as_integer
step_limit i = bits64 (
    min_ℤ (unwrap_or (and_then (ImMap.get i.params "max_steps") as_integer) default_max_steps)
      (pos 100000))

module _ (F : Floats) (h : Handle) (g : Settings) (condition : Option Value) (max_steps : ℕ) where
  -- `left` steps of the loop are left, the next one is `step`.
  unfoldable pub steps :
      (left step last_step : ℕ) → Bool → Option Value → State → ExecCtlCtx → Outcome
  unfolding check_condition run_all drain_queue finish is_running
  steps zero step last_step holds body s c = some (ok (finish max_steps last_step holds s), c)
  steps (suc left) step last_step holds none s c =
      attempt (check_condition F h.registry s condition) c
        λ go. some (ok (finish max_steps step false s), c)
  steps (suc left) step last_step holds (some body) s c =
      attempt (check_condition F h.registry s condition) c λ go.
        if not go
        then some (ok (finish max_steps step false s), c)
        else (run_all h (body_items body) s c >>= λ p. drain_queue h g p.0 p.1 >>= λ q.
            if not (is_running q.0)
            then some (ok (finish max_steps step false q.0), q.1)
            else steps left (step + 1) step true (some body) q.0 q.1)

module _ (F : Floats) where
  unfoldable pub exec_while_loop : Executor
  unfolding step_limit steps settings ImMap.get
  exec_while_loop h s i c =
      steps F h (settings s) (ImMap.get i.params "condition") (step_limit i) (step_limit i) 0 0
        false (ImMap.get i.params "body") s c
