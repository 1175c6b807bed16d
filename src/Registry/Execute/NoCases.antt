-- ===== src/Registry/Execute/NoCases.antt =====
-- States whose context has no dispatch cases, under `execute` of
-- crates/tcb/src/instruction/registry.rs: no instruction is expanded, so every execution returns.
use evorule_tcb.Prelude.{
  ℕ, suc, String, ◌≡◌, refl, ap, ◌∙◌, Bool, true, false, Option, none, some, List, [], ◌∷◌,
  if◌then◌else◌, and_then, unwrap_or, option_map,
}
use evorule_tcb.Value.Data.{Value, bool, string, list, of_list}
use evorule_tcb.Value.ImMap
use evorule_tcb.Error.{Result, ok, err}
use evorule_tcb.ExecCtlCtx.{ExecCtlCtx}
use evorule_tcb.Instruction.{GenericInstruction}
use evorule_tcb.State.{State}
use evorule_tcb.Engine.{Outcome, Registry, Handle, Executor, pure_executor}
use evorule_tcb.Engine.Returns.{ReturnsIn}
use evorule_tcb.Platform.{Crates}
use evorule_tcb.Value.Accessors
use evorule_tcb.Value.Accessors.{empty_object, as_object}
use evorule_tcb.ExecCtlCtx
use evorule_tcb.ExecContext
use evorule_tcb.ExecContext.{ExecContext}
use evorule_tcb.State
use evorule_tcb.State.Exec.{
  exec_context, exec_field, context_or_new, update_exec_field, get-set_exec_context,
}
use evorule_tcb.Primitive.Noop.{exec_noop}
use evorule_tcb.Primitive.Queue.{
  get_queue, default_noop, domain_holds, advance, exec_advance_instruction,
}
use evorule_tcb.Platform.{Floats}
use evorule_tcb.Control.WhileLoop.{set_trace_source}
use evorule_tcb.Control.WhileLoop.Drain.{Serves}
use evorule_tcb.Registry.{InstructionRegistry, InstructionDef, get}
use evorule_tcb.Registry.Execute.{
  case_of, expansion, exited, entered, expanded, run_entry, handle, execute, execute_inner,
}
use evorule_tcb.Registry.Execute.Contract.{AllRespect, execute-Ends, execute-Advances}

abbrev pub NoCases : State → Type 0
NoCases s = exec_field s "dispatch_cases" ≡ some empty_object

case_of-NoCases : (C : Crates) (s : State) (t : String) → NoCases s → case_of C s t ≡ none
unfolding case_of as_object ImMap.get
case_of-NoCases C s t p = rw p refl

old_cases :
    (o : Option Value)
    → and_then o (λ v. Accessors.get v "dispatch_cases") ≡ some empty_object
    → (unwrap_or
        (option_map ExecContext.from_value o)
        (ExecContext.new empty_object)).dispatch_cases
      ≡ empty_object
unfolding ExecContext.from_value
old_cases none h = cc
old_cases (some v) h = ap (λ o. unwrap_or o empty_object) h

-- An update of a field other than `dispatch_cases` leaves the cases away.
pub update_exec_field-NoCases :
    (s : State) (field : String) (v : Value)
    → ((c : ExecContext) → (ExecContext.with_field c field v).dispatch_cases ≡ c.dispatch_cases)
    → NoCases s
    → NoCases (update_exec_field s field v)
unfolding exec_field update_exec_field exec_context ExecContext.to_value Accessors.get ImMap.get
    State.get
update_exec_field-NoCases s field v h p =
    let ctx = ExecContext.with_field (context_or_new s) field v in
    ap (λ o. and_then o (λ e. Accessors.get e "dispatch_cases")) (get-set_exec_context s ctx)
    ∙ ap some (h (context_or_new s) ∙ old_cases (State.get s "__exec__") p)

-- An executor that returns on such states, with such a state or an error.
abbrev pub ServesExec : Executor → Type 0
ServesExec e =
    (h : Handle) (s : State) (i : GenericInstruction) (c : ExecCtlCtx)
    → NoCases s
    → ReturnsIn NoCases (e h s i c)

pub exec_noop-ServesExec : ServesExec (pure_executor exec_noop)
unfolding exec_noop
exec_noop-ServesExec h s i c p = p

if-ReturnsIn :
    (b : Bool) (s t : State) (c : ExecCtlCtx)
    → NoCases s
    → NoCases t
    → ReturnsIn NoCases (some (if b then ok s else ok t, c))
if-ReturnsIn true s t c p q = p
if-ReturnsIn false s t c p q = q

advance-ReturnsIn :
    (F : Floats) (R : Registry) (s : State) (vs : List Value) (c : ExecCtlCtx)
    → NoCases s
    → ReturnsIn NoCases (some (advance F R s vs, c))
unfolding advance ExecContext.with_field
advance-ReturnsIn F R s [] c p =
    let default_instr = unwrap_or (exec_field s "default_instruction") default_noop in
    let exec_ctx = update_exec_field s "instruction" default_instr in
    let q = update_exec_field-NoCases s "instruction" default_instr (λ c. refl) p in
    if-ReturnsIn (domain_holds F R _ exec_ctx) _ exec_ctx c
      (update_exec_field-NoCases exec_ctx "__running" (bool false) (λ c. refl) q) q
advance-ReturnsIn F R s (v ∷ vs) c p =
    update_exec_field-NoCases _ "instruction" v (λ c. refl)
      (update_exec_field-NoCases s "queue" (list (of_list vs)) (λ c. refl) p)

pub exec_advance_instruction-ServesExec :
    (F : Floats) → ServesExec (pure_executor (λ R s i. exec_advance_instruction F R s))
unfolding exec_advance_instruction
exec_advance_instruction-ServesExec F h s i c p = advance-ReturnsIn F h.registry s (get_queue s) c p

-- Every registered executor does.
abbrev pub AllServe : InstructionRegistry → Type 0
AllServe reg = (t : String) (def : InstructionDef) → get reg t ≡ some def → ServesExec def.exec

exited-ReturnsIn : (o : Outcome) → ReturnsIn NoCases o → ReturnsIn NoCases (exited o)
unfolding exited
exited-ReturnsIn none p = p
exited-ReturnsIn (some (ok s, c)) p = p
exited-ReturnsIn (some (err e, c)) p = tt

entered-ReturnsIn :
    (r : Result ExecCtlCtx) (c : ExecCtlCtx) (inner : ExecCtlCtx → Outcome)
    → ((d : ExecCtlCtx) → ReturnsIn NoCases (inner d))
    → ReturnsIn NoCases (entered r c inner)
unfolding entered
entered-ReturnsIn (err e) c inner p = tt
entered-ReturnsIn (ok d) c inner p = exited-ReturnsIn (inner d) (p d)

module _ (C : Crates) (texts : Registry) (reg : InstructionRegistry) (serve : AllServe reg) where
  run_entry-ReturnsIn :
      (entry : Option InstructionDef) (h : Handle) (s : State) (i : GenericInstruction)
      (c : ExecCtlCtx) (fallback : Outcome)
      → get reg i.instruction_type ≡ entry
      → NoCases s
      → ReturnsIn NoCases fallback
      → ReturnsIn NoCases (run_entry entry h s i c fallback)
  run_entry-ReturnsIn none h s i c fallback e p q = q
  run_entry-ReturnsIn (some def) h s i c fallback e p q = serve i.instruction_type def e h s i c p

  expanded-ReturnsIn :
      (inner : State → GenericInstruction → ExecCtlCtx → Outcome) (s : State)
      (i : GenericInstruction) (c : ExecCtlCtx)
      → NoCases s
      → ReturnsIn NoCases (expanded inner i c (expansion C s i))
  unfolding expansion
  expanded-ReturnsIn inner s i c p = rw (case_of-NoCases C s i.instruction_type p) tt

  -- On fuel 2 or more, on a state without dispatch cases, every execution returns.
  pub execute-ReturnsIn :
      (f : ℕ) (s : State) (i : GenericInstruction) (c : ExecCtlCtx)
      → NoCases s
      → ReturnsIn NoCases (execute C texts reg (suc (suc f)) s i c)
  unfolding execute execute_inner
  execute-ReturnsIn f s i c p =
      entered-ReturnsIn (ExecCtlCtx.enter c) c (execute_inner C texts reg (suc f) s i) λ d.
        run_entry-ReturnsIn (get reg i.instruction_type)
          (handle C texts reg (execute C texts reg f)) s i d
          (expanded (execute_inner C texts reg f) i d (expansion C s i)) refl p
          (expanded-ReturnsIn (execute_inner C texts reg f) s i d p)

  -- So the registry serves these states.
  pub handle-Serves :
      (f : ℕ)
      → AllRespect reg
      → Serves (handle C texts reg (execute C texts reg (suc (suc f)))) NoCases
  unfolding handle ExecContext.with_field set_trace_source
  handle-Serves f keep = record {
    ends = λ s i c. execute-Ends C texts reg keep (suc (suc f)) s i c;
    advances = λ s i c. execute-Advances C texts reg keep (suc (suc f)) s i c;
    returns = λ s i c p. execute-ReturnsIn f s i c p;
    queue_set = λ s v p. update_exec_field-NoCases s "queue" v (λ c. refl) p;
    instruction_set = λ s v p. update_exec_field-NoCases s "instruction" v (λ c. refl) p;
    source_set = λ s t p. update_exec_field-NoCases s "__trace_source" (string t) (λ c. refl) p;
    finished =
        λ s b p. update_exec_field-NoCases s "__terminated_by_max_steps" (bool b) (λ c. refl) p;
  }
