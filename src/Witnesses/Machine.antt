-- ===== src/Witnesses/Machine.antt =====
-- The theorems on executions on concrete inputs, crates/tcb/src/instruction/registry.rs and
-- crates/tcb/src/control.
use evorule_tcb.Registry.Full.{register_all, with_default_context_ops}
use evorule_tcb.State
use evorule_tcb.Registry.{InstructionDef, d0}
use evorule_tcb.Engine.{Executor, pure_executor}
use evorule_tcb.Engine.Contract.{Respects}
use evorule_tcb.Registry.Execute.{handle}
use evorule_tcb.Registry.Execute.NoCases.{NoCases, ServesExec}
use evorule_tcb.Primitive.Queue.{exec_advance_instruction}
use evorule_tcb.Prelude.{
  ℕ, ◌+◌, ◌^◌, ◌≤◌, ◌≡◌, refl, ◌⊎◌, inl, false, none, some, [], ◌∷◌, arith, ltb, if◌then◌else◌, pos,
  negsuc,
}
use evorule_tcb.Value.Data.{null, integer, string, list, object, nil, cons, end, entry}
use evorule_tcb.Value.ImMap
use evorule_tcb.Error.{ok, err}
use evorule_tcb.ExecCtlCtx.{ExecCtlCtx}
use evorule_tcb.Instruction.{GenericInstruction}
use evorule_tcb.State.{State}
use evorule_tcb.Engine.{Handle}
use evorule_tcb.Engine.Contract.{Ends}
use evorule_tcb.Value.Accessors
use evorule_tcb.Value.DispatchKey.{to_dispatch_key}
use evorule_tcb.ExecCtlCtx
use evorule_tcb.ExecCtlCtx.Laws.{IsWithin}
use evorule_tcb.Instruction
use evorule_tcb.Error.{instruction_limit_exceeded}
use evorule_tcb.Registry.{InstructionRegistry, get}
use evorule_tcb.Registry.Execute.{execute, case_of}
use evorule_tcb.Registry.Execute.Contract.{Advances}
use evorule_tcb.Registry.Execute.SelfNaming.{naming, execute-naming}
use evorule_tcb.Registry.Full.{create_full_registry_from_config}
use evorule_tcb.Registry.Full.Machine.{full_registry-Ends}
use evorule_tcb.Control.WhileLoop.{Settings, step_limit}
use evorule_tcb.Control.WhileLoop.Limit.{step_limit_lem}
use evorule_tcb.Primitive.Noop.{exec_noop}
use evorule_tcb.Control.Refs.{resolve_path, resolve_refs}
use evorule_tcb.Control.Dispatch.{exec_dispatch, cases_and_default}
use evorule_tcb.Control.Dispatch.Records.{Recorded, exec_dispatch_lem}
use evorule_tcb.Witnesses.Domains.{toy_floats}
use evorule_tcb.Witnesses.Audits.{toy_crates}
use evorule_tcb.Witnesses.Queues.{toy_registry}

abbrev start : State
start = record { data_map = entry "x" (integer (pos 1)) end; version = 0 }

abbrev start_ctx : ExecCtlCtx
start_ctx = record {
  depth = 0;
  max_depth = 3;
  tick = 0;
  instruction_count = 0;
  max_instructions = 5;
}

abbrev start_within : IsWithin start_ctx
start_within = record { depth_fits = omega arith; count_fits = omega arith }

abbrev noop_instr : GenericInstruction
noop_instr = record { instruction_type = "noop"; params = end; metadata = null }

abbrev toy_reg : InstructionRegistry
toy_reg = create_full_registry_from_config toy_floats toy_crates [] (λ ts. "") none

full_registry-Ends_example :
    Ends start_ctx (execute toy_crates toy_registry toy_reg 2 start noop_instr start_ctx)
    × Advances start_ctx (execute toy_crates toy_registry toy_reg 2 start noop_instr start_ctx)
full_registry-Ends_example =
    full_registry-Ends toy_floats toy_crates [] (λ ts. "") none toy_registry 2 start noop_instr
      start_ctx

noop_runs :
    execute toy_crates toy_registry toy_reg 2 start noop_instr start_ctx
    ≡ some (ok start, record start_ctx { instruction_count = 1 })
unfolding execute create_full_registry_from_config ExecCtlCtx.enter exec_noop
noop_runs = refl

-- A case that names itself.
abbrev looping : State
looping = record {
  data_map =
      entry "__exec__"
        (object (entry "dispatch_cases" (object (entry "spin" (naming "spin") end)) end)) end;
  version = 0;
}

spin_absent : get toy_reg "spin" ≡ none
unfolding get create_full_registry_from_config
spin_absent = refl

spin_case : case_of toy_crates looping "spin" ≡ some (naming "spin")
unfolding case_of
spin_case = refl

abbrev spin : GenericInstruction
spin = record { instruction_type = "spin"; params = end; metadata = null }

execute-naming_example : execute toy_crates toy_registry toy_reg 1000 looping spin start_ctx ≡ none
unfolding Accessors.is_null
execute-naming_example =
    execute-naming toy_crates toy_registry toy_reg "spin" spin_absent (λ e. cc) 1000 looping spin
      start_ctx refl refl spin_case (omega arith) (omega arith)

-- A handle that counts each instruction, and answers with the state that it is given.
abbrev counting : Handle
counting = record {
  execute = λ s i c.
      if ltb c.instruction_count c.max_instructions
      then some (ok s, record c { instruction_count = c.instruction_count + 1 })
      else some (err (instruction_limit_exceeded c.instruction_count c.max_instructions), c);
  registry = toy_registry;
  context_op = λ t. none;
}

-- A registry with two of the executors, on which every execution returns.
abbrev small_reg : InstructionRegistry
small_reg = register_all toy_floats toy_crates (with_default_context_ops toy_floats toy_crates) (
    ("noop", pure_executor exec_noop)
    ∷ ("advance_instruction", pure_executor (λ R s i. exec_advance_instruction toy_floats R s))
    ∷ [])

abbrev small : Handle
small = handle toy_crates toy_registry small_reg (execute toy_crates toy_registry small_reg 2)

abbrev Executes : InstructionDef → Type 0
Executes def = Respects def.exec × ServesExec def.exec

abbrev d0_def : Executor → InstructionDef
d0_def exec = record { exec = exec; eval_branch = none; explainer = none; layer = d0 }

-- Two meta-instructions are queued.
abbrev queued_noops : State
queued_noops = record {
  data_map =
      entry "__exec__"
        (object (
          entry "queue"
            (list (
              cons (object (entry "type" (string "noop") end))
                (cons (object (entry "type" (string "noop") end)) nil)))
            (entry "dispatch_cases" Accessors.empty_object end)))
        end;
  version = 0;
}

abbrev noop_settings : Settings
noop_settings = record { meta_types = "noop" ∷ []; audit_on = false; drain_meta_trace = false }

abbrev loop_noop : GenericInstruction
loop_noop = record {
  instruction_type = "while_loop";
  params =
      entry "body" (object (entry "type" (string "noop") end))
        (entry "max_steps" (integer (negsuc 0)) end);
  metadata = null;
}

step_limit_lem_example :
    ((k : ℕ) × (negsuc 0 ≡ pos k) × (step_limit loop_noop ≤ 100000) × (step_limit loop_noop ≤ k))
    ⊎ ((k : ℕ) × (negsuc 0 ≡ negsuc k) × (2 ^ 63 ≤ step_limit loop_noop))
unfolding ImMap.get
step_limit_lem_example = step_limit_lem loop_noop (negsuc 0) (omega arith) refl

abbrev dispatch_x : GenericInstruction
dispatch_x = record {
  instruction_type = "dispatch";
  params =
      entry "key" (string "go")
        (entry "cases" (object (entry "go" (object (entry "type" (string "noop") end)) end)) end);
  metadata = null;
}

exec_dispatch_lem_example :
    (r : State) × (exec_dispatch toy_crates counting start dispatch_x start_ctx
      ≡ some (ok r, record start_ctx { instruction_count = 1 }))
    × Recorded toy_crates start start "go" r
unfolding ImMap.get cases_and_default to_dispatch_key resolve_path Instruction.from_value
    resolve_refs
exec_dispatch_lem_example =
    exec_dispatch_lem toy_crates counting start start (object (entry "type" (string "noop") end))
      (record { instruction_type = "noop"; params = end; metadata = Accessors.empty_object })
      start_ctx (record start_ctx { instruction_count = 1 }) refl refl dispatch_x (string "go")
      (entry "go" (object (entry "type" (string "noop") end)) end) none "go" refl refl
      (inl (refl, refl))
