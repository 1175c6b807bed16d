-- ===== src/Witnesses/Queues.antt =====
-- The theorems on the queue on concrete inputs, crates/tcb/src/primitive/queue_ops.rs.
use evorule_tcb.Prelude.{◌≡◌, refl, ◌⊎◌, some, [], ◌∷◌, ◌++◌, ◌==◌}
use evorule_tcb.Value.Data.{null, string, list, object, nil, cons, end, entry}
use evorule_tcb.Error.{EvoRuleError, ok, err}
use evorule_tcb.State.{State}
use evorule_tcb.State.Exec.{exec_field}
use evorule_tcb.Instruction.{GenericInstruction}
use evorule_tcb.Engine.{Registry}
use evorule_tcb.Primitive.Queue.{
  get_queue, exec_advance_instruction, exec_push_instruction_sequence, validate_all,
}
use evorule_tcb.Primitive.Queue.Order.{
  batch, exec_advance_instruction_lem, exec_push_instruction_sequence_lem,
}
use evorule_tcb.Witnesses.Domains.{toy_floats}

abbrev pub toy_registry : Registry
toy_registry = record {
  has = λ name. name == "noop";
  describe = λ context instr_type v. context;
  position = λ context i. context;
  debug = λ v. "";
  show = λ n. "";
}

abbrev queued : State
queued = record {
  data_map =
      entry "__exec__"
        (object (entry "queue" (list (cons (string "x") (cons (string "y") nil))) end)) end;
  version = 0;
}

queued_has : get_queue queued ≡ string "x" ∷ string "y" ∷ []
unfolding get_queue exec_field
queued_has = refl

exec_advance_instruction_lem_example :
    (s' : State) × (exec_advance_instruction toy_floats toy_registry queued ≡ ok s')
    × (get_queue s' ≡ string "y" ∷ [])
    × (exec_field s' "instruction" ≡ some (string "x"))
exec_advance_instruction_lem_example =
    exec_advance_instruction_lem toy_floats toy_registry queued (string "x") (string "y" ∷ [])
      queued_has

abbrev push_two : GenericInstruction
push_two = record {
  instruction_type = "push_instruction_sequence";
  params = entry "instructions" (list (cons (string "a") (cons (string "b") nil))) end;
  metadata = null;
}

exec_push_instruction_sequence_lem_example :
    ((s' : State) × (exec_push_instruction_sequence toy_floats toy_registry queued push_two ≡ ok s')
      × (validate_all toy_floats toy_registry queued 0 (batch toy_floats toy_registry push_two)
          ≡ ok tt)
      × (get_queue s' ≡ get_queue queued ++ batch toy_floats toy_registry push_two))
    ⊎ ((e : EvoRuleError) × (exec_push_instruction_sequence toy_floats toy_registry queued push_two
          ≡ err e)
        × (validate_all toy_floats toy_registry queued 0 (batch toy_floats toy_registry push_two)
            ≡ err e))
exec_push_instruction_sequence_lem_example =
    exec_push_instruction_sequence_lem toy_floats toy_registry queued push_two
