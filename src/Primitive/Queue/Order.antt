-- ===== src/Primitive/Queue/Order.antt =====
-- The queue is first in, first out, and a batch is all or nothing,
-- crates/tcb/src/primitive/queue_ops.rs.
use evorule_tcb.Prelude.{
  String, ◌≡◌, refl, ap, ◌∙◌, ◌⊎◌, inl, inr, some, List, ◌∷◌, ◌++◌, unwrap_or,
}
use evorule_tcb.Value.Data.{to_list-of_list, Value, list, of_list}
use evorule_tcb.Value.ImMap
use evorule_tcb.Error.{EvoRuleError, Result, ok, err}
use evorule_tcb.Platform.{Floats}
use evorule_tcb.Engine.{Registry}
use evorule_tcb.Value.Accessors
use evorule_tcb.Value.Accessors.{empty_object, empty_list}
use evorule_tcb.ExecContext
use evorule_tcb.ExecContext.{ExecContext}
use evorule_tcb.State.{State}
use evorule_tcb.State.Exec.{
  exec_field, update_exec_field, context_or_new, update_exec_field_lem, get-set_exec_context,
}
use evorule_tcb.Instruction.{GenericInstruction}
use evorule_tcb.Primitive.Queue.{
  get_queue, queue_of, exec_advance_instruction, advance, exec_push_instruction_sequence,
  validate_all, to_validate,
}

pub exec_field-update_exec_field :
    (s : State) (field key : String) (v : Value)
    → exec_field (update_exec_field s field v) key
      ≡ Accessors.get (ExecContext.to_value (ExecContext.with_field (context_or_new s) field v)) key
unfolding exec_field update_exec_field
exec_field-update_exec_field s field key v =
    rw (get-set_exec_context s (ExecContext.with_field (context_or_new s) field v)) refl

pub get_queue-update_exec_field :
    (s : State) (vs : List Value) → get_queue (update_exec_field s "queue" (list (of_list vs))) ≡ vs
unfolding get_queue ExecContext.with_field ExecContext.to_value Accessors.get ImMap.get
get_queue-update_exec_field s vs =
    ap queue_of (exec_field-update_exec_field s "queue" "queue" (list (of_list vs)))
    ∙ to_list-of_list vs

pub context_or_new-update_exec_field :
    (s : State) (field : String) (v : Value)
    → context_or_new (update_exec_field s field v)
      ≡ ExecContext.with_field (context_or_new s) field v
context_or_new-update_exec_field s field v =
    ap (λ o. unwrap_or o (ExecContext.new empty_object)) (update_exec_field_lem s field v).0

get_queue-update_instruction :
    (s : State) (vs : List Value) (v : Value)
    → get_queue
        (update_exec_field (update_exec_field s "queue" (list (of_list vs))) "instruction" v)
      ≡ vs
unfolding get_queue ExecContext.with_field ExecContext.to_value Accessors.get ImMap.get
get_queue-update_instruction s vs v =
    let s1 = update_exec_field s "queue" (list (of_list vs)) in
    ap queue_of (exec_field-update_exec_field s1 "instruction" "queue" v)
    ∙ ap (λ c. queue_of (some c.queue))
        (context_or_new-update_exec_field s "queue" (list (of_list vs)))
    ∙ to_list-of_list vs

instruction-update_exec_field :
    (s : State) (v : Value)
    → exec_field (update_exec_field s "instruction" v) "instruction" ≡ some v
unfolding ExecContext.with_field ExecContext.to_value Accessors.get ImMap.get
instruction-update_exec_field s v = exec_field-update_exec_field s "instruction" "instruction" v

Result-cases :
    (m : Result (Unit {0})) → ((u : Unit {0}) × (m ≡ ok u)) ⊎ ((e : EvoRuleError) × (m ≡ err e))
Result-cases (ok u) = inl (u, refl)
Result-cases (err e) = inr (e, refl)

module _ (F : Floats) (R : Registry) where
  -- From a queue that is not empty, `advance_instruction` makes the first instruction the current one
  -- and leaves the others in the queue, in their order.
  pub exec_advance_instruction_lem :
      (s : State) (v : Value) (vs : List Value)
      → get_queue s ≡ v ∷ vs
      → (s' : State) × (exec_advance_instruction F R s ≡ ok s')
        × (get_queue s' ≡ vs)
        × (exec_field s' "instruction" ≡ some v)
  unfolding exec_advance_instruction advance
  exec_advance_instruction_lem s v vs h =
      let s1 = update_exec_field s "queue" (list (of_list vs)) in
      (
        update_exec_field s1 "instruction" v,
        ap (advance F R s) h,
        get_queue-update_instruction s vs v,
        instruction-update_exec_field s1 v,
      )

  -- The instructions that `push_instruction_sequence` is given.
  abbrev pub batch : GenericInstruction → List Value
  unfolding ImMap.get
  batch i = to_validate F R (unwrap_or (ImMap.get i.params "instructions") empty_list)

  -- A batch is enqueued whole, behind the queue and in its order, if every instruction of it passes
  -- the check; otherwise the error of the check is returned and no state.
  pub exec_push_instruction_sequence_lem :
      (s : State) (i : GenericInstruction)
      → ((s' : State) × (exec_push_instruction_sequence F R s i ≡ ok s')
          × (validate_all F R s 0 (batch i) ≡ ok tt)
          × (get_queue s' ≡ get_queue s ++ batch i))
        ⊎ ((e : EvoRuleError) × (exec_push_instruction_sequence F R s i ≡ err e)
            × (validate_all F R s 0 (batch i) ≡ err e))
  unfolding exec_push_instruction_sequence
  exec_push_instruction_sequence_lem s i =
      let pushed = update_exec_field s "queue" (list (of_list (get_queue s ++ batch i))) in
      elim (Result-cases (validate_all F R s 0 (batch i))) [
        | inl (u, e) ↦
            inl (pushed, rw e refl, e, get_queue-update_exec_field s (get_queue s ++ batch i))
        | inr (x, e) ↦ inr (x, rw e refl, e)
      ]
