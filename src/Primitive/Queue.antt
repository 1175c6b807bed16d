-- ===== src/Primitive/Queue.antt =====
-- The queue primitives, crates/tcb/src/primitive/queue_ops.rs, with the check of an instruction's type
-- of crates/tcb/src/primitive/mod.rs. What the registry answers is a parameter here.
pub mod Order
pub mod Sequence
use evorule_tcb.Prelude.{
  ℕ, ◌+◌, String, Bool, false, not, ◌&&◌, Option, some, List, [], ◌∷◌, ◌++◌, if◌then◌else◌,
  and_then, unwrap_or, option_map,
}
use evorule_tcb.Value.Data.{
  Value, bool, string, list, object, Entries, end, entry, to_list, of_list,
}
use evorule_tcb.Value.ImMap
use evorule_tcb.Error.{invalid_config, Result, ok, err, ◌>>=◌}
use evorule_tcb.Platform.{Floats}
use evorule_tcb.Engine.{Registry}
use evorule_tcb.Value.Accessors
use evorule_tcb.Value.Accessors.{empty_object, empty_list, as_str, as_object}
use evorule_tcb.State.{State}
use evorule_tcb.State.Exec.{exec_field, update_exec_field}
use evorule_tcb.Instruction.{GenericInstruction}
use evorule_tcb.Domain.{Domain, contains}
use evorule_tcb.Domain.Parse

abbrev pub queue_of : Option Value → List Value
queue_of (some (list v)) = to_list v
queue_of _ = []

unfoldable pub get_queue : State → List Value
unfolding exec_field
get_queue s = queue_of (exec_field s "queue")

abbrev pub default_noop : Value
default_noop = object (entry "type" (string "noop") (entry "params" empty_object end))

module _ (F : Floats) (R : Registry) where
  abbrev pub domain_holds : Option (Result Domain) → State → Bool
  unfolding contains
  domain_holds (some (ok d)) s = contains F d s
  domain_holds _ s = false

  unfoldable pub advance : State → List Value → Result State
  unfolding exec_field update_exec_field domain_holds Parse.from_value
  advance s [] =
      let default_instr = unwrap_or (exec_field s "default_instruction") default_noop in
      let exec_ctx = update_exec_field s "instruction" default_instr in
      let domain = option_map (Parse.from_value R.debug) (exec_field s "termination_domain") in
      if domain_holds domain exec_ctx
      then ok (update_exec_field exec_ctx "__running" (bool false))
      else ok exec_ctx
  advance s (next_instr ∷ remaining) =
      let exec_ctx = update_exec_field s "queue" (list (of_list remaining)) in
      ok (update_exec_field exec_ctx "instruction" next_instr)

  unfoldable pub exec_advance_instruction : State → Result State
  unfolding get_queue advance
  exec_advance_instruction s = advance s (get_queue s)

  -- The table of cases and the type of the instruction, when both are there.
  abbrev pub check_type : Option Entries → Option String → Value → String → Result (Unit {0})
  unfolding ImMap.contains_key
  check_type (some cases_map) (some instr_type) v context =
      if not (R.has instr_type) && not (ImMap.contains_key cases_map instr_type)
      then err (invalid_config (R.describe context instr_type v))
      else ok tt
  check_type _ _ v context = ok tt

  unfoldable pub validate_instruction_type : State → Value → String → Result (Unit {0})
  unfolding exec_field as_object as_str Accessors.get
  validate_instruction_type s v context =
      check_type (and_then (exec_field s "dispatch_cases") as_object)
        (and_then (Accessors.get v "type") as_str) v context

  unfoldable pub exec_push_instruction : State → GenericInstruction → Result State
  unfolding validate_instruction_type get_queue update_exec_field ImMap.get
  exec_push_instruction s i =
      let new_instr = unwrap_or (ImMap.get i.params "instruction") empty_object in
      validate_instruction_type s new_instr "push_instruction" >>= λ u.
      ok (update_exec_field s "queue" (list (of_list (get_queue s ++ new_instr ∷ []))))

  abbrev pub to_validate : Value → List Value
  to_validate (list v) = to_list v
  to_validate v = v ∷ []

  unfoldable pub validate_all : State → ℕ → List Value → Result (Unit {0})
  unfolding validate_instruction_type
  validate_all s i [] = ok tt
  validate_all s i (v ∷ vs) =
      validate_instruction_type s v (R.position "push_instruction_sequence" i) >>= λ u.
      validate_all s (i + 1) vs

  unfoldable pub exec_push_instruction_sequence : State → GenericInstruction → Result State
  unfolding validate_all get_queue update_exec_field ImMap.get
  exec_push_instruction_sequence s i =
      let instructions = to_validate (unwrap_or (ImMap.get i.params "instructions") empty_list) in
      validate_all s 0 instructions >>= λ u.
      ok (update_exec_field s "queue" (list (of_list (get_queue s ++ instructions))))
