-- ===== src/State/Exec.antt =====
-- The `__exec__` object of a state, crates/tcb/src/state.rs: reading it as a context, and updating
-- one of its fields.
use evorule_tcb.Prelude.{
  String, ◌≡◌, refl, ap, ◌∙◌, ◌≢◌, false, Option, none, some, List, [], ◌∷◌, arith, ◌==◌, and_then,
  unwrap_or, option_map, any,
}
use evorule_tcb.Value.Data.{Value, of_pairs}
use evorule_tcb.Value.ImMap
use evorule_tcb.Value.Accessors
use evorule_tcb.Value.Accessors.{empty_object}
use evorule_tcb.State.{State, next_version, get, set}
use evorule_tcb.ExecContext
use evorule_tcb.ExecContext.{ExecContext}
use evorule_tcb.ExecContext.Laws.{context_from_value-to_value}

unfoldable pub exec_context : State → Option ExecContext
exec_context s = option_map ExecContext.from_value (get s "__exec__")

unfoldable pub set_exec_context : State → ExecContext → State
set_exec_context s ctx = set s "__exec__" (ExecContext.to_value ctx)

abbrev pub context_or_new : State → ExecContext
context_or_new s = unwrap_or (exec_context s) (ExecContext.new empty_object)

unfoldable pub update_exec_field : State → String → Value → State
unfolding exec_context set_exec_context
update_exec_field s field value =
    set_exec_context s (ExecContext.with_field (context_or_new s) field value)

-- `state.get("__exec__").and_then(|v| v.get(key))`
unfoldable pub exec_field : State → String → Option Value
unfolding get Accessors.get
exec_field s key = and_then (get s "__exec__") (λ v. Accessors.get v key)

pub get-set_exec_context :
    (s : State) (ctx : ExecContext)
    → get (set_exec_context s ctx) "__exec__" ≡ some (ExecContext.to_value ctx)
unfolding set_exec_context get set
get-set_exec_context s ctx = ImMap.get-insert_self s.data_map "__exec__" (ExecContext.to_value ctx)

-- The context of the new state is the old one with the field changed; every other key of the state
-- keeps its value, and the version is the next one.
pub update_exec_field_lem :
    (s : State) (field : String) (value : Value)
    → (exec_context (update_exec_field s field value)
        ≡ some (ExecContext.with_field (context_or_new s) field value))
      × ((j : String) → "__exec__" ≢ j → get (update_exec_field s field value) j ≡ get s j)
      × ((update_exec_field s field value).version ≡ next_version s)
unfolding update_exec_field set get
update_exec_field_lem s field value =
    let ctx = ExecContext.with_field (context_or_new s) field value in
    (
      ap (option_map ExecContext.from_value) (get-set_exec_context s ctx)
          ∙ ap some (context_from_value-to_value ctx),
      λ j. ImMap.get-insert_ne s.data_map "__exec__" j (ExecContext.to_value ctx),
      refl,
    )

abbrev pub exec_fields : List String
exec_fields =
    "instruction" ∷ "queue" ∷ "__running" ∷ "metadata" ∷ "default_instruction"
    ∷ "termination_domain" ∷ "meta_instruction_types" ∷ "audit_on" ∷ "drain_meta_trace"
    ∷ "dispatch_cases" ∷ "dispatch_default" ∷ "dispatch_table_version" ∷ "last_dispatch_hashes"
    ∷ "__trace_source" ∷ "__terminated_by_max_steps" ∷ []

get_absent :
    (key : String) (m : List (String × Value))
    → any (λ e. e.0 == key) m ≡ false
    → ImMap.get (of_pairs m) key ≡ none
unfolding ImMap.get
get_absent key [] h = refl
get_absent key ((k, v) ∷ m) h = ground (arith, get_absent key m)

to_value-unknown :
    (ctx : ExecContext) (key : String)
    → any (λ f. f == key) exec_fields ≡ false
    → Accessors.get (ExecContext.to_value ctx) key ≡ none
unfolding ExecContext.to_value Accessors.get ImMap.get
to_value-unknown ctx key h = get_absent key (ExecContext.field_pairs ctx) h

-- A field that the context does not know is gone after any update, also an update of that field.
pub update_exec_field-unknown :
    (s : State) (field key : String) (value : Value)
    → any (λ f. f == key) exec_fields ≡ false
    → exec_field (update_exec_field s field value) key ≡ none
unfolding exec_field update_exec_field
update_exec_field-unknown s field key value h =
    rw (get-set_exec_context s (ExecContext.with_field (context_or_new s) field value))
      (to_value-unknown (ExecContext.with_field (context_or_new s) field value) key h)
