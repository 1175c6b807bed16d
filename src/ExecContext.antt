-- ===== src/ExecContext.antt =====
-- The typed view of the state's `__exec__` object, crates/tcb/src/exec_context.rs.
pub mod Laws
pub mod Setters
use evorule_tcb.Prelude.{
  String, Bool, true, false, Option, List, [], ◌∷◌, ◌==◌, if◌then◌else◌, and_then, unwrap_or,
}
use evorule_tcb.Value.Data.{
  Value, null, bool, string, list, object, Items, nil, cons, end, entry, of_pairs,
}
use evorule_tcb.Value.ImMap
use evorule_tcb.Value.Accessors
use evorule_tcb.Value.Accessors.{empty_object, empty_list, as_bool, as_str}

pub record ExecContext : Type 0 where
  pub instruction : Value
  pub queue : Value
  pub running : Bool
  pub metadata : Value
  pub default_instruction : Value
  pub termination_domain : Value
  pub meta_instruction_types : Value
  pub audit_on : Bool
  pub drain_meta_trace : Bool
  pub dispatch_cases : Value
  pub dispatch_default : Value
  pub dispatch_table_version : Value
  pub last_dispatch_hashes : Value
  pub trace_source : Value
  pub terminated_by_max_steps : Bool

unfoldable pub new : Value → ExecContext
new instruction = record {
  instruction = instruction;
  queue = empty_list;
  running = true;
  metadata = empty_object;
  default_instruction = null;
  termination_domain = null;
  meta_instruction_types = empty_list;
  audit_on = true;
  drain_meta_trace = false;
  dispatch_cases = empty_object;
  dispatch_default = empty_object;
  dispatch_table_version = string "";
  last_dispatch_hashes = null;
  trace_source = null;
  terminated_by_max_steps = false;
}

-- A field with its default where it is missing; a flag also where it is no Boolean.
abbrev value_field : Value → String → Value → Value
value_field v key default = unwrap_or (Accessors.get v key) default

abbrev flag_field : Value → String → Bool → Bool
flag_field v key default = unwrap_or (and_then (Accessors.get v key) as_bool) default

unfoldable pub from_value : Value → ExecContext
unfolding Accessors.get ImMap.get as_bool
from_value v = record {
  instruction = value_field v "instruction" empty_object;
  queue = value_field v "queue" empty_list;
  running = flag_field v "__running" true;
  metadata = value_field v "metadata" empty_object;
  default_instruction = value_field v "default_instruction" null;
  termination_domain = value_field v "termination_domain" null;
  meta_instruction_types = value_field v "meta_instruction_types" empty_list;
  audit_on = flag_field v "audit_on" true;
  drain_meta_trace = flag_field v "drain_meta_trace" false;
  dispatch_cases = value_field v "dispatch_cases" empty_object;
  dispatch_default = value_field v "dispatch_default" empty_object;
  dispatch_table_version = value_field v "dispatch_table_version" (string "");
  last_dispatch_hashes = value_field v "last_dispatch_hashes" null;
  trace_source = value_field v "__trace_source" null;
  terminated_by_max_steps = flag_field v "__terminated_by_max_steps" false;
}

abbrev pub field_pairs : ExecContext → List (String × Value)
field_pairs c =
    ("instruction", c.instruction)
    ∷ ("queue", c.queue)
    ∷ ("__running", bool c.running)
    ∷ ("metadata", c.metadata)
    ∷ ("default_instruction", c.default_instruction)
    ∷ ("termination_domain", c.termination_domain)
    ∷ ("meta_instruction_types", c.meta_instruction_types)
    ∷ ("audit_on", bool c.audit_on)
    ∷ ("drain_meta_trace", bool c.drain_meta_trace)
    ∷ ("dispatch_cases", c.dispatch_cases)
    ∷ ("dispatch_default", c.dispatch_default)
    ∷ ("dispatch_table_version", c.dispatch_table_version)
    ∷ ("last_dispatch_hashes", c.last_dispatch_hashes)
    ∷ ("__trace_source", c.trace_source)
    ∷ ("__terminated_by_max_steps", bool c.terminated_by_max_steps)
    ∷ []

unfoldable pub to_value : ExecContext → Value
to_value c = object (of_pairs (field_pairs c))

unfoldable pub params : ExecContext → Value
unfolding Accessors.get
params c = unwrap_or (Accessors.get c.instruction "params") empty_object

unfoldable pub instruction_type : ExecContext → String
unfolding Accessors.get as_str
instruction_type c = unwrap_or (and_then (Accessors.get c.instruction "type") as_str) "unknown"

unfoldable pub before_hash : ExecContext → Option String
unfolding Accessors.get as_str
before_hash c = and_then (Accessors.get c.last_dispatch_hashes "before_hash") as_str

unfoldable pub after_hash : ExecContext → Option String
unfolding Accessors.get as_str
after_hash c = and_then (Accessors.get c.last_dispatch_hashes "after_hash") as_str

-- `im::Vector::push_back`
abbrev pub push_back : Items → Value → Items
push_back nil v = cons v nil
push_back (cons x xs) v = cons x (push_back xs v)

abbrev queue_items : Value → Items
queue_items (list v) = v
queue_items _ = nil

abbrev push_all : Items → List Value → Items
push_all q [] = q
push_all q (v ∷ vs) = push_all (push_back q v) vs

unfoldable pub with_enqueued : ExecContext → Value → ExecContext
with_enqueued c instruction = record c {
  queue = list (push_back (queue_items c.queue) instruction);
}

unfoldable pub with_enqueued_sequence : ExecContext → List Value → ExecContext
with_enqueued_sequence c instructions = record c {
  queue = list (push_all (queue_items c.queue) instructions);
}

unfoldable pub stop : ExecContext → ExecContext
stop c = record c { running = false }

unfoldable pub with_dispatch_hashes : ExecContext → (before after : String) → ExecContext
with_dispatch_hashes c before after = record c {
  last_dispatch_hashes =
      object (entry "before_hash" (string before) (entry "after_hash" (string after) end));
}

-- `with_field`; an unknown field is ignored.
unfoldable pub with_field : ExecContext → String → Value → ExecContext
unfolding as_bool as_str
with_field c field value =
    if field == "instruction"
    then record c { instruction = value }
    else if field == "queue"
    then record c { queue = value }
    else if field == "__running"
    then record c { running = unwrap_or (as_bool value) false }
    else if field == "metadata"
    then record c { metadata = value }
    else if field == "default_instruction"
    then record c { default_instruction = value }
    else if field == "termination_domain"
    then record c { termination_domain = value }
    else if field == "meta_instruction_types"
    then record c { meta_instruction_types = value }
    else if field == "audit_on"
    then record c { audit_on = unwrap_or (as_bool value) true }
    else if field == "drain_meta_trace"
    then record c { drain_meta_trace = unwrap_or (as_bool value) false }
    else if field == "dispatch_cases"
    then record c { dispatch_cases = value }
    else if field == "dispatch_default"
    then record c { dispatch_default = value }
    else if field == "dispatch_table_version"
    then record c { dispatch_table_version = value }
    else if field == "last_dispatch_hashes"
    then record c { last_dispatch_hashes = value }
    else if field == "__trace_source"
    then record c { trace_source = string (unwrap_or (as_str value) "") }
    else if field == "__terminated_by_max_steps"
    then record c { terminated_by_max_steps = unwrap_or (as_bool value) false }
    else c
