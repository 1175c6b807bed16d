-- ===== src/ExecContext/Setters.antt =====
-- The setters of one field, crates/tcb/src/exec_context.rs, and how the setter by name relates to them.
use evorule_tcb.Prelude.{String, ◌≡◌, refl, Bool, true, false, unwrap_or}
use evorule_tcb.Value.Data.{Value, string}
use evorule_tcb.Value.Accessors.{as_bool}
use evorule_tcb.ExecContext.{ExecContext, with_field}

unfoldable pub with_instruction : ExecContext → Value → ExecContext
with_instruction c instruction = record c { instruction = instruction }

unfoldable pub with_running : ExecContext → Bool → ExecContext
with_running c running = record c { running = running }

unfoldable pub with_trace_source : ExecContext → String → ExecContext
with_trace_source c source = record c { trace_source = string source }

unfoldable pub with_queue : ExecContext → Value → ExecContext
with_queue c queue = record c { queue = queue }

unfoldable pub with_metadata : ExecContext → Value → ExecContext
with_metadata c metadata = record c { metadata = metadata }

unfoldable pub with_default_instruction : ExecContext → Value → ExecContext
with_default_instruction c default_instruction = record c {
  default_instruction = default_instruction;
}

unfoldable pub with_termination_domain : ExecContext → Value → ExecContext
with_termination_domain c termination_domain = record c { termination_domain = termination_domain }

unfoldable pub with_meta_instruction_types : ExecContext → Value → ExecContext
with_meta_instruction_types c types = record c { meta_instruction_types = types }

unfoldable pub with_audit_on : ExecContext → Bool → ExecContext
with_audit_on c audit_on = record c { audit_on = audit_on }

unfoldable pub with_drain_meta_trace : ExecContext → Bool → ExecContext
with_drain_meta_trace c drain_meta_trace = record c { drain_meta_trace = drain_meta_trace }

unfoldable pub with_dispatch_cases : ExecContext → Value → ExecContext
with_dispatch_cases c dispatch_cases = record c { dispatch_cases = dispatch_cases }

unfoldable pub with_terminated_by_max_steps : ExecContext → Bool → ExecContext
with_terminated_by_max_steps c flag = record c { terminated_by_max_steps = flag }

-- The setter by name is the typed setter of each field that has one; a flag that is no Boolean is off,
-- but for auditing, which is then on.
pub with_field_lem :
    (c : ExecContext) (v : Value)
    → (with_field c "instruction" v ≡ with_instruction c v)
      × (with_field c "queue" v ≡ with_queue c v)
      × (with_field c "__running" v ≡ with_running c (unwrap_or (as_bool v) false))
      × (with_field c "metadata" v ≡ with_metadata c v)
      × (with_field c "default_instruction" v ≡ with_default_instruction c v)
      × (with_field c "termination_domain" v ≡ with_termination_domain c v)
      × (with_field c "meta_instruction_types" v ≡ with_meta_instruction_types c v)
      × (with_field c "audit_on" v ≡ with_audit_on c (unwrap_or (as_bool v) true))
      × (with_field c "drain_meta_trace" v ≡ with_drain_meta_trace c (unwrap_or (as_bool v) false))
      × (with_field c "dispatch_cases" v ≡ with_dispatch_cases c v)
      × (with_field c "__terminated_by_max_steps" v
          ≡ with_terminated_by_max_steps c (unwrap_or (as_bool v) false))
unfolding with_field with_instruction with_queue with_running with_metadata with_default_instruction
    with_termination_domain with_meta_instruction_types with_audit_on with_drain_meta_trace
    with_dispatch_cases with_terminated_by_max_steps
with_field_lem c v = (refl, refl, refl, refl, refl, refl, refl, refl, refl, refl, refl)
