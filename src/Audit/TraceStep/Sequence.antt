-- ===== src/Audit/TraceStep/Sequence.antt =====
-- A sequence of audited steps, crates/tcb/src/primitive/audit_ops.rs.
use evorule_tcb.Prelude.{
  ℕ, ◌%◌, ◌^◌, ◌<◌, suc, ◌+◌, String, ◌≡◌, refl, sym, ap, ◌∙◌, ◌≢◌, true, List, [], ◌∷◌, ◌++◌,
  arith, length,
}
use evorule_tcb.Error.{Result, ok, err}
use mathlib.Core.List.{append_assoc, append-nil}
use evorule_tcb.Platform.{Crates}
use evorule_tcb.State.{State, get}
use evorule_tcb.State.Exec.{exec_field}
use evorule_tcb.Instruction.{GenericInstruction}
use evorule_tcb.ExecCtlCtx.{ExecCtlCtx}
use evorule_tcb.Audit.{AuditRecord, AuditChainState, push_record}
use evorule_tcb.Audit.TraceStep.{audit_on, stored_chain, exec_trace_step}
use evorule_tcb.Audit.TraceStep.Laws.{HoldsChain, exec_trace_step_lem}

audit_on-same :
    (s s' : State)
    → ((j : String) → "__audit_chain" ≢ j → get s' j ≡ get s j)
    → audit_on s' ≡ audit_on s
unfolding audit_on exec_field
audit_on-same s s' same = rw (same "__exec__" (λ e. cc)) refl

records-push_record :
    (c : AuditChainState) (r : AuditRecord) (tick : ℕ)
    → (push_record c r tick).records ≡ c.records ++ r ∷ []
unfolding push_record
records-push_record c r tick = refl

abbrev continue :
    Result State × ExecCtlCtx
    → (State → ExecCtlCtx → Result State × ExecCtlCtx)
    → Result State × ExecCtlCtx
continue (ok s, ctx) next = next s ctx
continue (err e, ctx) next = (err e, ctx)

module _ (C : Crates) where
  -- The steps of a list of instructions, one after the other, up to the first error.
  unfoldable pub trace_all :
      List GenericInstruction → State → ExecCtlCtx → Result State × ExecCtlCtx
  trace_all [] s ctx = (ok s, ctx)
  trace_all (i ∷ is) s ctx = continue (exec_trace_step C s i ctx) (trace_all is)

  -- With auditing on and a tick that fits 64 bits, from a state that holds a chain, a sequence of steps succeeds: the chain of the
  -- result is the old one with one new record for each step after it, it is linked and verified from
  -- the first record to the last, and the tick has moved by the number of steps, modulo 2^64.
  pub trace_all_lem :
      (is : List GenericInstruction) (s : State) (ctx : ExecCtlCtx)
      → audit_on s ≡ true
      → HoldsChain C s
      → ctx.tick < 2 ^ 64
      → (s' : State) × (added : List AuditRecord) × (trace_all is s ctx
          ≡ (ok s', record ctx { tick = (ctx.tick + length is) % 2 ^ 64 }))
        × ((stored_chain s').records ≡ (stored_chain s).records ++ added)
        × (length added ≡ length is)
        × HoldsChain C s'
  unfolding trace_all
  trace_all_lem [] s ctx on h fits = (
    s,
    [],
    ap (λ t. (ok s, record ctx { tick = t })) (omega arith),
    sym (append-nil (stored_chain s).records),
    refl,
    h,
  )
  trace_all_lem (i ∷ is) s ctx on h fits =
      let first = exec_trace_step_lem C s i ctx on h in
      let ctx1 = record ctx { tick = (ctx.tick + 1) % 2 ^ 64 } in
      let on1 = audit_on-same s first.0 first.8 ∙ on in
      let rest = trace_all_lem is first.0 ctx1 on1 first.7 (omega arith) in
      let grown =
        ap (λ c. c.records) first.3 ∙ records-push_record (stored_chain s) first.1 ctx.tick in
      (
        rest.0,
        first.1 ∷ rest.1,
        ap (λ o. continue o (trace_all is)) first.2
            ∙ rest.2
            ∙ ap (λ t. (ok rest.0, record ctx { tick = t })) (omega arith),
        rest.3
            ∙ ap (λ rs. rs ++ rest.1) grown
            ∙ append_assoc (stored_chain s).records (first.1 ∷ []) rest.1,
        ap suc rest.4,
        rest.5,
      )
