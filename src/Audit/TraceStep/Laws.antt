-- ===== src/Audit/TraceStep/Laws.antt =====
-- What `trace_step` does to the chain that a state holds, crates/tcb/src/primitive/audit_ops.rs.
use evorule_tcb.Prelude.{
  ℕ, ◌+◌, ◌%◌, ◌^◌, ◌^◌, ◌<◌, String, ◌≡◌, refl, sym, ◌∙◌, subst, ◌≢◌, true, List, [], ◌∷◌, ◌++◌,
  arith, of_bits64,
}
use evorule_tcb.Value.ImMap
use evorule_tcb.Value.Data.{Value}
use evorule_tcb.Error.{ok}
use evorule_tcb.Platform.{Crates}
use evorule_tcb.State.{State, get, set}
use evorule_tcb.Instruction.{GenericInstruction}
use evorule_tcb.ExecCtlCtx
use evorule_tcb.ExecCtlCtx.{ExecCtlCtx}
use evorule_tcb.Audit.{
  AuditRecord, AuditChainState, Fields, new_record, verify, verify-new_record, default_hmac_key,
  push_record,
}
use evorule_tcb.Audit.Chain.{IsChain, push_record-IsChain}
use evorule_tcb.Audit.Codec.{chain_to_value}
use evorule_tcb.Audit.Codec.RoundTrip.{VersionsFit, chain_from_value-chain_to_value}
use evorule_tcb.Audit.TraceStep.{audit_on, stored_chain, step_fields, exec_trace_step}

-- A chain whose numbers fit their machine types, as every chain of the program does.
pub record ChainFits (c : AuditChainState) : Type 0 where
  pub records : VersionsFit c.records
  pub version : c.version < 2 ^ 32
  pub logical_tick : c.logical_tick < 2 ^ 64

-- The state holds a chain: linked, verified and in range.
pub record HoldsChain (C : Crates) (s : State) : Type 0 where
  pub chain : IsChain C default_hmac_key (stored_chain s)
  pub fits : ChainFits (stored_chain s)

stored_chain-set :
    (s : State) (c : AuditChainState)
    → ChainFits c
    → stored_chain (set s "__audit_chain" (chain_to_value c)) ≡ c
unfolding stored_chain get set
stored_chain-set s c h =
    rw (ImMap.get-insert_self s.data_map "__audit_chain" (chain_to_value c))
      (rw (chain_from_value-chain_to_value c h.records h.version h.logical_tick) refl)

get-set_other :
    (s : State) (k : String) (v : Value) (j : String) → k ≢ j → get (set s k v) j ≡ get s j
unfolding get set
get-set_other s k v j = ImMap.get-insert_ne s.data_map k j v

VersionsFit-append :
    (rs : List AuditRecord) (r : AuditRecord)
    → VersionsFit rs
    → r.version < 2 ^ 32
    → VersionsFit (rs ++ r ∷ [])
VersionsFit-append [] r h e = (e, tt)
VersionsFit-append (x ∷ rs) r h e = (h.0, VersionsFit-append rs r h.1 e)

push_record-ChainFits :
    (c : AuditChainState) (r : AuditRecord) (tick : ℕ)
    → ChainFits c
    → r.version < 2 ^ 32
    → ChainFits (push_record c r tick)
unfolding push_record
push_record-ChainFits c r tick h e = record {
  records = VersionsFit-append c.records r h.records e;
  version = h.version;
  logical_tick = h.logical_tick;
}

module _ (C : Crates) where
  new_record-facts :
      (r : Fields)
      → (verify C (new_record C r default_hmac_key) default_hmac_key ≡ true)
        × ((new_record C r default_hmac_key).previous_hash ≡ r.previous_hash)
        × ((new_record C r default_hmac_key).timestamp ≡ r.timestamp)
        × ((new_record C r default_hmac_key).version < 2 ^ 32)
  unfolding new_record
  new_record-facts r = (verify-new_record C r default_hmac_key, refl, refl, omega arith)

  step_fields-facts :
      (s : State) (i : GenericInstruction) (before : String) (tick : ℕ)
      → ((step_fields C s i before tick).previous_hash ≡ before)
        × ((step_fields C s i before tick).timestamp ≡ of_bits64 tick)
  unfolding step_fields
  step_fields-facts s i before tick = (refl, refl)

  pub exec_trace_step_lem :
      (s : State) (i : GenericInstruction) (ctx : ExecCtlCtx)
      → audit_on s ≡ true
      → HoldsChain C s
      → (s' : State) × (r : AuditRecord) × (exec_trace_step C s i ctx
          ≡ (ok s', record ctx { tick = (ctx.tick + 1) % 2 ^ 64 }))
        × (stored_chain s' ≡ push_record (stored_chain s) r ctx.tick)
        × (verify C r default_hmac_key ≡ true)
        × (r.previous_hash ≡ (stored_chain s).latest_hash)
        × (r.timestamp ≡ of_bits64 ctx.tick)
        × HoldsChain C s'
        × ((j : String) → "__audit_chain" ≢ j → get s' j ≡ get s j)
  unfolding exec_trace_step ExecCtlCtx.next_tick
  exec_trace_step_lem s i ctx on h =
      let c = stored_chain s in
      let f = step_fields C s i c.latest_hash ctx.tick in
      let r = new_record C f default_hmac_key in
      let facts = new_record-facts f in
      let said = step_fields-facts s i c.latest_hash ctx.tick in
      let fits = push_record-ChainFits c r ctx.tick h.fits facts.3 in
      let new = push_record c r ctx.tick in
      let stored = stored_chain-set s new fits in
      let before = facts.1 ∙ said.0 in
      let linked = push_record-IsChain C default_hmac_key c r ctx.tick h.chain facts.0 before in
      (
        set s "__audit_chain" (chain_to_value new),
        r,
        rw on refl,
        stored,
        facts.0,
        before,
        facts.2 ∙ said.1,
        record {
          chain = subst (IsChain C default_hmac_key) (sym stored) linked;
          fits = subst ChainFits (sym stored) fits;
        },
        get-set_other s "__audit_chain" (chain_to_value new),
      )
