-- ===== src/Control/Dispatch/Records.antt =====
-- What a dispatch leaves behind, crates/tcb/src/control/dispatch.rs: the digests before and after the
-- execution, and the instruction at the end of the queue.
use evorule_tcb.Prelude.{
  String, ◌≡◌, refl, sym, ap, ◌∙◌, ◌⊎◌, inl, inr, Bool, false, Option, none, some, List, [], ◌∷◌,
  ◌++◌, ◌==◌, eq_iff, if◌then◌else◌, Bool-cases, Option-cases, unwrap_or,
}
use evorule_tcb.Value.Data.{Value, string, list, object, Entries, end, entry, of_list}
use evorule_tcb.Value.ImMap
use evorule_tcb.Error.{ok}
use evorule_tcb.ExecCtlCtx.{ExecCtlCtx}
use evorule_tcb.Instruction.{GenericInstruction}
use evorule_tcb.State.{State}
use evorule_tcb.Engine.{Outcome, Handle}
use Prim.Native.String
use evorule_tcb.Platform.{Crates}
use evorule_tcb.Value.Accessors
use evorule_tcb.Value.DispatchKey.{to_dispatch_key}
use evorule_tcb.ExecContext
use evorule_tcb.Instruction
use evorule_tcb.State
use evorule_tcb.State.{business_state_snapshot}
use evorule_tcb.State.Exec.{
  exec_field, update_exec_field, context_or_new, exec_context, set_exec_context,
}
use evorule_tcb.Primitive.Queue.{get_queue, queue_of}
use evorule_tcb.Primitive.Queue.Order.{
  exec_field-update_exec_field, get_queue-update_exec_field, context_or_new-update_exec_field,
}
use evorule_tcb.Control.Refs.{resolve_path, resolve_refs}
use evorule_tcb.Control.Dispatch.{
  is_running, record_dispatch_hashes, push_advance, advance_instruction,
  compute_dispatch_state_hash, run_case, exec_dispatch, cases_and_default, dispatch_by_key,
  dispatch_in, case_or_default,
}

filter_keys-insert :
    (p : String → Bool) (m : Entries) (k : String) (v : Value)
    → p k ≡ false
    → ImMap.filter_keys p (ImMap.insert m k v) ≡ ImMap.filter_keys p m
unfolding ImMap.filter_keys ImMap.insert
filter_keys-insert p end k v h = rw h refl
filter_keys-insert p (entry j w m) k v h = elim (Bool-cases (j == k)) [
  | inl e ↦ rw (e, h, ap p ((eq_iff j k).0 e) ∙ h) refl
  | inr e ↦ rw (e, filter_keys-insert p m k v h) refl
]

snapshot-update_exec_field :
    (s : State) (field : String) (v : Value)
    → business_state_snapshot (update_exec_field s field v) ≡ business_state_snapshot s
unfolding business_state_snapshot update_exec_field set_exec_context State.set
snapshot-update_exec_field s field v = ap object (filter_keys-insert _ s.data_map "__exec__" _ refl)

queue_or_empty :
    (o : Option Value) → queue_of (some (unwrap_or o Accessors.empty_list)) ≡ queue_of o
queue_or_empty none = refl
queue_or_empty (some v) = refl

context_queue : (s : State) → queue_of (some (context_or_new s).queue) ≡ get_queue s
unfolding get_queue exec_field exec_context ExecContext.from_value ExecContext.new
context_queue s = elim (Option-cases (State.get s "__exec__")) [
  | inl e ↦ rw e refl
  | inr (v, e) ↦ rw e (queue_or_empty (Accessors.get v "queue"))
]

context_running : (s : State) → (context_or_new s).running ≡ is_running s
unfolding is_running exec_field exec_context ExecContext.from_value ExecContext.new
context_running s = elim (Option-cases (State.get s "__exec__")) [
  | inl e ↦ rw e refl
  | inr (v, e) ↦ rw e refl
]

-- The state after the digests are recorded, on which the instruction is pushed.
module _ (C : Crates) (s t : State) (label : String) where
  abbrev recorded : State
  recorded =
      record_dispatch_hashes t (compute_dispatch_state_hash C s) (compute_dispatch_state_hash C t)
        label

  abbrev pub hashes : Value
  unfolding compute_dispatch_state_hash
  hashes = object (
      entry "before_hash" (string (compute_dispatch_state_hash C s)) (
        entry "after_hash" (string (compute_dispatch_state_hash C t))
          (entry "case_key" (string label) end)))

  recorded_context :
      context_or_new recorded ≡ record (context_or_new t) { last_dispatch_hashes = hashes }
  unfolding record_dispatch_hashes ExecContext.with_field compute_dispatch_state_hash
  recorded_context = context_or_new-update_exec_field t "last_dispatch_hashes" hashes

  recorded_running : is_running recorded ≡ is_running t
  recorded_running =
      sym (context_running recorded) ∙ ap (λ c. c.running) recorded_context ∙ context_running t

  recorded_queue : get_queue recorded ≡ get_queue t
  recorded_queue =
      sym (context_queue recorded)
      ∙ ap (λ c. queue_of (some c.queue)) recorded_context
      ∙ context_queue t

  recorded-hashes : exec_field recorded "last_dispatch_hashes" ≡ some hashes
  unfolding record_dispatch_hashes ExecContext.with_field ExecContext.to_value Accessors.get
      ImMap.get compute_dispatch_state_hash
  recorded-hashes =
      exec_field-update_exec_field t "last_dispatch_hashes" "last_dispatch_hashes" hashes

  recorded_business : business_state_snapshot recorded ≡ business_state_snapshot t
  unfolding record_dispatch_hashes hashes compute_dispatch_state_hash
  recorded_business = snapshot-update_exec_field t "last_dispatch_hashes" hashes

  pushed_hashes :
      (vs : List Value)
      → exec_field (update_exec_field recorded "queue" (list (of_list vs))) "last_dispatch_hashes"
        ≡ some hashes
  unfolding ExecContext.with_field ExecContext.to_value Accessors.get ImMap.get
  pushed_hashes vs =
      exec_field-update_exec_field recorded "queue" "last_dispatch_hashes" (list (of_list vs))
      ∙ ap (λ c. some c.last_dispatch_hashes) recorded_context

  -- What the state after a dispatch is known to be.
  pub record Recorded (r : State) : Type 0 where
    pub same_business : business_state_snapshot r ≡ business_state_snapshot t
    pub digests : exec_field r "last_dispatch_hashes" ≡ some hashes
    pub queue :
        get_queue r
        ≡ (if is_running t then get_queue t ++ advance_instruction ∷ [] else get_queue t)

  Recorded-push_advance : Recorded (push_advance recorded)
  unfolding push_advance
  Recorded-push_advance =
      let queue_if =
        λ (b : Bool). if b then get_queue t ++ advance_instruction ∷ [] else get_queue t in
      elim (Bool-cases (is_running t)) [
        | inl e ↦
            let vs = get_queue recorded ++ advance_instruction ∷ [] in
            rw (recorded_running, e)
              (record {
                same_business =
                    snapshot-update_exec_field recorded "queue" (list (of_list vs))
                    ∙ recorded_business;
                digests = pushed_hashes vs;
                queue =
                    get_queue-update_exec_field recorded vs
                    ∙ ap (λ q. q ++ advance_instruction ∷ []) recorded_queue
                    ∙ sym (ap queue_if e);
              })
        | inr e ↦
            rw (recorded_running, e)
              (record {
                same_business = recorded_business;
                digests = recorded-hashes;
                queue = recorded_queue ∙ sym (ap queue_if e);
              })
      ]

-- The entry that a dispatch finds, with the label of its record: a case, or else the default.
abbrev pub Found : Option Value → String → Option Value → Value → String → Type 0
Found case key_str default v label =
    ((case ≡ some v) × (label ≡ key_str))
    ⊎ ((case ≡ none) × (default ≡ some v) × (label ≡ String.◌++◌ "default:" key_str))

module _ (C : Crates) (h : Handle) (s t : State) (v : Value) (j : GenericInstruction)
    (c d : ExecCtlCtx) (parsed : Instruction.from_value (resolve_refs s v) ≡ ok j)
    (executed : h.execute s j c ≡ some (ok t, d)) where
  abbrev Dispatched : Outcome → String → Type 0
  Dispatched o label = (r : State) × (o ≡ some (ok r, d)) × Recorded C s t label r

  run_case_lem : (label : String) → Dispatched (run_case C h s v label c) label
  unfolding run_case
  run_case_lem label = (
    push_advance (recorded C s t label),
    rw (parsed, executed) refl,
    Recorded-push_advance C s t label,
  )

  case_or_default_lem :
      (key_str label : String) (case default : Option Value)
      → Found case key_str default v label
      → Dispatched (case_or_default C h s key_str case default c) label
  unfolding case_or_default
  case_or_default_lem key_str label case default (inl (e, l)) = rw (e, l) (run_case_lem key_str)
  case_or_default_lem key_str label case default (inr (e, k, l)) =
      rw (e, k, l) (run_case_lem (String.◌++◌ "default:" key_str))

  -- When a dispatch finds a case under its key, or no case and a default, and the execution of it
  -- returns a state: the dispatch returns that state with the same business fields, with the digests of
  -- the states before and after under the label of the case or of the default, and with
  -- `advance_instruction` at the end of the queue if the state is still running.
  pub exec_dispatch_lem :
      (i : GenericInstruction) (key_val : Value) (cases : Entries) (default : Option Value)
      (label : String)
      → ImMap.get i.params "key" ≡ some key_val
      → cases_and_default s i ≡ (object cases, default)
      → Found
          (ImMap.get cases (to_dispatch_key C (resolve_path s key_val)))
          (to_dispatch_key C (resolve_path s key_val))
          default
          v
          label
      → (r : State) × (exec_dispatch C h s i c ≡ some (ok r, d)) × Recorded C s t label r
  unfolding exec_dispatch dispatch_by_key dispatch_in
  exec_dispatch_lem i key_val cases default label k e found =
      let key_str = to_dispatch_key C (resolve_path s key_val) in
      let rest = case_or_default_lem key_str label (ImMap.get cases key_str) default found in
      (
        rest.0,
        ap (λ o. dispatch_by_key C h s i o c) k
            ∙ ap (λ p. dispatch_in C h s key_str p c) e
            ∙ rest.1,
        rest.2,
      )
