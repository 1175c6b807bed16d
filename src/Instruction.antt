-- ===== src/Instruction.antt =====
-- `GenericInstruction` of crates/tcb/src/rule.rs: an instruction as the executors see it.
use evorule_tcb.Prelude.{
  String, ◌≡◌, refl, Bool, true, false, not, Option, none, some, arith, nat_eq, and_then, unwrap_or,
}
use evorule_tcb.Value.Data.{Value, null, bool, string, object, Entries, end, entry}
use evorule_tcb.Value.ImMap
use evorule_tcb.Error.{EvoRuleError, missing_param, Result, ok, err, ◌>>=◌}
use evorule_tcb.Value.Accessors
use evorule_tcb.Value.Accessors.{empty_object, as_str, is_null}

pub record GenericInstruction : Type 0 where
  pub instruction_type : String
  pub params : Entries
  pub metadata : Value

unfoldable pub new : String → Entries → GenericInstruction
new instruction_type params = record {
  instruction_type = instruction_type;
  params = params;
  metadata = empty_object;
}

unfoldable pub simple : String → GenericInstruction
unfolding new
simple instruction_type = new instruction_type end

abbrev pub ok_or {ℓ} : {A : Type ℓ} → Option A → EvoRuleError → Result A
ok_or none e = err e
ok_or (some a) e = ok a

abbrev params_of : Option Value → Entries
params_of (some (object m)) = m
params_of _ = end

unfoldable pub from_value : Value → Result GenericInstruction
unfolding Accessors.get ImMap.get as_str
from_value v = do
  instr_type ←
      ok_or (and_then (Accessors.get v "type") as_str)
        (missing_param "GenericInstruction::from_value" "type")
  ok (record {
    instruction_type = instr_type;
    params = params_of (Accessors.get v "params");
    metadata = unwrap_or (Accessors.get v "metadata") empty_object;
  })

abbrev pub entry_if : Bool → String → Value → Entries → Entries
entry_if false k v m = m
entry_if true k v m = entry k v m

unfoldable pub to_value : GenericInstruction → Value
unfolding ImMap.len is_null
to_value i = object (
    entry "type" (string i.instruction_type) (
      entry_if (not (nat_eq (ImMap.len i.params) 0)) "params" (object i.params)
        (entry_if (not (is_null i.metadata)) "metadata" i.metadata end)))

len-eq-zero : (m : Entries) → nat_eq (ImMap.len m) 0 ≡ true → m ≡ end
unfolding ImMap.len
len-eq-zero end h = refl
len-eq-zero (entry k v m) h = ground arith

abbrev pub metadata_read : Value → Value
metadata_read null = empty_object
metadata_read v = v

pub is_null-read : (v : Value) → is_null v ≡ true → metadata_read v ≡ empty_object
unfolding is_null
is_null-read null h = refl
is_null-read (bool _) h = cc
is_null-read v h = cc

pub not_null-read : (v : Value) → is_null v ≡ false → metadata_read v ≡ v
unfolding is_null
not_null-read null h = cc
not_null-read (bool _) h = refl
not_null-read v h = refl

-- An instruction is read back from its value; metadata that is null is read back as an empty object.
pub instruction_from_value-to_value :
    (i : GenericInstruction)
    → from_value (to_value i) ≡ ok (record i { metadata = metadata_read i.metadata })
unfolding from_value to_value
instruction_from_value-to_value i =
    ground (arith, len-eq-zero i.params, is_null-read i.metadata, not_null-read i.metadata)
