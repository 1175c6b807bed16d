-- ===== src/Audit/Message.antt =====
-- The bytes under the keyed digest of an audit record determine every field that it covers,
-- `compute_hash` of crates/tcb/src/audit.rs.
use evorule_tcb.Prelude.{
  ℕ, ◌^◌, ◌<◌, String, ◌≡◌, refl, sym, ap, ◌∙◌, ◌≢◌, true, Option, none, some, List, [], ◌∷◌, ◌++◌,
  arith, eq_iff, ℤ, IsI64, bits64,
}
use Prim.Native.String
use mathlib.Core.List.{append-nil}
use evorule_tcb.Deterministic.Encode.{le_bytes}
use evorule_tcb.Deterministic.Bytes.{le_bytes-injective, le_bytes_8-injective, text_bytes-injective}
use evorule_tcb.Prelude.Int.{bits64-lt, bits64-injective}
use evorule_tcb.Platform.{Crates}
use evorule_tcb.Audit.{
  ExecutionResult, AuditRecord, Fields, fields, result_code, optional_bytes, hash_message,
  compute_hash, verify,
}

abbrev pub TextFits : String → Type 0
TextFits s = String.len s < 2 ^ 64

abbrev pub OptionFits : Option String → Type 0
OptionFits none = Unit
OptionFits (some s) = TextFits s

-- Lengths and numbers fit their machine types.
pub record Fits (r : Fields) : Type 0 where
  pub id : TextFits r.id
  pub rule_id : TextFits r.rule_id
  pub timestamp : IsI64 r.timestamp
  pub state_before_hash : TextFits r.state_before_hash
  pub state_after_hash : TextFits r.state_after_hash
  pub change_summary : OptionFits r.change_summary
  pub error_message : OptionFits r.error_message
  pub previous_hash : TextFits r.previous_hash
  pub nonce : TextFits r.nonce
  pub version : r.version < 2 ^ 32

result_code-injective :
    (a b : ExecutionResult) (r s : List ℕ)
    → (result_code a ∷ []) ++ r ≡ (result_code b ∷ []) ++ s
    → (a ≡ b) × (r ≡ s)
result_code-injective a b r s h = ground arith

optional_bytes-injective :
    (a b : Option String) (r s : List ℕ)
    → OptionFits a
    → OptionFits b
    → optional_bytes a ++ r ≡ optional_bytes b ++ s
    → (a ≡ b) × (r ≡ s)
optional_bytes-injective none none r s ha hb h = (refl, cc)
optional_bytes-injective none (some u) r s ha hb h = ground arith
optional_bytes-injective (some t) none r s ha hb h = ground arith
optional_bytes-injective (some t) (some u) r s ha hb h =
    let both = text_bytes-injective t u r s ha hb (cc) in (ap some both.0, both.1)

timestamp-injective :
    (a b : ℤ) (r s : List ℕ)
    → IsI64 a
    → IsI64 b
    → le_bytes 8 (bits64 a) ++ r ≡ le_bytes 8 (bits64 b) ++ s
    → (a ≡ b) × (r ≡ s)
timestamp-injective a b r s ha hb h =
    let both = le_bytes_8-injective (bits64 a) (bits64 b) r s (bits64-lt a ha) (bits64-lt b hb) h in
    (bits64-injective a b ha hb both.0, both.1)

version-injective : (v w : ℕ) → v < 2 ^ 32 → w < 2 ^ 32 → le_bytes 4 v ≡ le_bytes 4 w → v ≡ w
version-injective v w hv hw h =
    (le_bytes-injective 4 v w [] [] hv hw
      (append-nil (le_bytes 4 v) ∙ h ∙ sym (append-nil (le_bytes 4 w)))).0

-- Two records whose lengths and numbers fit their machine types and whose bytes under the digest are
-- the same agree in every field.
pub hash_message-injective :
    (a b : Fields) → Fits a → Fits b → hash_message a ≡ hash_message b → a ≡ b
unfolding hash_message
hash_message-injective a b fa fb h =
    let p1 = text_bytes-injective a.id b.id _ _ fa.id fb.id h in
    let p2 = text_bytes-injective a.nonce b.nonce _ _ fa.nonce fb.nonce p1.1 in
    let p3 = text_bytes-injective a.rule_id b.rule_id _ _ fa.rule_id fb.rule_id p2.1 in
    let p4 = timestamp-injective a.timestamp b.timestamp _ _ fa.timestamp fb.timestamp p3.1 in
    let p5 =
      text_bytes-injective a.state_before_hash b.state_before_hash _ _ fa.state_before_hash
        fb.state_before_hash p4.1 in
    let p6 =
      text_bytes-injective a.state_after_hash b.state_after_hash _ _ fa.state_after_hash
        fb.state_after_hash p5.1 in
    let p7 =
      text_bytes-injective a.previous_hash b.previous_hash _ _ fa.previous_hash fb.previous_hash
        p6.1 in
    let p8 = result_code-injective a.execution_result b.execution_result _ _ p7.1 in
    let p9 =
      optional_bytes-injective a.change_summary b.change_summary _ _ fa.change_summary
        fb.change_summary p8.1 in
    let p10 =
      optional_bytes-injective a.error_message b.error_message _ _ fa.error_message fb.error_message
        p9.1 in
    let p11 = version-injective a.version b.version fa.version fb.version p10.1 in
    λ i. record {
      id = p1.0 i;
      rule_id = p3.0 i;
      timestamp = p4.0 i;
      state_before_hash = p5.0 i;
      state_after_hash = p6.0 i;
      change_summary = p9.0 i;
      execution_result = p8.0 i;
      error_message = p10.0 i;
      previous_hash = p7.0 i;
      nonce = p2.0 i;
      version = p11 i;
    }

-- Lengths and numbers of both records fit their machine types. A record that was altered and still verifies under the digest of the original shows a collision:
-- two different messages with the same keyed digest, in hexadecimal.
pub verify_altered :
    (C : Crates) (key : List ℕ) (a b : AuditRecord)
    → Fits (fields a)
    → Fits (fields b)
    → a.hash ≡ b.hash
    → fields a ≢ fields b
    → verify C a key ≡ true
    → verify C b key ≡ true
    → (hash_message (fields a) ≢ hash_message (fields b))
      × (C.hex_encode (C.hmac_sha256 key (hash_message (fields a)))
          ≡ C.hex_encode (C.hmac_sha256 key (hash_message (fields b))))
unfolding verify compute_hash
verify_altered C key a b fa fb same_hash altered va vb = (
  λ e. altered (hash_message-injective (fields a) (fields b) fa fb e),
  sym ((eq_iff a.hash _).0 va) ∙ same_hash ∙ (eq_iff b.hash _).0 vb,
)
