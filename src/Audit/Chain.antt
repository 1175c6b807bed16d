-- ===== src/Audit/Chain.antt =====
-- Appending to the audit chain keeps it a chain, crates/tcb/src/audit.rs: each record verifies and
-- names the digest of the one before it.
use evorule_tcb.Prelude.{
  ℕ, String, ◌≡◌, refl, sym, ◌∙◌, Bool, true, List, [], ◌∷◌, ◌++◌, arith, if◌then◌else◌, all,
}
use evorule_tcb.Platform.{Crates}
use evorule_tcb.Audit.{
  AuditRecord, AuditChainState, verify, zero_hash, empty_chain, push_record, is_nil,
}

-- From one digest to another by records that each name the digest before them.
abbrev pub LinkedFrom : String → List AuditRecord → String → Type 0
LinkedFrom before [] last = before ≡ last
LinkedFrom before (r ∷ rs) last = (r.previous_hash ≡ before) × LinkedFrom r.hash rs last

abbrev pub root_of : List AuditRecord → String
root_of [] = zero_hash
root_of (r ∷ rs) = r.hash

pub record IsChain (C : Crates) (key : List ℕ) (c : AuditChainState) : Type 0 where
  pub linked : LinkedFrom zero_hash c.records c.latest_hash
  pub verified : all (λ r. verify C r key) c.records ≡ true
  pub root : c.root_hash ≡ root_of c.records

LinkedFrom-append :
    (before last : String) (rs : List AuditRecord) (r : AuditRecord)
    → LinkedFrom before rs last
    → r.previous_hash ≡ last
    → LinkedFrom before (rs ++ r ∷ []) r.hash
LinkedFrom-append before last [] r h e = (e ∙ sym h, refl)
LinkedFrom-append before last (x ∷ rs) r h e = (h.0, LinkedFrom-append x.hash last rs r h.1 e)

all-append {ℓ} :
    {A : Type ℓ} (p : A → Bool) (xs : List A) (x : A)
    → all p xs ≡ true
    → p x ≡ true
    → all p (xs ++ x ∷ []) ≡ true
all-append p [] x h e = rw e
all-append p (y ∷ ys) x h e = ground (arith, all-append p ys x)

root_of-append :
    (rs : List AuditRecord) (r : AuditRecord) (root : String)
    → root ≡ root_of rs
    → (if is_nil rs then r.hash else root) ≡ root_of (rs ++ r ∷ [])
root_of-append [] r root h = refl
root_of-append (x ∷ rs) r root h = h

pub IsChain-empty_chain : (C : Crates) (key : List ℕ) → IsChain C key empty_chain
unfolding empty_chain
IsChain-empty_chain C key = record { linked = refl; verified = refl; root = refl }

-- A record that verifies and names the latest digest of a linked and verified chain can be appended:
-- the result is such a chain again.
pub push_record-IsChain :
    (C : Crates) (key : List ℕ) (c : AuditChainState) (r : AuditRecord) (tick : ℕ)
    → IsChain C key c
    → verify C r key ≡ true
    → r.previous_hash ≡ c.latest_hash
    → IsChain C key (push_record c r tick)
unfolding push_record
push_record-IsChain C key c r tick h v e = record {
  linked = LinkedFrom-append zero_hash c.latest_hash c.records r h.linked e;
  verified = all-append (λ x. verify C x key) c.records r h.verified v;
  root = root_of-append c.records r c.root_hash h.root;
}
