-- ===== src/Domain/Depth.antt =====
-- The depth limit of `Domain::contains`, crates/tcb/src/domain.rs, against evaluation with no limit.
use evorule_tcb.Prelude.{
  ℕ, zero, suc, ◌+◌, ◌≤◌, ◌<◌, ◌≡◌, refl, ap, Bool, true, false, not, ◌&&◌, ◌||◌, arith, and_then,
}
use Prim.Native.Nat.{max}
use evorule_tcb.Platform.{Floats}
use evorule_tcb.State.{State, get_path}
use evorule_tcb.State.Exec.{exec_field}
use evorule_tcb.Value.Accessors
use evorule_tcb.Domain.{
  Domain, Domains, atom, and, or, not_domain, instruction, universal, empty, no_domains, domain,
  atom_holds, instruction_holds, contains_inner, all_contain, any_contains, contains,
  max_domain_depth,
}

-- The levels of a domain below its root.
abbrev mutual
  pub depth : Domain → ℕ
  depth (and ds) = suc (list_depth ds)
  depth (or ds) = suc (list_depth ds)
  depth (not_domain d) = suc (depth d)
  depth _ = 0

  pub list_depth : Domains → ℕ
  list_depth no_domains = 0
  list_depth (domain d ds) = max (depth d) (list_depth ds)

-- `n` negations.
abbrev pub nots : ℕ → Domain → Domain
nots zero d = d
nots (suc n) d = not_domain (nots n d)

abbrev flips : ℕ → Bool
flips zero = false
flips (suc n) = not (flips n)

-- The Boolean meaning of a domain, with no limit on its depth.
module _ (F : Floats) where
  unfoldable mutual
    pub holds : Domain → State → Bool
    holds (atom attribute op value) s = atom_holds F op value (get_path s attribute)
    holds (and ds) s = all_hold ds s
    holds (or ds) s = any_holds ds s
    holds (not_domain d) s = not (holds d s)
    holds (instruction name) s =
        instruction_holds F name
          (and_then (exec_field s "instruction") (λ i. Accessors.get i "type"))
    holds universal s = true
    holds empty s = false

    pub all_hold : Domains → State → Bool
    all_hold no_domains s = true
    all_hold (domain d ds) s = holds d s && all_hold ds s

    pub any_holds : Domains → State → Bool
    any_holds no_domains s = false
    any_holds (domain d ds) s = holds d s || any_holds ds s

  mutual
    unfolding contains_inner holds

    contains_inner-eq-holds :
        (d : Domain) (f : ℕ) (s : State) → depth d < f → contains_inner F d f s ≡ holds d s
    contains_inner-eq-holds (atom a op v) zero s h = absurd (omega arith)
    contains_inner-eq-holds (atom a op v) (suc f) s h = refl
    contains_inner-eq-holds (and ds) zero s h = absurd (omega arith)
    contains_inner-eq-holds (and ds) (suc f) s h = all_contain-eq-all_hold ds f s (omega arith)
    contains_inner-eq-holds (or ds) zero s h = absurd (omega arith)
    contains_inner-eq-holds (or ds) (suc f) s h = any_contains-eq-any_holds ds f s (omega arith)
    contains_inner-eq-holds (not_domain d) zero s h = absurd (omega arith)
    contains_inner-eq-holds (not_domain d) (suc f) s h =
        ap not (contains_inner-eq-holds d f s (omega arith))
    contains_inner-eq-holds (instruction n) zero s h = absurd (omega arith)
    contains_inner-eq-holds (instruction n) (suc f) s h = refl
    contains_inner-eq-holds universal zero s h = absurd (omega arith)
    contains_inner-eq-holds universal (suc f) s h = refl
    contains_inner-eq-holds empty zero s h = absurd (omega arith)
    contains_inner-eq-holds empty (suc f) s h = refl

    all_contain-eq-all_hold :
        (ds : Domains) (f : ℕ) (s : State)
        → list_depth ds < f
        → all_contain F ds f s ≡ all_hold ds s
    all_contain-eq-all_hold no_domains f s h = refl
    all_contain-eq-all_hold (domain d ds) f s h = λ i.
        contains_inner-eq-holds d f s (omega arith) i
        && all_contain-eq-all_hold ds f s (omega arith) i

    any_contains-eq-any_holds :
        (ds : Domains) (f : ℕ) (s : State)
        → list_depth ds < f
        → any_contains F ds f s ≡ any_holds ds s
    any_contains-eq-any_holds no_domains f s h = refl
    any_contains-eq-any_holds (domain d ds) f s h = λ i.
        contains_inner-eq-holds d f s (omega arith) i
        || any_contains-eq-any_holds ds f s (omega arith) i

  -- Up to 128 levels of nesting the evaluation is the Boolean meaning of the domain.
  pub contains-eq-holds :
      (d : Domain) (s : State) → depth d ≤ max_domain_depth → contains F d s ≡ holds d s
  unfolding contains
  contains-eq-holds d s h = contains_inner-eq-holds d (max_domain_depth + 1) s (omega arith)

  contains_inner-nots : (f : ℕ) (d : Domain) (s : State) → contains_inner F (nots f d) f s ≡ flips f
  unfolding contains_inner
  contains_inner-nots zero d s = at_limit d
    where
      at_limit : (e : Domain) → contains_inner F e zero s ≡ false
      at_limit (atom a op v) = refl
      at_limit universal = refl
      at_limit _ = refl
  contains_inner-nots (suc f) d s = ap not (contains_inner-nots f d s)

  -- 129 negations are true in every state, whatever is negated: the evaluation of what stands below
  -- the limit is false, and the negations above turn that into true.
  pub contains-nots : (d : Domain) (s : State) → contains F (nots (max_domain_depth + 1) d) s ≡ true
  unfolding contains
  contains-nots d s = contains_inner-nots 129 d s
