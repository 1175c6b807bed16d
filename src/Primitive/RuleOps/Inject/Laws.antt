-- ===== src/Primitive/RuleOps/Inject/Laws.antt =====
-- The change of the rule set keeps count, crates/tcb/src/primitive/rule_ops.rs.
use evorule_tcb.Prelude.{
  ℕ, ◌+◌, ◌≤◌, String, ◌≡◌, refl, sym, ap, ◌∙◌, inl, inr, true, false, not, ◌&&◌, Option, none,
  some, List, [], ◌∷◌, ◌++◌, arith, eq_iff, nat_eq, if◌then◌else◌, Bool-cases, and_then, length,
  length-append,
}
use evorule_tcb.Value.Data.{Value}
use evorule_tcb.Value.Accessors
use evorule_tcb.Value.Accessors.{as_str}
use evorule_tcb.Primitive.RuleOps.{has_rule_id, id_is}
use evorule_tcb.Primitive.RuleOps.Inject.{
  without_rule, replace_rule, replaced_or_pushed, prepend, Change,
}

-- How many rules have the identifier.
abbrev pub count_id : String → List Value → ℕ
count_id rule_id [] = 0
count_id rule_id (r ∷ rules) =
    let rest = count_id rule_id rules in if has_rule_id rule_id r then 1 + rest else rest

pub without_rule_lem :
    (rule_id : String) (rules : List Value)
    → (count_id rule_id (without_rule rule_id rules) ≡ 0)
      × (length (without_rule rule_id rules) + count_id rule_id rules ≡ length rules)
unfolding without_rule
without_rule_lem rule_id [] = (refl, refl)
without_rule_lem rule_id (r ∷ rules) = elim (Bool-cases (has_rule_id rule_id r)) [
  | inl e ↦ let (a, b) = without_rule_lem rule_id rules in rw e (a, omega (arith, b))
  | inr e ↦ let (a, b) = without_rule_lem rule_id rules in rw e (rw e a, omega (arith, b))
]

-- The list with the first rule of the identifier replaced.
pub record Replaced (rule_id : String) (rules new_rules : List Value) : Type 0 where
  same_length : length new_rules ≡ length rules
  found : 1 ≤ count_id rule_id rules
  same_count : (other : String) → count_id other new_rules ≡ count_id other rules

Replaced-step :
    (rule_id : String) (r : Value) (rules new_rules : List Value)
    → Replaced rule_id rules new_rules
    → Replaced rule_id (r ∷ rules) (r ∷ new_rules)
Replaced-step rule_id r rules new_rules p = record {
  same_length = omega (arith, p.same_length);
  found = elim (Bool-cases (has_rule_id rule_id r)) [
    | inl e ↦ rw e (omega arith)
    | inr e ↦ rw e p.found
  ];
  same_count = λ other. ap (λ n. if has_rule_id other r then 1 + n else n) (p.same_count other);
}

abbrev pub ReplacedCases : String → Value → List Value → Option (List Value) → Type 0
ReplacedCases rule_id rule rules none = count_id rule_id rules ≡ 0
ReplacedCases rule_id rule rules (some new_rules) = Replaced rule_id rules new_rules

Replaced-prepend :
    (rule_id : String) (rule r : Value) (rules : List Value) (o : Option (List Value))
    → has_rule_id rule_id r ≡ false
    → ReplacedCases rule_id rule rules o
    → ReplacedCases rule_id rule (r ∷ rules) (prepend r o)
Replaced-prepend rule_id rule r rules none e p = rw e p
Replaced-prepend rule_id rule r rules (some new_rules) e p =
    Replaced-step rule_id r rules new_rules p

id_is-some : (o : Option String) (rule_id : String) → id_is o rule_id ≡ true → o ≡ some rule_id
id_is-some none rule_id h = cc
id_is-some (some t) rule_id h = ap some ((eq_iff t rule_id).0 h)

same_ids :
    (rule_id other : String) (rule r : Value)
    → has_rule_id rule_id rule ≡ true
    → has_rule_id rule_id r ≡ true
    → has_rule_id other rule ≡ has_rule_id other r
unfolding has_rule_id
same_ids rule_id other rule r h k =
    ap (λ o. id_is o other)
      (id_is-some (and_then (Accessors.get rule "rule_id") as_str) rule_id h
        ∙ sym (id_is-some (and_then (Accessors.get r "rule_id") as_str) rule_id k))

pub replace_rule_lem :
    (rule_id : String) (rule : Value) (rules : List Value)
    → has_rule_id rule_id rule ≡ true
    → ReplacedCases rule_id rule rules (replace_rule rule_id rule rules)
unfolding replace_rule
replace_rule_lem rule_id rule [] h = refl
replace_rule_lem rule_id rule (r ∷ rules) h = elim (Bool-cases (has_rule_id rule_id r)) [
  | inl e ↦ rw e (record {
    same_length = refl;
    found = rw e (omega arith);
    same_count = λ other.
        ap (λ b. if b then 1 + count_id other rules else count_id other rules)
          (same_ids rule_id other rule r h e);
  })
  | inr e ↦ rw e (
      Replaced-prepend rule_id rule r rules (replace_rule rule_id rule rules) e
        (replace_rule_lem rule_id rule rules h))
]

count_id-append :
    (rule_id : String) (rules : List Value) (rule : Value)
    → count_id rule_id (rules ++ rule ∷ [])
      ≡ count_id rule_id rules + (if has_rule_id rule_id rule then 1 else 0)
count_id-append rule_id [] rule = ground arith
count_id-append rule_id (r ∷ rules) rule = ground (arith, count_id-append rule_id rules rule)

-- What an added rule does to the list: its length, and how often each identifier stands in it.
pub record Added (rule_id : String) (rule : Value) (rules : List Value) (g : Change) : Type 0 where
  pub replaced : g.replaced ≡ not g.added
  pub added : g.added ≡ nat_eq (count_id rule_id rules) 0
  pub new_length : length g.rules ≡ length rules + (if g.added then 1 else 0)
  pub present : 1 ≤ count_id rule_id g.rules
  pub counts :
      (other : String)
      → count_id other g.rules
        ≡ count_id other rules + (if g.added && has_rule_id other rule then 1 else 0)

pub Added-replaced_or_pushed :
    (rule_id : String) (rule : Value) (rules : List Value) (o : Option (List Value))
    → has_rule_id rule_id rule ≡ true
    → ReplacedCases rule_id rule rules o
    → Added rule_id rule rules (replaced_or_pushed rule rules o)
Added-replaced_or_pushed rule_id rule rules none h p = record {
  replaced = refl;
  added = rw p refl;
  new_length = length-append rules (rule ∷ []);
  present = rw (count_id-append rule_id rules rule, h) (omega arith);
  counts = λ other. count_id-append other rules rule;
}
Added-replaced_or_pushed rule_id rule rules (some new_rules) h p = record {
  replaced = refl;
  added = ground (arith, p.found);
  new_length = omega (arith, p.same_length);
  present = rw (p.same_count rule_id) p.found;
  counts = λ other. omega (arith, p.same_count other);
}
