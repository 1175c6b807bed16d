-- ===== src/Prelude/Order.antt =====
-- The order of texts, Rust's `str::cmp`: equality, antisymmetry, transitivity, and the Boolean
-- test `str_lt` with which keys are sorted.
use Prim.Native.Nat.{ℕ, Ordering, compare as compare_ℕ}
use Prim.Native.Char.{code}
use Prim.Native.String.{String, then, compare}
use Prim.Native.String.compare as cmp
use mathlib.Core.Path.{◌≡◌, refl, sym, ◌∙◌, ap₂, ap}
use mathlib.Core.Bool.{Bool, true, false}
use native.Mathlib.Omega.{arith}
use text.Mathlib.Text.{is_lt}
use text.Mathlib.TextEquality.{path_by_compare}

abbrev pub str_lt : String → String → Bool
str_lt s t = is_lt (compare s t)

abbrev flip : Ordering → Ordering
flip Ordering.lt = Ordering.gt
flip Ordering.eq = Ordering.eq
flip Ordering.gt = Ordering.lt

flip-compare_ℕ : (m n : ℕ) → compare_ℕ m n ≡ flip (compare_ℕ n m)
flip-compare_ℕ m n = ground arith

flip-then : (o r : Ordering) → flip (then o r) ≡ then (flip o) (flip r)
flip-then Ordering.lt r = refl
flip-then Ordering.eq r = refl
flip-then Ordering.gt r = refl

pub flip-compare : (s t : String) → compare s t ≡ flip (compare t s)
flip-compare String.[] String.[] = rw cmp.nil-nil
flip-compare String.[] (String.◌∷◌ d t) = rw (cmp.nil-cons, cmp.cons-nil)
flip-compare (String.◌∷◌ c s) String.[] = rw (cmp.nil-cons, cmp.cons-nil)
flip-compare (String.◌∷◌ c s) (String.◌∷◌ d t) =
    rw (cmp.cons-cons c d s t, cmp.cons-cons d c t s)
      (ap₂ then (flip-compare_ℕ (code c) (code d)) (flip-compare s t)
        ∙ sym (flip-then (compare_ℕ (code d) (code c)) (compare t s)))

pub compare_self : (s : String) → compare s s ≡ Ordering.eq
compare_self String.[] = rw cmp.nil-nil
compare_self (String.◌∷◌ c s) = rw (cmp.cons-cons c c s s) (ground (arith, compare_self s))

then_trans :
    (a b c : ℕ) (o p q : Ordering)
    → (o ≡ Ordering.lt → p ≡ Ordering.lt → q ≡ Ordering.lt)
    → then (compare_ℕ a b) o ≡ Ordering.lt
    → then (compare_ℕ b c) p ≡ Ordering.lt
    → then (compare_ℕ a c) q ≡ Ordering.lt
then_trans a b c o p q ih h k = ground (arith, ih)

compare_trans :
    (s t u : String)
    → compare s t ≡ Ordering.lt
    → compare t u ≡ Ordering.lt
    → compare s u ≡ Ordering.lt
compare_trans String.[] String.[] u h k = cc
compare_trans String.[] (String.◌∷◌ d t) String.[] h k = cc (cmp.cons-nil d t, k)
compare_trans String.[] (String.◌∷◌ d t) (String.◌∷◌ e u) h k = cmp.nil-cons e u
compare_trans (String.◌∷◌ c s) String.[] u h k = cc (cmp.cons-nil c s, h)
compare_trans (String.◌∷◌ c s) (String.◌∷◌ d t) String.[] h k = cc (cmp.cons-nil d t, k)
compare_trans (String.◌∷◌ c s) (String.◌∷◌ d t) (String.◌∷◌ e u) h k = rw (cmp.cons-cons c e s u) (
    then_trans (code c) (code d) (code e) (compare s t) (compare t u) (compare s u)
      (compare_trans s t u) (rw (cmp.cons-cons c d s t) at h) (rw (cmp.cons-cons d e t u) at k))

lt_of_is_lt : (o : Ordering) → is_lt o ≡ true → o ≡ Ordering.lt
lt_of_is_lt Ordering.lt h = refl
lt_of_is_lt Ordering.eq h = cc
lt_of_is_lt Ordering.gt h = cc

pub str_lt_trans : (s t u : String) → str_lt s t ≡ true → str_lt t u ≡ true → str_lt s u ≡ true
str_lt_trans s t u h k =
    ap is_lt (compare_trans s t u (lt_of_is_lt (compare s t) h) (lt_of_is_lt (compare t u) k))

pub str_lt_irrefl : (s : String) → str_lt s s ≡ false
str_lt_irrefl s = ap is_lt (compare_self s)

pub str_lt_asymm : (s t : String) → str_lt s t ≡ true → str_lt t s ≡ false
str_lt_asymm s t h = rw (flip-compare t s, lt_of_is_lt (compare s t) h)

total_cases : (o : Ordering) → is_lt o ≡ false → is_lt (flip o) ≡ false → o ≡ Ordering.eq
total_cases Ordering.lt h k = cc
total_cases Ordering.eq h k = refl
total_cases Ordering.gt h k = cc

pub str_lt_connex : (s t : String) → str_lt s t ≡ false → str_lt t s ≡ false → s ≡ t
str_lt_connex s t h k =
    path_by_compare s t (total_cases (compare s t) h (rw (flip-compare t s) at k))
