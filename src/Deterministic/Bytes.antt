-- ===== src/Deterministic/Bytes.antt =====
-- Fixed-width integers, UTF-8 and length-prefixed texts can be read back from the front of a byte
-- list: equal bytes, equal contents.
use evorule_tcb.Prelude.{
  ℕ, zero, suc, ◌/◌, ◌%◌, ◌^◌, ◌<◌, String, ◌≡◌, refl, sym, ◌∙◌, ◌≢◌, List, [], ◌∷◌, ◌++◌, arith,
  length, length-append,
}
use Prim.Native.Char.{Char, code, len_utf8, len_utf8_def}
use Prim.Native.String.len
use Prim.Native.String
use native.Mathlib.Nat.{pow-suc}
use mathlib.Core.List.{append_assoc}
use text.Mathlib.TextEquality.{Char-path}
use evorule_tcb.Deterministic.Encode.{le_bytes, be_bytes, utf8, as_bytes, text_bytes}

pub append_split {ℓ} :
    {A : Type ℓ} (xs ys : List A) {r s : List A}
    → length xs ≡ length ys
    → xs ++ r ≡ ys ++ s
    → (xs ≡ ys) × (r ≡ s)
append_split [] [] e h = (refl, h)
append_split [] (y ∷ ys) e h = absurd (omega arith)
append_split (x ∷ xs) [] e h = absurd (omega arith)
append_split (x ∷ xs) (y ∷ ys) {r} {s} e h =
    let tails : xs ++ r ≡ ys ++ s = cc in
    let both = append_split xs ys (omega arith) tails in (cc both.0, both.1)

length-be_bytes : (k n : ℕ) → length (be_bytes k n) ≡ k
unfolding be_bytes
length-be_bytes zero n = refl
length-be_bytes (suc k) n =
    omega (arith, length-append (be_bytes k (n / 256)) (n % 256 ∷ []), length-be_bytes k (n / 256))

div-lt_pow : (k n : ℕ) → n < 256 ^ suc k → n / 256 < 256 ^ k
div-lt_pow k n h = omega (arith, pow-suc 256 k)

pub le_bytes-injective :
    (k n m : ℕ) (r s : List ℕ)
    → n < 256 ^ k
    → m < 256 ^ k
    → le_bytes k n ++ r ≡ le_bytes k m ++ s
    → (n ≡ m) × (r ≡ s)
unfolding le_bytes
le_bytes-injective zero n m r s hn hm h = (omega arith, h)
le_bytes-injective (suc k) n m r s hn hm h =
    let low : n % 256 ≡ m % 256 = cc in
    let rest : le_bytes k (n / 256) ++ r ≡ le_bytes k (m / 256) ++ s = cc in
    let both =
      le_bytes-injective k (n / 256) (m / 256) r s (div-lt_pow k n hn) (div-lt_pow k m hm) rest in
    (omega (arith, both.0), both.1)

be_bytes_inverse : (k n m : ℕ) → n < 256 ^ k → m < 256 ^ k → be_bytes k n ≡ be_bytes k m → n ≡ m
unfolding be_bytes
be_bytes_inverse zero n m hn hm h = omega arith
be_bytes_inverse (suc k) n m hn hm h =
    let both =
      append_split (be_bytes k (n / 256)) (be_bytes k (m / 256))
        (omega (arith, length-be_bytes k (n / 256), length-be_bytes k (m / 256))) h in
    let high =
      be_bytes_inverse k (n / 256) (m / 256) (div-lt_pow k n hn) (div-lt_pow k m hm) both.0 in
    let low : n % 256 ≡ m % 256 = cc both.1 in omega (arith, high)

be_bytes-injective :
    (k n m : ℕ) (r s : List ℕ)
    → n < 256 ^ k
    → m < 256 ^ k
    → be_bytes k n ++ r ≡ be_bytes k m ++ s
    → (n ≡ m) × (r ≡ s)
be_bytes-injective k n m r s hn hm h =
    let both =
      append_split (be_bytes k n) (be_bytes k m)
        (omega (arith, length-be_bytes k n, length-be_bytes k m)) h in
    (be_bytes_inverse k n m hn hm both.0, both.1)

pub le_bytes_8-injective :
    (n m : ℕ) (r s : List ℕ)
    → n < 2 ^ 64
    → m < 2 ^ 64
    → le_bytes 8 n ++ r ≡ le_bytes 8 m ++ s
    → (n ≡ m) × (r ≡ s)
le_bytes_8-injective = le_bytes-injective 8

pub be_bytes_8-injective :
    (n m : ℕ) (r s : List ℕ)
    → n < 2 ^ 64
    → m < 2 ^ 64
    → be_bytes 8 n ++ r ≡ be_bytes 8 m ++ s
    → (n ≡ m) × (r ≡ s)
be_bytes_8-injective = be_bytes-injective 8

code-lt : (c : Char) → code c < 1114112
code-lt (Char.char n p) = ground arith

utf8-injective :
    (c d : ℕ) (r s : List ℕ)
    → c < 1114112
    → d < 1114112
    → utf8 c ++ r ≡ utf8 d ++ s
    → (c ≡ d) × (r ≡ s)
unfolding utf8
utf8-injective c d r s hc hd h = ground arith

nil-ne-utf8 : (c : ℕ) (r : List ℕ) → [] ≢ utf8 c ++ r
unfolding utf8
nil-ne-utf8 c r h = ground arith

pub as_bytes-injective : (t u : String) → as_bytes t ≡ as_bytes u → t ≡ u
unfolding as_bytes
as_bytes-injective String.[] String.[] h = refl
as_bytes-injective String.[] (String.◌∷◌ d u) h = absurd (nil-ne-utf8 (code d) (as_bytes u) h)
as_bytes-injective (String.◌∷◌ c t) String.[] h = absurd (nil-ne-utf8 (code c) (as_bytes t) (sym h))
as_bytes-injective (String.◌∷◌ c t) (String.◌∷◌ d u) h =
    let both =
      utf8-injective (code c) (code d) (as_bytes t) (as_bytes u) (code-lt c) (code-lt d) h in
    λ i. String.◌∷◌ (Char-path c d both.0 i) (as_bytes-injective t u both.1 i)

length-utf8 : (c : Char) → length (utf8 (code c)) ≡ len_utf8 c
unfolding utf8
length-utf8 c = rw (len_utf8_def c) (ground arith)

-- `s.len()` counts the bytes of the text.
pub length-as_bytes : (s : String) → length (as_bytes s) ≡ String.len s
unfolding as_bytes
length-as_bytes String.[] = refl
length-as_bytes (String.◌∷◌ c s) =
    rw (len.cons c s)
      (omega (arith, length-append (utf8 (code c)) (as_bytes s), length-utf8 c, length-as_bytes s))

pub text_bytes-injective :
    (t u : String) (r s : List ℕ)
    → String.len t < 2 ^ 64
    → String.len u < 2 ^ 64
    → text_bytes t ++ r ≡ text_bytes u ++ s
    → (t ≡ u) × (r ≡ s)
unfolding text_bytes
text_bytes-injective t u r s ht hu h =
    let sizes =
      be_bytes_8-injective (String.len t) (String.len u) (as_bytes t ++ r) (as_bytes u ++ s) ht hu (
        sym (append_assoc (be_bytes 8 (String.len t)) (as_bytes t) r)
        ∙ h
        ∙ append_assoc (be_bytes 8 (String.len u)) (as_bytes u) s) in
    let both =
      append_split (as_bytes t) (as_bytes u)
        (omega (arith, length-as_bytes t, length-as_bytes u, sizes.0)) sizes.1 in
    (as_bytes-injective t u both.0, both.1)
