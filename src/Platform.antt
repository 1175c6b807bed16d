-- ===== src/Platform.antt =====
-- What the program uses and does not implement: `f64` arithmetic, and the crates sha2, hmac, hex
-- and serde_json. They are parameters of the definitions that use them.
use evorule_tcb.Prelude.{ℕ, String, Bool, List, ℤ}
use evorule_tcb.Value.Data.{Value}

-- `f64`, on the 64-bit patterns of the numbers. The pattern of 0.0 is 0.
pub record Floats : Type 0 where
  -- `i as f64`
  pub of_i64 : ℤ → ℕ
  -- `==` and `<` of `f64`
  pub num_eq : ℕ → ℕ → Bool
  pub num_lt : ℕ → ℕ → Bool
  -- `==` of `OrderedFloat<f64>`
  pub ord_eq : ℕ → ℕ → Bool
  pub is_nan : ℕ → Bool
  pub num_add : ℕ → ℕ → ℕ
  pub num_sub : ℕ → ℕ → ℕ
  pub num_mul : ℕ → ℕ → ℕ
  pub num_div : ℕ → ℕ → ℕ

-- The digests, their text form, and the JSON text of a value.
pub record Crates : Type 0 where
  pub sha256 : List ℕ → List ℕ
  pub hmac_sha256 : (key message : List ℕ) → List ℕ
  pub hex_encode : List ℕ → String
  pub json_to_string : Value → String
  pub display_integer : ℤ → String
  pub display_float : ℕ → String
  -- two hexadecimal digits of a byte, `{:02x}`
  pub hex_byte : ℕ → String
