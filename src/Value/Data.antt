-- ===== src/Value/Data.antt =====
-- The enum `Value` of crates/tcb/src/value.rs. A `Float` is its 64-bit pattern, an `Integer` a
-- signed number (an `i64` where `IsI64` holds). `im::Vector<Value>` is `Items`, and
-- `im::HashMap<String, Value>` is `Entries`: the pairs in the order in which the map iterates,
-- an order on which nothing may depend.
use evorule_tcb.Prelude.{◌≡◌, refl, ℕ, ℤ, String, Bool, List, [], ◌∷◌}

mutual
  pub data Value : Type 0 where
    null : Value
    bool : Bool → Value
    integer : ℤ → Value
    float : ℕ → Value
    string : String → Value
    list : Items → Value
    object : Entries → Value
    bytes : List ℕ → Value

  pub data Items : Type 0 where
    nil : Items
    cons : Value → Items → Items

  pub data Entries : Type 0 where
    end : Entries
    entry : String → Value → Entries → Entries

-- The iterators `v.iter()` and `m.iter()`, and the collections built from them.
abbrev pub to_list : Items → List Value
to_list nil = []
to_list (cons x xs) = x ∷ to_list xs

abbrev pub of_list : List Value → Items
of_list [] = nil
of_list (x ∷ xs) = cons x (of_list xs)

abbrev pub pairs : Entries → List (String × Value)
pairs end = []
pairs (entry k v m) = (k, v) ∷ pairs m

abbrev pub of_pairs : List (String × Value) → Entries
of_pairs [] = end
of_pairs ((k, v) ∷ m) = entry k v (of_pairs m)

pub to_list-of_list : (vs : List Value) → to_list (of_list vs) ≡ vs
to_list-of_list [] = refl
to_list-of_list (v ∷ vs) = λ i. v ∷ to_list-of_list vs i
