-- ===== src/Value/DispatchKey.antt =====
-- `Value::to_dispatch_key`, crates/tcb/src/value.rs: the text under which a case is looked up.
use evorule_tcb.Prelude.{ℕ, String, List, [], ◌∷◌, if◌then◌else◌}
use evorule_tcb.Value.Data.{Value, null, bool, integer, float, string, list, object, bytes}
use Prim.Native.String
use evorule_tcb.Platform.{Crates}

module _ (C : Crates) where
  abbrev pub hex_text : List ℕ → String
  hex_text [] = ""
  hex_text (b ∷ bs) = String.◌++◌ (C.hex_byte b) (hex_text bs)

  unfoldable pub to_dispatch_key : Value → String
  to_dispatch_key null = "null"
  to_dispatch_key (bool b) = if b then "true" else "false"
  to_dispatch_key (integer n) = C.display_integer n
  to_dispatch_key (float x) = C.display_float x
  to_dispatch_key (string s) = s
  to_dispatch_key (list v) = C.json_to_string (list v)
  to_dispatch_key (object m) = C.json_to_string (object m)
  to_dispatch_key (bytes b) = hex_text b
