-- ===== src/Value/Accessors.antt =====
-- The accessors of `Value`, crates/tcb/src/value.rs: views, lookup and update, size.
use evorule_tcb.Prelude.{
  ℕ, String, ◌≡◌, Bool, true, false, Option, none, some, ◌==◌, nat_eq, if◌then◌else◌, length,
  get_elem?, ℤ,
}
use evorule_tcb.Value.Data.{
  Value, null, bool, integer, float, string, list, object, bytes, Items, nil, Entries, end, to_list,
}
use evorule_tcb.Value.ImMap
use Prim.Native.String

-- `Value::object`, `Value::empty_object`, `Value::list` and `Value::empty_list`.
abbrev pub empty_object : Value
empty_object = object end

abbrev pub empty_list : Value
empty_list = list nil

unfoldable pub as_bool : Value → Option Bool
as_bool (bool b) = some b
as_bool _ = none

unfoldable pub as_integer : Value → Option ℤ
as_integer (integer i) = some i
as_integer _ = none

unfoldable pub as_str : Value → Option String
as_str (string s) = some s
as_str _ = none

unfoldable pub as_list : Value → Option Items
as_list (list v) = some v
as_list _ = none

unfoldable pub as_object : Value → Option Entries
as_object (object m) = some m
as_object _ = none

unfoldable pub is_null : Value → Bool
is_null null = true
is_null _ = false

unfoldable pub type_name : Value → String
type_name null = "Null"
type_name (bool _) = "Bool"
type_name (integer _) = "Integer"
type_name (float _) = "Float"
type_name (string _) = "String"
type_name (list _) = "List"
type_name (object _) = "Object"
type_name (bytes _) = "Bytes"

unfoldable pub get : Value → String → Option Value
unfolding ImMap.get
get (object m) key = ImMap.get m key
get _ key = none

unfoldable pub set : Value → String → Value → Value
unfolding ImMap.insert
set (object m) key v = object (ImMap.insert m key v)
set self key v = self

unfoldable pub index : Value → ℕ → Option Value
index (list v) i = get_elem? (to_list v) i
index _ i = none

-- A text is measured in bytes.
unfoldable pub len : Value → ℕ
unfolding ImMap.len
len (list v) = length (to_list v)
len (object m) = ImMap.len m
len (string s) = String.len s
len (bytes b) = length b
len _ = 1

unfoldable pub is_empty : Value → Bool
unfolding len
is_empty v = nat_eq (len v) 0

-- An update of an object is read back, and the other keys keep their values.
pub get-set :
    (m : Entries) (w : Value) (k j : String)
    → get (set (object m) k w) j ≡ (if k == j then some w else get (object m) j)
unfolding get set
get-set m w k j = ImMap.get-insert m k j w
