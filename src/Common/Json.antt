-- ===== src/Common/Json.antt =====
-- `serde_json::Value`, as far as event payloads use it: objects keep the order of insertion.
use Prim.Native.Nat.{ℕ}
use mathlib.Core.Bool.{Bool}
use mathlib.Core.Option.{Option, none, some}
use checkspan.Common.Tests.{if◌then◌else◌}
use checkspan.Common.Equality.{◌==◌, nat_eq, list_eq, list_beq}
use checkspan.Common.Texts.{Text}

mutual
  pub data Value : Type 0 where
    null : Value
    bool : Bool → Value
    number : ℕ → Value
    string : Text → Value
    array : Items → Value
    object : Fields → Value

  pub data Items : Type 0 where
    nil : Items
    cons : Value → Items → Items

  pub data Fields : Type 0 where
    end : Fields
    field : Text → Value → Fields → Fields

get_field : Text → Fields → Option Value
get_field name end = none
get_field name (field k v rest) = if k == name then some v else get_field name rest

-- `Value::get(name)`, which is `None` for anything but an object.
unfoldable pub get : Text → Value → Option Value
unfolding get_field list_beq
get name (object fs) = get_field name fs
get name _ = none

-- `.filter(|v| !v.is_null())`
unfoldable pub non_null : Option Value → Option Value
non_null (some null) = none
non_null o = o
