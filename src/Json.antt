-- ===== src/Json.antt =====
-- The values of a `map[string]interface{}` that the openers look at.
use go_listener.Common.{Bool, Option, none, some, List, if◌then◌else◌}
use go_listener.Common.Text.{Bytes, equal}

mutual
  -- `strings` is Go's `[]string`, `none` for nil, which a program can put into the map and which
  -- `encoding/json` never makes: it decodes an array as `[]interface{}`, here `array`.
  pub data Json : Type 0 where
    null : Json
    boolean : Bool → Json
    number : Bytes → Json  -- json.Number
    string : Bytes → Json
    strings : Option (List Bytes) → Json
    array : Items → Json
    object : Fields → Json

  pub data Items : Type 0 where
    end : Items
    item : Json → Items → Items

  -- A map with its keys in some order, the first entry of a key counting. Nil is `nothing`.
  pub data Fields : Type 0 where
    nothing : Fields
    field : Bytes → Json → Fields → Fields

-- `m[key]`
unfoldable pub get : Bytes → Fields → Option Json
unfolding equal
get k nothing = none
get k (field j v m) = if equal j k then some v else get k m

-- `v, ok := m[key].(string)`, and so for the other types.
unfoldable pub as_string : Option Json → Option Bytes
as_string (some (string s)) = some s
as_string _ = none

unfoldable pub as_number : Option Json → Option Bytes
as_number (some (number s)) = some s
as_number _ = none

unfoldable pub as_object : Option Json → Option Fields
as_object (some (object m)) = some m
as_object _ = none

unfoldable pub as_strings : Option Json → Option (Option (List Bytes))
as_strings (some (strings l)) = some l
as_strings _ = none
