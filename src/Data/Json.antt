-- ===== src/Data/Json.antt =====
-- JSON values as `json.loads` returns them; a number is kept as its literal.
pub mod Dump
use ai_writing.Common.{Bool, Option, none, some, Str, ◌==◌, list_eq, nat_eq, if◌then◌else◌}

mutual
  pub data Json : Type 0 where
    null : Json
    bool : Bool → Json
    number : Str → Json
    string : Str → Json
    array : Items → Json
    object : Fields → Json

  pub data Items : Type 0 where
    nil : Items
    cons : Json → Items → Items

  -- A dict, in insertion order.
  pub data Fields : Type 0 where
    end : Fields
    field : Str → Json → Fields → Fields

-- `d.get(key)`
unfoldable pub get : Str → Fields → Option Json
get key end = none
get key (field k v rest) = if key == k then some v else get key rest
