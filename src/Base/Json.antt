-- ===== src/Base/Json.antt =====
-- A JSON value, as `JSON.parse` gives it. Of the numbers the program reads whole ones only.
use Prim.Native.Nat.{ℕ}
use mathlib.Core.Bool.{Bool}
use mathlib.Core.Option.{Option, none, some}
use gitglasses.Base.Tests.{if◌then◌else◌}
use gitglasses.Base.Texts.{Text, text_eq}

mutual
  pub data Json : Type 0 where
    null other_number : Json
    boolean : Bool → Json
    number : ℕ → Json
    string : Text → Json
    array : Items → Json
    object : Fields → Json

  pub data Items : Type 0 where
    no_items : Items
    item : Json → Items → Items

  pub data Fields : Type 0 where
    no_fields : Fields
    field : Text → Json → Fields → Fields

abbrev pub field_in : Text → Fields → Option Json
field_in key no_fields = none
field_in key (field k v fields) = if text_eq k key then some v else field_in key fields

-- `value.key`, where that is not an error; `none` is `undefined`.
abbrev pub get_field : Text → Json → Option Json
get_field key (object fields) = field_in key fields
get_field key _ = none
