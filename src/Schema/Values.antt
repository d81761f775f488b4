-- ===== src/Schema/Values.antt =====
-- JSON as the decoders of encoding/json hand it over: values, the payload of an operation as the
-- token stream that `parse` walks, and a gate's input schema.
use Prim.Native.String.{String}
use workforce_platform.Base.{ℕ, Bool, Option, List}
use workforce_platform.Base.Int.{ℤ}

-- A float64 by its exact value: a whole number, another finite number, or none (NaN, infinity).
pub data Float64 : Type 0 where
  whole : ℤ → Float64
  fractional : ℕ → Float64
  not_finite : Float64

-- The dynamic types that a Go `any` with a number in it has. A json.Number is its literal, which is
-- read by ParseInt and by ParseFloat; either may refuse.
pub data Number : Type 0 where
  int64 : ℤ → Number
  float64 : Float64 → Number
  json_number : Option ℤ → Option Float64 → Number

mutual
  pub data Json : Type 0 where
    null : Json
    boolean : Bool → Json
    number : Number → Json
    string : ℕ → Json
    array : Items → Json
    object : Fields → Json

  pub data Items : Type 0 where
    nil : Items
    cons : Json → Items → Items

  pub data Fields : Type 0 where
    end : Fields
    field : String → Json → Fields → Fields

-- A raw message: nothing but white space, a text that does not open an object, or an object with its
-- members in order (`none` is a value that does not decode), and whether the text ends well after
-- them.
pub data Payload : Type 0 where
  blank : Payload
  no_object : Payload
  members : List (String × Option Json) → Bool → Payload

-- gateField: a type name, and the item type of an array.
pub record GateField : Type 0 where
  pub type_name : String
  pub items : Option String

-- A gate's input schema: empty or `{}`, nothing but white space, unparsable, or a gateSchema (a nil map is `none`).
pub data GateSchema : Type 0 where
  unconstrained : GateSchema
  white_space : GateSchema
  unparsable : GateSchema
  spec :
      (properties requested : Option (List (String × GateField))) (required : List String)
      → GateSchema
