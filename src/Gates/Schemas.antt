-- ===== src/Gates/Schemas.antt =====
-- The input schemas of internal/store/gates.go: ValidateGateSchema, validateGateResponse and what they
-- are made of. A decoded map is a list of its entries.
use Prim.Native.String.{String}
use text.Mathlib.Text.{◌==◌ as str_eq}
use workforce_platform.Base.{
  ℕ, suc, Bool, true, false, not, ◌&&◌, ◌||◌, Option, none, some, List, [], ◌∷◌, leb, if◌then◌else◌,
}
use workforce_platform.Base.Int.{ℤ, pos, ltz, neg}
use workforce_platform.Schema.Values.{
  Json, Items, Fields, Float64, boolean, number, string, array, object, nil, cons, end, field,
  json_number, not_finite, GateField, GateSchema, unconstrained, white_space, unparsable, spec,
}
use workforce_platform.Errors.{Result, ok, err, gate_invalid_response, gate_invalid_schema}
use workforce_platform.Connectors.Payloads.{get_field}

-- maxExactInteger
abbrev pub max_exact_integer : ℕ
max_exact_integer = 9007199254740992

abbrev pub max_gate_array_items : ℕ
max_gate_array_items = 64

abbrev pub Properties : Type 0
Properties = List (String × GateField)

unfoldable pub property : String → Properties → Option GateField
property k [] = none
property k ((j, f) ∷ rest) = if str_eq j k then some f else property k rest

-- num.Int64() of a json.Number.
abbrev pub is_exact : Option ℤ → Bool
is_exact none = false
is_exact (some z) = not (ltz (pos max_exact_integer) z) && not (ltz z (neg max_exact_integer))

-- num.Float64() of a json.Number, and neither NaN nor infinite.
abbrev pub is_finite : Option Float64 → Bool
is_finite none = false
is_finite (some not_finite) = false
is_finite (some _) = true

abbrev pub is_string : Json → Bool
is_string (string _) = true
is_string _ = false

abbrev pub is_integer : Json → Bool
is_integer (number (json_number i f)) = is_exact i
is_integer _ = false

abbrev pub is_number : Json → Bool
is_number (number (json_number i f)) = is_finite f
is_number _ = false

abbrev pub is_boolean : Json → Bool
is_boolean (boolean _) = true
is_boolean _ = false

-- scalarAllowed
unfoldable pub scalar_allowed : Json → String → Bool
scalar_allowed v t =
    if str_eq t "string"
    then is_string v
    else if str_eq t "integer"
    then is_integer v
    else if str_eq t "number"
    then is_number v
    else if str_eq t "boolean"
    then is_boolean v
    else false

unfoldable pub items_length : Items → ℕ
items_length nil = 0
items_length (cons v rest) = suc (items_length rest)

unfoldable pub all_allowed : Items → String → Bool
all_allowed nil t = true
all_allowed (cons v rest) t = scalar_allowed v t && all_allowed rest t

abbrev pub array_allowed : Json → Option String → Bool
array_allowed (array xs) (some t) = leb (items_length xs) max_gate_array_items && all_allowed xs t
array_allowed _ _ = false

-- gateValueAllowed
unfoldable pub gate_value_allowed : Json → GateField → Bool
gate_value_allowed v f =
    if str_eq f.type_name "array" then array_allowed v f.items else scalar_allowed v f.type_name

abbrev pub allowed_as : Json → Option GateField → Bool
allowed_as v none = false
allowed_as v (some f) = gate_value_allowed v f

-- The loop over the members of a response.
unfoldable pub members_allowed : Properties → Fields → Bool
members_allowed props end = true
members_allowed props (field k v rest) =
    allowed_as v (property k props) && members_allowed props rest

abbrev pub is_there : Option Json → Bool
is_there none = false
is_there (some _) = true

-- The loop over the required names.
unfoldable pub has_required : List String → Fields → Bool
has_required [] fs = true
has_required (k ∷ ks) fs = is_there (get_field k fs) && has_required ks fs

-- spec.Properties, or spec.Requested if that map is nil; to range over a nil map is to do nothing.
abbrev pub or_empty : Option Properties → Properties
or_empty none = []
or_empty (some ps) = ps

abbrev pub declared : Option Properties → Option Properties → Properties
declared none requested = or_empty requested
declared (some ps) requested = ps

unfoldable pub fits_schema : GateSchema → Fields → Bool
fits_schema unconstrained fs = true
fits_schema white_space fs = false
fits_schema unparsable fs = false
fits_schema (spec props requested required) fs =
    members_allowed (declared props requested) fs && has_required required fs

-- validateGateResponse; `none` is a response that does not decode.
unfoldable pub validate_gate_response : GateSchema → Option Json → Result (Unit {0})
validate_gate_response schema (some (object fs)) =
    if fits_schema schema fs then ok tt else err gate_invalid_response
validate_gate_response schema _ = err gate_invalid_response

-- scalarTypeSupported
unfoldable pub scalar_type_supported : String → Bool
scalar_type_supported t =
    str_eq t "string" || (str_eq t "integer" || (str_eq t "number" || str_eq t "boolean"))

abbrev pub items_supported : Option String → Bool
items_supported none = false
items_supported (some t) = scalar_type_supported t

unfoldable pub field_supported : GateField → Bool
field_supported f =
    scalar_type_supported f.type_name || (str_eq f.type_name "array" && items_supported f.items)

unfoldable pub all_supported : Properties → Bool
all_supported [] = true
all_supported ((k, f) ∷ rest) = field_supported f && all_supported rest

abbrev pub is_declared : Option GateField → Bool
is_declared none = false
is_declared (some _) = true

unfoldable pub all_declared : List String → Properties → Bool
all_declared [] props = true
all_declared (k ∷ ks) props = is_declared (property k props) && all_declared ks props

abbrev pub is_empty : Properties → Bool
is_empty [] = true
is_empty _ = false

abbrev pub is_answerable : Properties → List String → Bool
is_answerable props required =
    not (is_empty props) && (all_supported props && all_declared required props)

-- ValidateGateSchema
unfoldable pub validate_gate_schema : GateSchema → Result (Unit {0})
validate_gate_schema unconstrained = ok tt
validate_gate_schema white_space = ok tt
validate_gate_schema unparsable = err gate_invalid_schema
validate_gate_schema (spec props requested required) =
    if is_answerable (declared props requested) required then ok tt else err gate_invalid_schema
