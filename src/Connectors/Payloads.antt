-- ===== src/Connectors/Payloads.antt =====
-- The payloads and data of internal/connectors/connectors.go: maps, `parse`, `integer`, and what
-- json.Unmarshal makes of the members.
use Prim.Native.String.{String}
use text.Mathlib.Text.{◌==◌ as str_eq}
use workforce_platform.Base.{
  ℕ, Bool, true, false, not, ◌||◌, Option, none, some, List, [], ◌∷◌, if◌then◌else◌,
}
use workforce_platform.Base.Int.{ℤ, pos, ltz, neg}
use workforce_platform.Schema.Values.{
  Json, Items, Fields, Float64, Payload, null, number, string, array, nil, cons, end, field, int64,
  float64, json_number, whole, fractional, not_finite, blank, no_object, members,
}
use workforce_platform.Errors.{Result, ok, err, err_invalid}

-- d[key]; a missing key reads as nil.
unfoldable pub get_field : String → Fields → Option Json
get_field k end = none
get_field k (field j v rest) = if str_eq j k then some v else get_field k rest

-- d[key] = value
unfoldable pub set_field : String → Json → Fields → Fields
set_field k v end = field k v end
set_field k v (field j w rest) =
    if str_eq j k then field j v rest else field j w (set_field k v rest)

unfoldable pub listed : String → List String → Bool
listed k [] = false
listed k (j ∷ js) = str_eq j k || listed k js

-- The loop of `parse` over the members of the object: a repeated or unknown name is refused.
unfoldable pub parse_members :
    List String → List String → Bool → List (String × Option Json) → Result Fields
parse_members allowed seen closed [] = if closed then ok end else err err_invalid
parse_members allowed seen closed ((k, none) ∷ rest) = err err_invalid
parse_members allowed seen closed ((k, some v) ∷ rest) =
    let more = parse_members allowed (k ∷ seen) closed rest in
    if listed k seen || not (listed k allowed)
    then err err_invalid
    else elim more [ ok fs ↦ ok (field k v fs) | err e ↦ err e ]

unfoldable pub parse : Payload → List String → Result Fields
parse blank allowed = err err_invalid
parse no_object allowed = err err_invalid
parse (members ms closed) allowed = parse_members allowed [] closed ms

-- 2^53 - 1
abbrev pub max_safe : ℕ
max_safe = 9007199254740991

unfoldable pub float_integer : Float64 → Option ℤ
float_integer (whole z) = if ltz (pos max_safe) z || ltz z (neg max_safe) then none else some z
float_integer (fractional n) = none
float_integer not_finite = none

-- integer(v any)
unfoldable pub integer : Option Json → Option ℤ
integer (some (number (int64 z))) = some z
integer (some (number (float64 f))) = float_integer f
integer (some (number (json_number i f))) = i
integer _ = none

-- json.Unmarshal into a string: an absent or null member leaves it empty.
unfoldable pub as_string : Option Json → Result ℕ
as_string none = ok 0
as_string (some null) = ok 0
as_string (some (string t)) = ok t
as_string _ = err err_invalid

-- json.Unmarshal into a []string: null elements are empty strings.
unfoldable pub strings : Items → Option Items
strings nil = some nil
strings (cons null rest) = elim (strings rest) [ some r ↦ some (cons (string 0) r) | none ↦ none ]
strings (cons (string t) rest) = elim (strings rest) [
  | some r ↦ some (cons (string t) r)
  | none ↦ none
]
strings (cons _ rest) = none

unfoldable pub as_strings : Option Json → Result Items
as_strings none = ok nil
as_strings (some null) = ok nil
as_strings (some (array xs)) = elim (strings xs) [ some r ↦ ok r | none ↦ err err_invalid ]
as_strings _ = err err_invalid

abbrev pub is_nil : Items → Bool
is_nil nil = true
is_nil _ = false

-- json.Unmarshal into a *string: an absent or null member leaves it nil.
unfoldable pub as_pointer : Option Json → Result (Option ℕ)
as_pointer none = ok none
as_pointer (some null) = ok none
as_pointer (some (string t)) = ok (some t)
as_pointer _ = err err_invalid
