-- ===== src/Gates/Answers.antt =====
-- A question that ValidateGateSchema lets through has an answer that validateGateResponse accepts.
use Prim.Native.String.{String}
use text.Mathlib.Text.{◌==◌ as str_eq}
use text.Mathlib.TextEquality.{eq_iff}
use text.Mathlib.TextPositions.{eq_refl}
use workforce_platform.Base.{
  Bool, true, not, Option, none, some, List, [], ◌∷◌, ◌≡◌, ◌≢◌, refl, sym, subst, inl, inr, arith,
  Bool-cases, Option-cases, if◌then◌else◌,
}
use workforce_platform.Base.Int.{pos}
use workforce_platform.Schema.Values.{
  Json, Fields, null, boolean, number, string, array, object, nil, end, field, json_number, whole,
  GateField, GateSchema, unconstrained, white_space, unparsable, spec,
}
use workforce_platform.Errors.{ok}
use workforce_platform.Connectors.Payloads.{get_field}
use workforce_platform.Gates.Schemas.{
  Properties, property, scalar_allowed, items_length, all_allowed, gate_value_allowed,
  members_allowed, has_required, fits_schema, declared, validate_gate_response,
  validate_gate_schema, scalar_type_supported, field_supported, all_supported, all_declared,
  is_there, is_declared, allowed_as,
}

-- A value of each type.
sample_scalar : String → Json
sample_scalar t =
    if str_eq t "string"
    then string 0
    else if str_eq t "boolean"
    then boolean true
    else number (json_number (some (pos 0)) (some (whole (pos 0))))

sample : GateField → Json
sample f = if str_eq f.type_name "array" then array nil else sample_scalar f.type_name

sample_of : Option GateField → Json
sample_of none = null
sample_of (some f) = sample f

-- A text that equals a given one may be replaced by it.
at_text : (P : String → Bool) (t u : String) → str_eq t u ≡ true → P u ≡ true → P t ≡ true
at_text P t u same h = subst (λ t. P t ≡ true) (sym ((eq_iff t u).0 same)) h

sample_fits : String → Bool
sample_fits t = scalar_allowed (sample_scalar t) t

sample_scalar_allowed : (t : String) → scalar_type_supported t ≡ true → sample_fits t ≡ true
unfolding sample_fits sample_scalar scalar_allowed scalar_type_supported
sample_scalar_allowed t s = elim (Bool-cases (str_eq t "string")) [
  | inl e ↦ at_text sample_fits t "string" e refl
  | inr not_string ↦ elim (Bool-cases (str_eq t "integer")) [
    | inl e ↦ at_text sample_fits t "integer" e refl
    | inr not_integer ↦ elim (Bool-cases (str_eq t "number")) [
      | inl e ↦ at_text sample_fits t "number" e refl
      | inr not_number ↦
          at_text sample_fits t "boolean" (ground (arith, s, not_string, not_integer, not_number))
            refl
    ]
  ]
]

array_is_no_scalar : (t : String) → str_eq t "array" ≡ true → not (scalar_type_supported t) ≡ true
unfolding scalar_type_supported
array_is_no_scalar t e = at_text (λ t. not (scalar_type_supported t)) t "array" e refl

sample_allowed : (f : GateField) → field_supported f ≡ true → gate_value_allowed (sample f) f ≡ true
unfolding sample gate_value_allowed field_supported items_length all_allowed sample_fits
sample_allowed f s = elim (Bool-cases (str_eq f.type_name "array")) [
  | inl e ↦ rw e (ground (arith, array_is_no_scalar f.type_name e, s, e))
  | inr e ↦ rw e (sample_scalar_allowed f.type_name (ground (arith, s, e)))
]

property_supported :
    (k : String) (props : Properties) (f : GateField)
    → all_supported props ≡ true
    → property k props ≡ some f
    → field_supported f ≡ true
unfolding property all_supported
property_supported k [] f s e = ground arith
property_supported k ((j, g) ∷ rest) f s e = ground (arith, property_supported k rest f)

-- An answer with a member for every property.
answer_from : Properties → Properties → Fields
answer_from props [] = end
answer_from props ((k, f) ∷ rest) = field k (sample_of (property k props)) (answer_from props rest)

module _ (props : Properties) (supported : all_supported props ≡ true) where
  sample_of_allowed :
      (k : String)
      → is_declared (property k props) ≡ true
      → allowed_as (sample_of (property k props)) (property k props) ≡ true
  unfolding sample_of
  sample_of_allowed k d = elim (Option-cases (property k props)) [
    | inl missing ↦ ground (arith, missing, d)
    | inr (f, found) ↦ rw found (sample_allowed f (property_supported k props f supported found))
  ]

  answer_from-allowed :
      (rest : Properties)
      → ((k : String)
          → is_declared (property k rest) ≡ true
          → is_declared (property k props) ≡ true)
      → members_allowed props (answer_from props rest) ≡ true
  unfolding answer_from members_allowed property
  answer_from-allowed [] within = refl
  answer_from-allowed ((k, f) ∷ rest) within = ground (
    arith,
    sample_of_allowed k (within k (rw (eq_refl k) refl)),
    answer_from-allowed rest (λ j d. within j (ground (arith, d))),
  )

  answer_from-there :
      (k : String) (rest : Properties)
      → is_declared (property k rest) ≡ true
      → is_there (get_field k (answer_from props rest)) ≡ true
  unfolding answer_from property get_field
  answer_from-there k [] d = ground arith
  answer_from-there k ((j, f) ∷ rest) d = ground (arith, answer_from-there k rest, d)

  answer-has_required :
      (required : List String)
      → all_declared required props ≡ true
      → has_required required (answer_from props props) ≡ true
  unfolding all_declared has_required
  answer-has_required [] d = refl
  answer-has_required (k ∷ ks) d =
      ground (arith, answer_from-there k props, answer-has_required ks, d)

-- The answer to a schema.
answer_to : GateSchema → Json
answer_to (spec props requested required) =
    object (answer_from (declared props requested) (declared props requested))
answer_to _ = object end

-- A question that ValidateGateSchema lets through, with a schema that is not mere white space, has an
-- answer that validateGateResponse accepts.
pub schema_answerable :
    (schema : GateSchema)
    → schema ≢ white_space
    → validate_gate_schema schema ≡ ok tt
    → (r : Json) × (validate_gate_response schema (some r) ≡ ok tt)
unfolding validate_gate_schema validate_gate_response fits_schema answer_to
schema_answerable unconstrained shown e = (answer_to unconstrained, refl)
schema_answerable white_space shown e = absurd (shown refl)
schema_answerable unparsable shown e = ground arith
schema_answerable (spec props requested required) shown e = (
  answer_to (spec props requested required),
  rw
      (
        answer_from-allowed all all_fit all (λ k d. d),
        answer-has_required all all_fit required all_there,
      )
      refl,
)
  where
    all : Properties
    all = declared props requested

    all_fit : all_supported all ≡ true
    all_fit = ground arith

    all_there : all_declared required all ≡ true
    all_there = ground arith

-- A schema that is nothing but white space passes ValidateGateSchema, and validateGateResponse then
-- refuses every answer.
white_space_never_answered :
    (response : Option Json)
    → (validate_gate_schema white_space ≡ ok tt)
      × (validate_gate_response white_space response ≢ ok tt)
unfolding validate_gate_schema validate_gate_response fits_schema
white_space_never_answered none = (refl, λ e. cc)
white_space_never_answered (some (object fs)) = (refl, λ e. cc)
white_space_never_answered (some r) = (refl, λ e. ground arith)
