-- ===== src/Simulator/Resuming.antt =====
-- The simulator asks only what can be answered, and an answer that the platform takes lets it go on.
use Prim.Native.String.{String}
use text.Mathlib.Text.{◌==◌ as str_eq}
use workforce_platform.Base.{
  ap, ◌⊎◌, sym, subst, ℕ, Bool, true, false, Option, none, some, List, ◌++◌, ◌≡◌, refl, arith, ◌∙◌,
  inl, inr, Bool-cases, if◌then◌else◌,
}
use workforce_platform.Schema.{Text}
use workforce_platform.Schema.Values.{
  GateSchema, unconstrained, Json, Fields, object, end, field, Payload,
}
use workforce_platform.Base.Int.{ℤ}
use workforce_platform.Errors.{ok}
use workforce_platform.Strings.{Str, contains, to_lower}
use workforce_platform.Connectors.Payloads.{get_field}
use workforce_platform.Gates.Schemas.{
  validate_gate_schema, all_supported, field_supported, scalar_type_supported, all_declared,
  property, validate_gate_response, fits_schema, has_required, is_there,
}
use workforce_platform.AgentRuns.{Question}
use workforce_platform.AgentRuns.Executing.{
  Input, Request, RecordRef, RunnerResult, Outcome, outcome_of, ask_question, answers_of,
  members_of,
}
use workforce_platform.Simulator.{
  mail_word, document_word, Phrases, Printing, clarification_schema, request_answer, simulate,
  clarify, prepare_for, use_answers, use_email, follow_up, for_target, wants_clarification,
  whole_units, as_float, as_string,
}

-- A result that asks nothing.
abbrev pub IsAnswer : RunnerResult → Type 0
IsAnswer res = (q : Question) → ¬ (outcome_of res ≡ ask_question q)

either-IsAnswer :
    (b : Bool) (x y : RunnerResult) → IsAnswer x → IsAnswer y → IsAnswer (if b then x else y)
either-IsAnswer true x y s k = s
either-IsAnswer false x y s k = k

-- The simulator looks an answer up as the schema's test for required members does.
request_answer-members_of :
    (k : String) (fs : Fields) (rest : List Input)
    → is_there (get_field k fs) ≡ true
    → request_answer k (members_of fs ++ rest) ≡ get_field k fs
unfolding request_answer members_of get_field
request_answer-members_of k end rest h = cc
request_answer-members_of k (field j v fs) rest h = elim (Bool-cases (str_eq j k)) [
  | inl here ↦ rw here refl
  | inr other ↦ rw other (request_answer-members_of k fs rest (ground (arith, h, other)))
]

is_there-some : (o : Option Json) → is_there o ≡ true → (v : Json) × (o ≡ some v)
is_there-some none h = cc
is_there-some (some v) h = (v, refl)

required_there :
    (fs : Fields)
    → validate_gate_response clarification_schema (some (object fs)) ≡ ok tt
    → (is_there (get_field "supplier_email" fs) ≡ true)
      × (is_there (get_field "quantity" fs) ≡ true)
unfolding validate_gate_response fits_schema has_required
required_there fs h = (ground (arith, h), ground (arith, h))

abbrev HasAnswer : String → List Input → Type 0
HasAnswer k is = (v : Json) × (request_answer k is ≡ some v)

has_answer :
    (k : String) (fs : Fields) (rest : List Input)
    → is_there (get_field k fs) ≡ true
    → HasAnswer k (members_of fs ++ rest)
has_answer k fs rest h =
    let (v, e) = is_there-some (get_field k fs) h in (v, request_answer-members_of k fs rest h ∙ e)

answers_there :
    (r : Json) (rest : List Input)
    → validate_gate_response clarification_schema (some r) ≡ ok tt
    → HasAnswer "supplier_email" (answers_of (some r) ++ rest)
      × HasAnswer "quantity" (answers_of (some r) ++ rest)
unfolding validate_gate_response
answers_there (object fs) rest h =
    let (e, q) = required_there fs h in
    (has_answer "supplier_email" fs rest e, has_answer "quantity" fs rest q)
answers_there _ rest h = cc

abbrev given : RunnerResult → Option RunnerResult → RunnerResult
given r none = r
given r (some x) = x

clarification_passes : validate_gate_schema clarification_schema ≡ ok tt
unfolding validate_gate_schema all_supported field_supported scalar_type_supported all_declared
    property
clarification_passes = refl

-- The schema of the question that an outcome asks.
abbrev schema_of : Outcome → GateSchema
schema_of (ask_question q) = q.schema
schema_of _ = unconstrained

module _ (phrases : Phrases) (print : Printing) (is_blank : ℕ → Bool) where
  for_target-IsAnswer :
      (i a : String) (s : Text) (p : Payload) (t : Option RecordRef)
      → IsAnswer (for_target phrases print is_blank i a s p t)
  unfolding outcome_of
  for_target-IsAnswer i a s p none q e = cc
  for_target-IsAnswer i a s p (some t) q e = cc

  follow_up-IsAnswer :
      (req : Request) (email : ℕ) (units : Option ℤ)
      → IsAnswer (follow_up phrases print is_blank req email units)
  unfolding outcome_of
  follow_up-IsAnswer req email none q e = cc
  follow_up-IsAnswer req email (some units) q e = for_target-IsAnswer _ _ _ _ _ q e

  use_email-IsAnswer :
      (req : Request) (quantity : Json) (email : Option ℕ)
      → IsAnswer (use_email phrases print is_blank req quantity email)
  unfolding outcome_of
  use_email-IsAnswer req quantity none q e = cc
  use_email-IsAnswer req quantity (some email) q e =
      either-IsAnswer (is_blank email) _ _ (λ p f. cc)
        (follow_up-IsAnswer req email (whole_units phrases print is_blank (as_float quantity))) q e

  use_answers-asks :
      (req : Request) (a b : Option Json) (q : Question)
      → outcome_of (use_answers phrases print is_blank req a b) ≡ ask_question q
      → q.schema ≡ clarification_schema
  unfolding outcome_of
  use_answers-asks req (some a) (some b) q e = absurd (use_email-IsAnswer req b (as_string a) q e)
  use_answers-asks req none b q e = sym (ap schema_of e)
  use_answers-asks req (some a) none q e = sym (ap schema_of e)

  prepare_for-IsAnswer :
      (req : Request) (intent : Str) → IsAnswer (prepare_for phrases print is_blank req intent)
  unfolding prepare_for
  prepare_for-IsAnswer req intent =
      either-IsAnswer (contains intent mail_word) _ _ (for_target-IsAnswer _ _ _ _ _) (
        either-IsAnswer (contains intent document_word) _ _ (for_target-IsAnswer _ _ _ _ _)
          (for_target-IsAnswer _ _ _ _ _))

  -- What a run of the simulator comes to: the clarification that the intent wants, or no question.
  simulate-cases :
      (over : Bool) (req : Request) (res : RunnerResult)
      → simulate phrases print is_blank over req ≡ some res
      → (clarify phrases print is_blank req ≡ res) ⊎ IsAnswer res
  unfolding simulate
  simulate-cases true req res done = cc
  simulate-cases false req res done =
      elim (Bool-cases (wants_clarification (to_lower req.intent))) [
        | inl asks ↦ inl (ap (given res) (sym (asked asks) ∙ done))
        | inr states ↦ inr (
            subst IsAnswer (ap (given res) (sym (stated states) ∙ done))
              (prepare_for-IsAnswer req (to_lower req.intent)))
      ]
    where
      asked :
          wants_clarification (to_lower req.intent) ≡ true
          → simulate phrases print is_blank false req ≡ some (clarify phrases print is_blank req)
      asked h = rw h refl

      stated :
          wants_clarification (to_lower req.intent) ≡ false
          → simulate phrases print is_blank false req
            ≡ some (prepare_for phrases print is_blank req (to_lower req.intent))
      stated h = rw h refl

  simulate_asks :
      (over : Bool) (req : Request) (res : RunnerResult) (q : Question)
      → simulate phrases print is_blank over req ≡ some res
      → outcome_of res ≡ ask_question q
      → q.schema ≡ clarification_schema
  unfolding clarify
  simulate_asks over req res q done e = elim (simulate-cases over req res done) [
    | inl is_res ↦
        use_answers-asks req (request_answer "supplier_email" req.inputs)
          (request_answer "quantity" req.inputs) q (ap outcome_of is_res ∙ e)
    | inr silent ↦ absurd (silent q e)
  ]

  clarify-IsAnswer :
      (req : Request)
      → HasAnswer "supplier_email" req.inputs
      → HasAnswer "quantity" req.inputs
      → IsAnswer (clarify phrases print is_blank req)
  unfolding clarify
  clarify-IsAnswer req (a, is_a) (b, is_b) =
      rw (is_a, is_b) (use_email-IsAnswer req b (as_string a))

  -- When the simulator asks a question, ValidateGateSchema takes its schema; and once
  -- validateGateResponse has taken an answer to it, the simulator, run again with that answer before any
  -- others, asks nothing.
  pub simulator_resumes :
      (over again : Bool) (req : Request) (res res' : RunnerResult) (q : Question) (r : Json)
      (rest : List Input)
      → simulate phrases print is_blank over req ≡ some res
      → outcome_of res ≡ ask_question q
      → validate_gate_response q.schema (some r) ≡ ok tt
      → simulate phrases print is_blank again (record req { inputs = answers_of (some r) ++ rest })
        ≡ some res'
      → (validate_gate_schema q.schema ≡ ok tt) × IsAnswer res'
  simulator_resumes over again req res res' q r rest ran asks fits again_ran = (
    subst (λ s. validate_gate_schema s ≡ ok tt) (sym schema) clarification_passes,
    elim (simulate-cases again (record req { inputs = answers_of (some r) ++ rest }) res'
        again_ran) [
          | inl is_res ↦ subst IsAnswer is_res (
              clarify-IsAnswer (record req { inputs = answers_of (some r) ++ rest }) there.0
                there.1)
          | inr silent ↦ silent
        ],
  )
    where
      schema : q.schema ≡ clarification_schema
      schema = simulate_asks over req res q ran asks

      there :
          HasAnswer "supplier_email" (answers_of (some r) ++ rest)
          × HasAnswer "quantity" (answers_of (some r) ++ rest)
      there =
          answers_there r rest (subst (λ s. validate_gate_response s (some r) ≡ ok tt) schema fits)
