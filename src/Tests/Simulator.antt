-- ===== src/Tests/Simulator.antt =====
-- The simulator, run and witnessed.
use workforce_platform.Base.{ℕ, Bool, false, none, some, [], ◌∷◌, ◌++◌, ◌+◌, ◌==◌, ◌≡◌, refl}
use workforce_platform.Base.Int.{pos}
use workforce_platform.Schema.Values.{Json, object, field, end, string, number, json_number, whole}
use workforce_platform.Errors.{ok}
use workforce_platform.Strings.{has_prefix, contains, to_lower}
use workforce_platform.Gates.Schemas.{
  validate_gate_schema, validate_gate_response, fits_schema, members_allowed, property,
  has_required, gate_value_allowed, scalar_allowed,
}
use workforce_platform.Connectors.Payloads.{get_field}
use workforce_platform.Base.Rows.{find_where}
use workforce_platform.AgentRuns.{Question}
use workforce_platform.AgentRuns.Executing.{
  Request, RecordRef, RunnerResult, outcome_of, answers_of, members_of,
}
use workforce_platform.Simulator.{
  Phrases, Printing, simulate, clarify, wants_clarification, request_answer, draft_op, mail_payload,
  question, drafted_by, clarification_schema, ask_word,
}
use workforce_platform.Simulator.Resuming.{IsAnswer, simulator_resumes}

abbrev phrases : Phrases
phrases = record {
  prepared_by_run = λ id. 1000 + id;
  stock_subject = λ id. 2000 + id;
  stock_body = λ z. 3000;
  summary_of = λ s. 5;
  follow_up_for = λ email. 4000 + email;
  recipient = 6;
  missing_information = 7;
  which_supplier = 8;
  no_suitable_record = 9;
  invalid_input = 10;
}

abbrev print : Printing
print = record {
  name = λ s. b'n' ∷ [];
  ident = λ id. id ∷ [];
  decimal = λ n. n ∷ [];
  digest = λ p. b'd' ∷ [];
  beyond = λ z. none;
}

-- An empty text is blank.
abbrev is_blank : ℕ → Bool
is_blank s = s == 0

abbrev inbox : RecordRef
inbox = record { id = 31; integration = "mail"; version = 4; fields = end }

-- The intent "ask".
abbrev asking : Request
asking = record {
  task_id = 10;
  run_id = 40;
  agent_id = 20;
  harness = [];
  intent = ask_word;
  records = inbox ∷ [];
  inputs = [];
}

-- Six units from the supplier whose address is the text 50.
abbrev given_answer : Json
given_answer = object (
    field "supplier_email" (string 50)
      (field "quantity" (number (json_number (some (pos 6)) (some (whole (pos 6))))) end))

abbrev answered : Request
answered = record asking { inputs = answers_of (some given_answer) ++ [] }

abbrev follow_up_draft : RunnerResult
follow_up_draft =
    drafted_by 4050
      (draft_op phrases print is_blank "mail" "send" inbox (mail_payload 50 2040 3000))

asks : simulate phrases print is_blank false asking ≡ some (question phrases print is_blank)
unfolding simulate wants_clarification clarify request_answer contains has_prefix to_lower
asks = refl

goes_on : simulate phrases print is_blank false answered ≡ some follow_up_draft
unfolding simulate wants_clarification clarify request_answer contains has_prefix to_lower
    members_of find_where
goes_on = refl

abbrev the_question : Question
the_question = record { respondent_id = 0; kind = 7; prompt = 8; schema = clarification_schema }

taken : validate_gate_response clarification_schema (some given_answer) ≡ ok tt
unfolding validate_gate_response fits_schema members_allowed property has_required
    gate_value_allowed scalar_allowed get_field
taken = refl

simulator_resumes_example :
    (validate_gate_schema clarification_schema ≡ ok tt) × IsAnswer follow_up_draft
unfolding outcome_of
simulator_resumes_example =
    simulator_resumes phrases print is_blank false false asking (question phrases print is_blank)
      follow_up_draft the_question given_answer [] asks refl taken goes_on
