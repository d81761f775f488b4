-- ===== src/Simulator.antt =====
-- internal/runner/simulator.go: the runner that every process has. The texts that it writes and its
-- digest of a payload are parameters.
pub mod Resuming
use Prim.Native.String.{String}
use text.Mathlib.Text.{◌==◌ as str_eq}
use workforce_platform.Base.{
  ℕ, Bool, true, false, not, ◌&&◌, ◌||◌, Option, none, some, List, [], ◌∷◌, ◌++◌, if◌then◌else◌,
}
use workforce_platform.Base.Int.{ℤ, pos, neg, ltz}
use workforce_platform.Base.Rows.{find_where}
use workforce_platform.Strings.{Str, contains, to_lower}
use workforce_platform.Schema.{Ident, Text, Operation}
use workforce_platform.Schema.Values.{
  Json, Items, Payload, GateSchema, Float64, null, number, string, array, nil, cons, members,
  json_number, int64, float64, whole, spec,
}
use workforce_platform.Errors.{RunFailure, reported}
use workforce_platform.AgentRuns.{Question}
use workforce_platform.AgentRuns.Executing.{
  RecordRef, Input, Request, Draft, RunnerStatus, RunnerResult,
}

-- The texts of a run's preparation, of a request for so many units, of the summaries, and of the
-- question; the codes of the failures.
pub record Phrases : Type 0 where
  pub prepared_by_run : Ident → ℕ
  pub stock_subject : Ident → ℕ
  pub stock_body : ℤ → ℕ
  pub summary_of : String → Text
  pub follow_up_for : ℕ → Text
  pub recipient : ℕ
  pub missing_information : Text
  pub which_supplier : Text
  pub no_suitable_record : ℕ
  pub invalid_input : ℕ

-- The printing of names, identifiers and numbers, and the first 16 characters of SHA-256 in base 16; and
-- what the platform makes of a whole float64 beyond the range of int64: the int64, and whether that is
-- the same number as a float64 again, `none` if it is not.
pub record Printing : Type 0 where
  pub name : String → Str
  pub ident : Ident → Str
  pub decimal : ℕ → Str
  pub digest : Payload → Str
  pub beyond : ℤ → Option ℤ

abbrev pub clarification_schema : GateSchema
clarification_schema =
    spec
      (some (
        ("supplier_email", record { type_name = "string"; items = none })
        ∷ ("quantity", record { type_name = "integer"; items = none })
        ∷ []))
      none ("supplier_email" ∷ "quantity" ∷ [])

abbrev pub clarify_word : Str
clarify_word = b'c' ∷ b'l' ∷ b'a' ∷ b'r' ∷ b'i' ∷ b'f' ∷ b'y' ∷ []

abbrev pub ask_word : Str
ask_word = b'a' ∷ b's' ∷ b'k' ∷ []

abbrev pub missing_word : Str
missing_word = b'm' ∷ b'i' ∷ b's' ∷ b's' ∷ b'i' ∷ b'n' ∷ b'g' ∷ []

abbrev pub document_word : Str
document_word = b'd' ∷ b'o' ∷ b'c' ∷ b'u' ∷ b'm' ∷ b'e' ∷ b'n' ∷ b't' ∷ []

abbrev pub mail_word : Str
mail_word = b'm' ∷ b'a' ∷ b'i' ∷ b'l' ∷ []

unfoldable pub wants_clarification : Str → Bool
wants_clarification intent =
    contains intent clarify_word || (contains intent ask_word || contains intent missing_word)

-- Request.Answer; the text of a JSON value is never empty.
unfoldable pub request_answer : String → List Input → Option Json
request_answer name [] = none
request_answer name (i ∷ is) = if str_eq i.name name then some i.value else request_answer name is

abbrev pub first_record : List RecordRef → String → Option RecordRef
first_record rs integration = find_where (λ r. str_eq r.integration integration) rs

abbrev pub failed : ℕ → RunnerResult
failed code = record {
  status = RunnerStatus.other;
  failure_reason = some (reported code);
  draft = none;
  gate = none;
}

abbrev pub drafted_by : Text → Operation → RunnerResult
drafted_by summary op = record {
  status = RunnerStatus.succeeded;
  failure_reason = none;
  draft = some (record { summary = summary; operations = op ∷ [] });
  gate = none;
}

-- json.Unmarshal into a string, which null leaves empty.
abbrev pub as_string : Json → Option ℕ
as_string (string s) = some s
as_string null = some 0
as_string _ = none

-- json.Unmarshal into a float64, which null leaves 0; an int64 does not come out of a JSON text.
abbrev pub as_float : Json → Option Float64
as_float (number (json_number i f)) = f
as_float (number (float64 f)) = some f
as_float (number (int64 z)) = some (whole z)
as_float null = some (whole (pos 0))
as_float _ = none

-- json.Marshal of the map, with its keys in order.
abbrev pub mail_payload : ℕ → ℕ → ℕ → Payload
mail_payload to subject body =
    members
      (("attachments", some (array nil))
        ∷ ("bcc", some (array nil))
        ∷ ("body", some (string body))
        ∷ ("recipients", some (array (cons (string to) nil)))
        ∷ ("subject", some (string subject))
        ∷ [])
      true

module _ (phrases : Phrases) (print : Printing) (is_blank : ℕ → Bool) where
  -- qty == float64(int64(qty)), with the int64.
  abbrev pub whole_units : Option Float64 → Option ℤ
  whole_units (some (whole z)) =
      if ltz z (neg 9223372036854775808) || ltz (pos 9223372036854775807) z
      then print.beyond z
      else some z
  whole_units _ = none

  unfoldable pub business_fact_key : String → String → Ident → ℕ → Payload → Str
  business_fact_key integration action target version payload =
      print.name integration
      ++ b':' ∷ print.name action
      ++ b':' ∷ print.ident target
      ++ b':' ∷ print.decimal version
      ++ b':' ∷ print.digest payload

  unfoldable pub draft_op : String → String → RecordRef → Payload → Operation
  draft_op integration action target payload = record {
    id = 0;
    integration = integration;
    action = action;
    business_key = business_fact_key integration action target.id target.version payload;
    target_id = target.id;
    expected_version = target.version;
    payload = payload;
  }

  -- The draft for a record, or the failure for want of one.
  abbrev pub for_target : String → String → Text → Payload → Option RecordRef → RunnerResult
  for_target integration action summary payload none = failed phrases.no_suitable_record
  for_target integration action summary payload (some target) =
      drafted_by summary (draft_op integration action target payload)

  abbrev pub question : RunnerResult
  question = record {
    status = RunnerStatus.waiting;
    failure_reason = none;
    draft = none;
    gate = some (record {
      respondent_id = 0;
      kind = phrases.missing_information;
      prompt = phrases.which_supplier;
      schema = clarification_schema;
    });
  }

  abbrev pub follow_up : Request → ℕ → Option ℤ → RunnerResult
  follow_up req email none = failed phrases.invalid_input
  follow_up req email (some units) =
      for_target "mail" "send" (phrases.follow_up_for email)
        (mail_payload email (phrases.stock_subject req.run_id) (phrases.stock_body units))
        (first_record req.records "mail")

  abbrev pub use_email : Request → Json → Option ℕ → RunnerResult
  use_email req quantity none = failed phrases.invalid_input
  use_email req quantity (some email) =
      if is_blank email
      then failed phrases.invalid_input
      else follow_up req email (whole_units (as_float quantity))

  abbrev pub use_answers : Request → Option Json → Option Json → RunnerResult
  use_answers req (some email) (some quantity) = use_email req quantity (as_string email)
  use_answers req _ _ = question

  unfoldable pub clarify : Request → RunnerResult
  clarify req =
      use_answers req (request_answer "supplier_email" req.inputs)
        (request_answer "quantity" req.inputs)

  -- What an intent asks for: mail, which is looked for last, then a document, or else a count of stock.
  unfoldable pub prepare_for : Request → Str → RunnerResult
  prepare_for req intent =
      if contains intent mail_word
      then for_target "mail" "send" (phrases.summary_of "mail")
          (mail_payload phrases.recipient (phrases.prepared_by_run req.run_id)
            (phrases.prepared_by_run req.run_id))
          (first_record req.records "mail")
      else if contains intent document_word
      then for_target "documents" "update" (phrases.summary_of "documents")
          (members (("title", some (string (phrases.prepared_by_run req.run_id))) ∷ []) true)
          (first_record req.records "documents")
      else for_target "inventory" "adjust" (phrases.summary_of "inventory")
          (members
            (("delta", some (number (json_number (some (pos 1)) (some (whole (pos 1)))))) ∷ [])
            true)
          (first_record req.records "inventory")

  -- simulatorRunner.Run; `none` is the error of a context that is over.
  unfoldable pub simulate : Bool → Request → Option RunnerResult
  simulate over req =
      let intent = to_lower req.intent in
      if over
      then none
      else if wants_clarification intent
      then some (clarify req)
      else some (prepare_for req intent)
