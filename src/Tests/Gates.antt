-- ===== src/Tests/Gates.antt =====
-- Gates, run and witnessed.
use workforce_platform.Base.{ℕ, arith, none, some, [], ◌∷◌, ◌⊎◌, ◌≡◌, refl}
use workforce_platform.Base.Rows.{find_row, find_where}
use workforce_platform.Schema.{Gate, GateStatus, AgentRun, RunStatus, agent_run_job, Db}
use workforce_platform.Schema.Values.{Json, GateSchema, string, object, end, field, spec}
use workforce_platform.Errors.{Error, err, gate_not_found, ok}
use workforce_platform.Tx.{◌>>=◌, with_org}
use workforce_platform.Connectors.Payloads.{get_field}
use workforce_platform.Gates.Schemas.{
  validate_gate_schema, validate_gate_response, fits_schema, members_allowed, property,
  gate_value_allowed, scalar_allowed, has_required, all_supported, field_supported,
  scalar_type_supported, all_declared,
}
use workforce_platform.Gates.Answers.{schema_answerable}
use workforce_platform.Gates.{read_gate, answer_row, find_gate, resolve_gate_tx}
use workforce_platform.Gates.Resolving.{AnswersFit, resolve_gate-AnswersFit, answered_once}
use workforce_platform.Gates.Answering.{CanAnswer, IsAnswered, IsResumed}
use workforce_platform.Gates.Resuming.{resolve_gate_resumes}
use workforce_platform.AgentRuns.{claim}
use workforce_platform.AgentRuns.Executing.{Input, answers_of, inputs_of}
use workforce_platform.Base.Any.{Any}
use workforce_platform.Tests.Samples.{office}

-- One question: a colour, as a text.
abbrev colour : GateSchema
colour =
    spec (some (("colour", record { type_name = "string"; items = none }) ∷ [])) none
      ("colour" ∷ [])

abbrev red : Json
red = object (field "colour" (string 9) end)

passes : validate_gate_schema colour ≡ ok tt
unfolding validate_gate_schema all_supported field_supported scalar_type_supported all_declared
    property
passes = refl

fits : validate_gate_response colour (some red) ≡ ok tt
unfolding validate_gate_response fits_schema members_allowed property gate_value_allowed
    scalar_allowed has_required get_field
fits = refl

schema_answerable_example : (r : Json) × (validate_gate_response colour (some r) ≡ ok tt)
schema_answerable_example = schema_answerable colour (λ e. cc) passes

-- A question to Bo that parks run 40.
abbrev question : Gate
question = record {
  id = 45;
  task_id = 10;
  run_id = 40;
  kind = 1;
  prompt = 2;
  input_schema = colour;
  revision = 1;
  status = GateStatus.pending;
  respondent_id = 2;
  response = none;
  responded_by = 0;
  responded_at = none;
  created_by = 1;
  version = 1;
}

abbrev parked : AgentRun
parked = record {
  id = 40;
  task_id = 10;
  agent_id = 6;
  harness = [];
  runner_id = [];
  intent = [];
  status = RunStatus.waiting;
  proposal_id = 0;
  gate_id = 45;
  claim_token = 0;
  claim_expires_at = none;
  attempt = 1;
  failure_reason = none;
  result_summary = 0;
  release_id = 8;
  created_by = 1;
  finished_at = none;
}

abbrev asking : Db
asking = record office { decision_gates = question ∷ []; agent_runs = parked ∷ [] }

resolve_gate-AnswersFit_example :
    AnswersFit (with_org (resolve_gate_tx 7 45 2 1 (some red)) asking).1
unfolding find_where
resolve_gate-AnswersFit_example =
    resolve_gate-AnswersFit 7 2 1 (some red) 45 asking (refl, tt) (refl, tt)

resolve_gate_resumes_example :
    (CanAnswer 2 1 (some red) question asking
      × (e : Db) × (resolve_gate_tx 7 45 2 1 (some red) asking ≡ ok (tt, e))
      × (s : Gate) × (find_gate 45 e ≡ some s)
      × IsAnswered 7 2 (some red) question s
      × (x : AgentRun) × (find_row (λ r. r.id) 40 e.agent_runs ≡ some x)
      × IsResumed parked x
      × (e.jobs ≡ agent_run_job 40 ∷ [])
      × ((i : Input) → Any (λ j. j ≡ i) (answers_of (some red)) → Any (λ j. j ≡ i) (inputs_of 40 e))
      × ((later until token : ℕ)
          → (y : AgentRun) × (f : Db) × (claim later until token 40 e ≡ ok (y, f))))
    ⊎ ((¬ CanAnswer 2 1 (some red) question asking)
        × (f : Error) × (resolve_gate_tx 7 45 2 1 (some red) asking ≡ err f))
unfolding find_where
resolve_gate_resumes_example =
    resolve_gate_resumes 7 2 1 (some red) 45 question parked asking refl (refl, tt) refl
      (λ e. ground (arith, e)) refl refl refl

abbrev answered : Gate
answered = answer_row 7 2 (some red) question

abbrev answered_db : Db
answered_db = record asking { decision_gates = answered ∷ [] }

answered_once_example :
    (with_org (resolve_gate_tx 8 45 2 1 (some (object end))) answered_db).1 ≡ answered_db
unfolding find_where
answered_once_example = answered_once 8 2 1 (some (object end)) 45 answered answered_db refl refl

-- Cy approves, and neither owns the task nor answers the question.
hidden_from_cy : read_gate 45 3 asking ≡ err gate_not_found
unfolding read_gate find_where ◌>>=◌
hidden_from_cy = refl

shown_to_ada : read_gate 45 1 asking ≡ ok (question, asking)
unfolding read_gate find_where ◌>>=◌
shown_to_ada = refl
