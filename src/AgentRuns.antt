-- ===== src/AgentRuns.antt =====
-- internal/store/agent_runs.go: a run is claimed under a lease, with a token that every later write of
-- the attempt must still hold. ExecuteAgentRun is a sequence of transactions; the runner's call stands
-- between the claim and the one that records its outcome.
pub mod Fencing
pub mod Admission
pub mod Admitted
pub mod Executing
pub mod Stranding
use workforce_platform.Base.{
  ℕ, suc, ◌+◌, Bool, true, false, not, ◌&&◌, ◌||◌, Option, none, some, List, [], ◌∷◌, ◌++◌, ◌==◌,
  ltb, if◌then◌else◌,
}
use workforce_platform.Base.Rows.{find_row, find_where, exists_where, update_where, set_row}
use workforce_platform.Schema.{
  Ident, Text, Time, Task, Principal, Operation, Origin, Proposal, Gate, GateStatus, AgentRun,
  RunStatus, Db,
}
use workforce_platform.Schema.Values.{GateSchema, white_space, unparsable}
use workforce_platform.Errors.{
  invalid_json_text, Error, Result, ok, err, not_found, err_stale, err_invalid, err_unknown,
  RunFailure, internal_error, task_no_longer_active, actor_revoked, invalid_gate_schema,
  stale_operation, refused_operation, foreign_operation, publish_error, run_held_by_live_lease,
}
use workforce_platform.Tx.{Tx, ◌>>=◌, ◌>>◌, pure, fail, gets, query_row, exec, refuse_if, with_org}
use workforce_platform.Tasks.{find_task, is_terminal, is_pending_gate}
use workforce_platform.Proposals.{Digests, Contains, NewIds, create_proposal_tx}
use workforce_platform.Gates.Schemas.{validate_gate_schema}
use workforce_platform.Registry.{is_active_state}
use workforce_platform.Gates.{may_answer, find_principal}

abbrev pub is_running : RunStatus → Bool
is_running RunStatus.running = true
is_running _ = false

-- Seconds: the time that the runner may take and a minute, and never less than two minutes.
abbrev pub lease_seconds : ℕ → ℕ
lease_seconds budget = if ltb (budget + 60) 120 then 120 else budget + 60

abbrev pub lease_over : Time → Option Time → Bool
lease_over now none = true
lease_over now (some t) = ltb t now

abbrev pub is_claimable : Time → AgentRun → Bool
is_claimable now r = elim r.status [
  | RunStatus.queued ↦ true
  | RunStatus.running ↦ lease_over now r.claim_expires_at
  | _ ↦ false
]

abbrev pub claim_row : Time → Ident → AgentRun → AgentRun
claim_row until token r = record r {
  status = RunStatus.running;
  attempt = r.attempt + 1;
  claim_token = token;
  claim_expires_at = some until;
}

abbrev pub claimed : Time → Time → Ident → Ident → Db → Db
claimed now until token id d = record d {
  agent_runs =
      update_where (λ r. r.id == id && is_claimable now r) (claim_row until token) d.agent_runs;
}

-- The first transaction of ExecuteAgentRun: no row is an error.
unfoldable pub claim : Time → Time → Ident → Ident → Tx AgentRun
claim now until token id = do
  r ← query_row (λ d. find_where (λ r. r.id == id && is_claimable now r) d.agent_runs)
  exec (claimed now until token id)
  pure (claim_row until token r)

-- What a delivery answers that could claim nothing: a run under a live lease is tried again later.
unfoldable pub not_claimed : Ident → Tx (Unit {0})
not_claimed id = do
  r ← query_row (λ d. find_row (λ r. r.id) id d.agent_runs)
  refuse_if (is_running r.status) run_held_by_live_lease

abbrev pub is_held : Ident → Ident → AgentRun → Bool
is_held id token r = r.id == id && r.claim_token == token

abbrev pub fail_row : Time → RunFailure → AgentRun → AgentRun
fail_row now code r = record r {
  status = RunStatus.failed;
  failure_reason = some code;
  finished_at = some now;
  claim_token = 0;
  claim_expires_at = none;
}

-- updateFailureTx
unfoldable pub update_failure : Time → RunFailure → Ident → Ident → Tx (Unit {0})
update_failure now code id token = exec (λ d. record d {
  agent_runs = update_where (is_held id token) (fail_row now code) d.agent_runs;
})

abbrev pub or_internal : Option RunFailure → RunFailure
or_internal none = internal_error
or_internal (some code) = code

-- failRun
unfoldable pub fail_run : Time → Option RunFailure → Ident → Ident → Tx (Unit {0})
fail_run now code id token = update_failure now (or_internal code) id token

-- What a transaction does with the run only if the token still holds it and it is running.
abbrev pub holds : Option AgentRun → Bool
holds none = false
holds (some r) = is_running r.status

unfoldable pub if_held : Ident → Ident → Tx (Unit {0}) → Tx (Unit {0})
if_held id token rest d =
    if holds (find_where (is_held id token) d.agent_runs) then rest d else pure tt d

-- runner.Result's question; 0 for a respondent that it does not name.
pub record Question : Type 0 where
  pub respondent_id : Ident
  pub kind : Text
  pub prompt : Text
  pub schema : GateSchema

abbrev pub asked : Ident → Ident → Ident → Ident → Ident → Question → Gate
asked gate task run owner initiator q = record {
  id = gate;
  task_id = task;
  run_id = run;
  kind = q.kind;
  prompt = q.prompt;
  input_schema = q.schema;
  revision = 1;
  status = GateStatus.pending;
  respondent_id = if q.respondent_id == 0 then owner else q.respondent_id;
  response = none;
  responded_by = 0;
  responded_at = none;
  created_by = initiator;
  version = 1;
}

abbrev pub park_row : Ident → AgentRun → AgentRun
park_row gate r = record r {
  status = RunStatus.waiting;
  gate_id = gate;
  claim_token = 0;
  claim_expires_at = none;
}

abbrev pub wait_at : Ident → Ident → Db → Db
wait_at id gate d = record d { agent_runs = set_row (λ r. r.id) id (park_row gate) d.agent_runs }

abbrev pub is_question_of : Ident → Gate → Bool
is_question_of run g = g.run_id == run && is_pending_gate g.status

-- The column input_schema is jsonb: the database refuses a text of white space before it inserts a row.
abbrev pub is_no_json : GateSchema → Bool
is_no_json white_space = true
is_no_json unparsable = true
is_no_json _ = false

-- insert ... on conflict do nothing: a run has one pending question, which the attempt then adopts.
unfoldable pub ask : Ident → Gate → Tx (Unit {0})
ask id g d =
    if is_no_json g.input_schema
    then fail invalid_json_text d
    else if exists_where (λ x. x.id == g.id || is_question_of id x) d.decision_gates
    then elim (find_where (is_question_of id) d.decision_gates) [
      | none ↦ fail not_found d
      | some x ↦ pure tt (wait_at id x.id d)
    ]
    else pure tt (wait_at id g.id (record d { decision_gates = d.decision_gates ++ g ∷ [] }))

abbrev pub schema_refused : GateSchema → Bool
schema_refused s = elim (validate_gate_schema s) [ ok _ ↦ false | err _ ↦ true ]

-- The transaction for a run that waits.
unfoldable pub park : Ident → Ident → Ident → Ident → Ident → Ident → Question → Tx (Unit {0})
park id token gate task owner initiator q = if_held id token (
    refuse_if (schema_refused q.schema) (publish_error invalid_gate_schema)
    >> ask id (asked gate task id owner initiator q))

abbrev pub public_failure : Error → RunFailure
public_failure err_stale = stale_operation
public_failure err_invalid = refused_operation
public_failure err_unknown = foreign_operation
public_failure _ = internal_error

-- A draft that createProposalTx refuses ends the transaction.
abbrev pub published : Result (Proposal × Db) → Result (Proposal × Db)
published (ok x) = ok x
published (err e) = err (publish_error (public_failure e))

abbrev pub succeed_row : Time → Ident → Text → AgentRun → AgentRun
succeed_row now proposal summary r = record r {
  status = RunStatus.succeeded;
  proposal_id = proposal;
  result_summary = summary;
  finished_at = some now;
  claim_token = 0;
  claim_expires_at = none;
}

abbrev pub is_active_release : Ident → Db → Bool
is_active_release id d =
    exists_where (λ x. x.id == id && is_active_state x.state) d.registry_releases

module _ (h : Digests) (contains : Contains) where
  -- The draft of the run becomes a proposal of the task's owner.
  unfoldable pub draft :
      NewIds → Time → Ident → Ident → Ident → Ident → Text → Text → List Operation → Tx (Unit {0})
  draft ids now id token task owner summary marked ops = do
    p ← (λ d.
        published
          (create_proposal_tx h contains ids now task owner marked Origin.agent_run id ops d))
    exec (λ d. record d {
      agent_runs = update_where (is_held id token) (succeed_row now p.id summary) d.agent_runs;
    })

  -- The transaction for a run that succeeded; `marked` is the summary with the run's identifier.
  unfoldable pub publish :
      NewIds
      → Time
      → Ident
      → Ident
      → Ident
      → Ident
      → Ident
      → Ident
      → Text
      → Text
      → List Operation
      → Tx (Unit {0})
  publish ids now id token task release owner initiator summary marked ops = if_held id token (do
    t ← query_row (λ d. find_task task d.tasks)
    released ← gets (is_active_release release)
    by_owner ← gets (λ d. may_answer (find_principal owner d))
    by_initiator ← gets (λ d. may_answer (find_principal initiator d))
    if is_terminal t.status
        then update_failure now task_no_longer_active id token
        else if not released
        then update_failure now internal_error id token
        else if not by_owner || not by_initiator
        then update_failure now actor_revoked id token
        else draft ids now id token task owner summary marked ops)

-- ExecuteAgentRun records a refused publication in a transaction of its own.
abbrev pub settle_publication :
    Time → Ident → Ident → Result (Unit {0}) × Db → Result (Unit {0}) × Db
settle_publication now id token (err (publish_error code), d) =
    with_org (fail_run now (some code) id token) d
settle_publication now id token (r, d) = (r, d)
