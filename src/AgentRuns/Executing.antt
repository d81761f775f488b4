-- ===== src/AgentRuns/Executing.antt =====
-- ExecuteAgentRun of internal/store/agent_runs.go from the claim to the record of the outcome. The runner
-- is a parameter, and so is what other transactions do between those of the attempt.
use Prim.Native.String.{String}
use Prim.Native.Nat.{◌/◌}
use workforce_platform.Base.{
  ℕ, zero, suc, Bool, true, false, ◌&&◌, Option, none, some, List, [], ◌∷◌, ◌++◌, ◌==◌, ltb, ◌+◌,
  if◌then◌else◌,
}
use workforce_platform.Base.Rows.{find_row, select_where}
use workforce_platform.Strings.{Str}
use workforce_platform.Schema.{
  Ident, Text, Time, Operation, SimulatorRecord, Gate, GateStatus, AgentRun, Db,
}
use workforce_platform.Schema.Values.{Json, Fields, object, end, field}
use workforce_platform.Errors.{Result, ok, err, not_found, RunFailure}
use workforce_platform.Tx.{Tx, ◌>>=◌, pure, gets, query_row, with_org}
use workforce_platform.Tasks.{find_task}
use workforce_platform.Proposals.{Digests, Contains, NewIds}
use workforce_platform.Runners.{CliRunner, Runner, new_runner, run_budget, second}
use workforce_platform.AgentRuns.{
  Question, claim, not_claimed, lease_seconds, fail_run, park, publish, settle_publication,
}

-- runner.RecordRef and runner.Input.
pub record RecordRef : Type 0 where
  pub id : Ident
  pub integration : String
  pub version : ℕ
  pub fields : Fields

pub record Input : Type 0 where
  pub name : String
  pub value : Json

-- runner.Request
pub record Request : Type 0 where
  pub task_id : Ident
  pub run_id : Ident
  pub agent_id : Ident
  pub harness : Str
  pub intent : Str
  pub records : List RecordRef
  pub inputs : List Input

-- runner.ProposalDraft; 0 for an empty summary.
pub record Draft : Type 0 where
  pub summary : Text
  pub operations : List Operation

-- The status of a runner.Result; `other` is any text but the first two.
pub data RunnerStatus : Type 0 where
  succeeded waiting other : RunnerStatus

-- runner.Result; an empty failure reason is `none`.
pub record RunnerResult : Type 0 where
  pub status : RunnerStatus
  pub failure_reason : Option RunFailure
  pub draft : Option Draft
  pub gate : Option Question

abbrev pub as_ref : SimulatorRecord → RecordRef
as_ref r = record { id = r.id; integration = r.integration; version = r.version; fields = r.fields }

unfoldable pub insert_by_id : RecordRef → List RecordRef → List RecordRef
insert_by_id r [] = r ∷ []
insert_by_id r (x ∷ xs) = if ltb r.id x.id then r ∷ x ∷ xs else x ∷ insert_by_id r xs

unfoldable pub by_id : List SimulatorRecord → List RecordRef
by_id [] = []
by_id (r ∷ rs) = insert_by_id (as_ref r) (by_id rs)

unfoldable pub first_refs : ℕ → List RecordRef → List RecordRef
first_refs zero rs = []
first_refs (suc n) [] = []
first_refs (suc n) (r ∷ rs) = r ∷ first_refs n rs

-- order by id limit 50
abbrev pub visible_records : Db → List RecordRef
visible_records d = first_refs 50 (by_id d.simulator_records)

-- The members of an answer; a value that is no object has none. Their order is free: a request looks
-- an answer up by its name.
unfoldable pub members_of : Fields → List Input
members_of end = []
members_of (field name v rest) = record { name = name; value = v } ∷ members_of rest

abbrev pub answers_of : Option Json → List Input
answers_of (some (object fs)) = members_of fs
answers_of _ = []

abbrev pub is_resolved : GateStatus → Bool
is_resolved GateStatus.resolved = true
is_resolved _ = false

unfoldable pub collect_inputs : List Gate → List Input
collect_inputs [] = []
collect_inputs (g ∷ gs) = answers_of g.response ++ collect_inputs gs

abbrev pub inputs_of : Ident → Db → List Input
inputs_of id d =
    collect_inputs (select_where (λ g. g.run_id == id && is_resolved g.status) d.decision_gates)

-- The second transaction: what the runner is shown, and the owner of the task.
unfoldable pub gather : Ident → Ident → Tx (List RecordRef × List Input × Ident)
gather id task = do
  records ← gets visible_records
  inputs ← gets (inputs_of id)
  t ← query_row (λ d. find_task task d.tasks)
  pure (records, inputs, t.owner_id)

abbrev pub request_of : AgentRun → List RecordRef → List Input → Request
request_of r records inputs = record {
  task_id = r.task_id;
  run_id = r.id;
  agent_id = r.agent_id;
  harness = r.harness;
  intent = r.intent;
  records = records;
  inputs = inputs;
}

-- What an outcome asks of the store.
pub data Outcome : Type 0 where
  ask_question : Question → Outcome
  publish_draft : Draft → Outcome
  record_failure : Option RunFailure → Outcome

abbrev pub drafted : RunnerResult → Option Draft → Outcome
drafted res none = record_failure res.failure_reason
drafted res (some dr) = elim dr.operations [
  | [] ↦ record_failure res.failure_reason
  | o ∷ os ↦ publish_draft dr
]

-- The branches of ExecuteAgentRun on what the runner returned.
unfoldable pub outcome_of : RunnerResult → Outcome
outcome_of res = elim res.status [
  | RunnerStatus.waiting ↦ elim res.gate [
    | some q ↦ ask_question q
    | none ↦ record_failure res.failure_reason
  ]
  | RunnerStatus.succeeded ↦ drafted res res.draft
  | RunnerStatus.other ↦ record_failure res.failure_reason
]

-- The texts "Prepared by agent run <id>" and "<summary> (agent run <id>)".
pub record RunTexts : Type 0 where
  pub prepared_by : Ident → Text
  pub marked : Text → Ident → Text

-- The process: its runners, which may fail, and the texts that it writes.
pub record Process : Type 0 where
  pub configs : List CliRunner
  pub run : Runner → Request → Option RunnerResult
  pub texts : RunTexts

-- The claim's token, the identifier of a question, those of a proposal, the clock at each transaction
-- in seconds, and what other transactions do before each of them.
pub record Attempt : Type 0 where
  pub token : Ident
  pub gate_id : Ident
  pub ids : NewIds
  pub clock : ℕ → Time
  pub between : ℕ → Db → Db

abbrev pub configured_runner : Option AgentRun → Str
configured_runner none = []
configured_runner (some r) = r.runner_id

-- The budget of the runner that the row names, in whole seconds.
abbrev pub lease_of : Process → Ident → Db → ℕ
lease_of p id d =
    lease_seconds
      (run_budget p.configs (configured_runner (find_row (λ r. r.id) id d.agent_runs)) / second)

module _ (h : Digests) (contains : Contains) (p : Process) (a : Attempt) (id : Ident) where
  abbrev pub fail_with : ℕ → Option RunFailure → Db → Result (Unit {0}) × Db
  fail_with n code d = with_org (fail_run (a.clock n) code id a.token) d

  abbrev pub summary_of : Draft → Text
  summary_of dr = if dr.summary == 0 then p.texts.prepared_by id else dr.summary

  -- A refused publication is recorded in a transaction of its own, any other end is the result.
  abbrev pub after_publication : Result (Unit {0}) × Db → Result (Unit {0}) × Db
  after_publication (ok u, d) = (ok u, d)
  after_publication (err e, d) = settle_publication (a.clock 4) id a.token (err e, a.between 4 d)

  abbrev pub settle_outcome : AgentRun → Ident → Outcome → Db → Result (Unit {0}) × Db
  settle_outcome r owner (ask_question q) d =
      with_org (park id a.token a.gate_id r.task_id owner r.created_by q) d
  settle_outcome r owner (publish_draft dr) d = after_publication (
      with_org
        (publish h contains a.ids (a.clock 3) id a.token r.task_id r.release_id owner r.created_by
          (summary_of dr) (p.texts.marked (summary_of dr) id) dr.operations)
        d)
  settle_outcome r owner (record_failure code) d = fail_with 3 code d

  abbrev pub after_run : AgentRun → Ident → Option RunnerResult → Db → Result (Unit {0}) × Db
  after_run r owner none d = fail_with 3 none d
  after_run r owner (some res) d = settle_outcome r owner (outcome_of res) d

  abbrev pub with_runner : AgentRun → Ident → Request → Result Runner → Db → Result (Unit {0}) × Db
  with_runner r owner q (err e) d = fail_with 3 none d
  with_runner r owner q (ok x) d = after_run r owner (p.run x q) d

  abbrev pub after_gathering :
      AgentRun → Result (List RecordRef × List Input × Ident) × Db → Result (Unit {0}) × Db
  after_gathering r (err e, d) = fail_with 3 none (a.between 3 d)
  after_gathering r (ok (records, inputs, owner), d) =
      with_runner r owner (request_of r records inputs) (new_runner p.configs r.runner_id)
        (a.between 3 d)

  abbrev pub after_claim : Result AgentRun × Db → Result (Unit {0}) × Db
  after_claim (ok r, d) = after_gathering r (with_org (gather id r.task_id) (a.between 2 d))
  after_claim (err not_found, d) = with_org (not_claimed id) (a.between 2 d)
  after_claim (err e, d) = (err e, d)

  unfoldable pub execute_agent_run : Db → Result (Unit {0}) × Db
  execute_agent_run d =
      after_claim (with_org (claim (a.clock 1) (a.clock 1 + lease_of p id d) a.token id) d)
