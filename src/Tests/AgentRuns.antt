-- ===== src/Tests/AgentRuns.antt =====
-- Claims of agent runs, run and witnessed.
use workforce_platform.Base.{true, none, some, [], ◌∷◌, ◌≡◌, refl, arith}
use workforce_platform.Base.Rows.{find_where, find_row}
use workforce_platform.Schema.{AgentRun, RunStatus, TaskStatus, Db}
use workforce_platform.Schema.Values.{unconstrained, spec}
use workforce_platform.Errors.{
  ok, err, not_found, internal_error, publish_error, invalid_gate_schema,
}
use workforce_platform.Tx.{◌>>=◌}
use workforce_platform.AgentRuns.{claim, claim_row, Question, park, publish, fail_run, is_running}
use workforce_platform.AgentRuns.Fencing.{replaced_writes_nothing, live_lease_excludes}
use workforce_platform.AgentRuns.Executing.{
  RunnerStatus, RunnerResult, Process, Attempt, outcome_of, execute_agent_run,
}
use workforce_platform.AgentRuns.Stranding.{alone, refused_question_strands}
use workforce_platform.Gates.Schemas.{
  validate_gate_schema, all_supported, field_supported, scalar_type_supported,
}
use workforce_platform.Runners.{simulator, simulator_runner, new_runner, run_budget}
use workforce_platform.Strings.{same}
use workforce_platform.Tests.Samples.{office, three_more, task_of}
use workforce_platform.Tests.Governance.{digests, contains, fresh}

-- Run 40 under a lease until 100, held by token 300.
abbrev pub running : AgentRun
running = record {
  id = 40;
  task_id = 10;
  agent_id = 6;
  harness = [];
  runner_id = [];
  intent = [];
  status = RunStatus.running;
  proposal_id = 0;
  gate_id = 0;
  claim_token = 300;
  claim_expires_at = some 100;
  attempt = 1;
  failure_reason = none;
  result_summary = 0;
  release_id = 8;
  created_by = 1;
  finished_at = none;
}

abbrev pub stranded : Db
stranded = record office { agent_runs = running ∷ [] }

abbrev reclaimed : Db
reclaimed = record office { agent_runs = claim_row 250 301 running ∷ [] }

claims : claim 130 250 301 40 stranded ≡ ok (claim_row 250 301 running, reclaimed)
unfolding claim find_where ◌>>=◌
claims = refl

abbrev anything_else : Question
anything_else = record { respondent_id = 0; kind = 1; prompt = 2; schema = unconstrained }

replaced_writes_nothing_example :
    (park 40 300 45 10 1 1 anything_else reclaimed ≡ ok (tt, reclaimed))
    × (publish digests contains fresh 140 40 300 10 8 1 1 3 4 (three_more ∷ []) reclaimed
        ≡ ok (tt, reclaimed))
    × (fail_run 140 (some internal_error) 40 300 reclaimed ≡ ok (tt, reclaimed))
unfolding find_where
replaced_writes_nothing_example =
    replaced_writes_nothing 130 250 301 40 stranded reclaimed (claim_row 250 301 running) (refl, tt)
      claims 300 (λ e. omega arith) digests contains fresh 140 45 10 8 1 1 anything_else 3 4
      (three_more ∷ []) (some internal_error)

live_lease_excludes_example : claim 200 400 302 40 reclaimed ≡ err not_found
unfolding find_where
live_lease_excludes_example =
    live_lease_excludes 130 250 301 40 stranded reclaimed (claim_row 250 301 running) (refl, tt)
      claims 200 400 302 (omega arith)

-- A field of the question with a type that no answer has.
abbrev unanswerable : Question
unanswerable = record {
  respondent_id = 0;
  kind = 1;
  prompt = 2;
  schema = spec (some (("x", record { type_name = "colour"; items = none }) ∷ [])) (some []) [];
}

abbrev asks_it : RunnerResult
asks_it = record {
  status = RunnerStatus.waiting;
  failure_reason = none;
  draft = none;
  gate = some unanswerable;
}

abbrev process : Process
process = record {
  configs = [];
  run = λ x q. some asks_it;
  texts = record { prepared_by = λ id. id; marked = λ s id. s };
}

abbrev attempt : Attempt
attempt = record { token = 301; gate_id = 45; ids = fresh; clock = λ n. 130; between = λ n d. d }

abbrev queued : AgentRun
queued = record running { status = RunStatus.queued; runner_id = simulator; claim_token = 0 }

abbrev waiting_room : Db
waiting_room = record office { agent_runs = queued ∷ [] }

abbrev picked : AgentRun
picked = claim_row 250 301 queued

abbrev picked_up : Db
picked_up = record office { agent_runs = picked ∷ [] }

picks : claim 130 250 301 40 waiting_room ≡ ok (picked, picked_up)
unfolding claim find_where ◌>>=◌
picks = refl

refused_question_strands_example :
    (execute_agent_run digests contains process (alone attempt) 40 waiting_room
      ≡ (err (publish_error invalid_gate_schema), picked_up))
    × (find_row (λ r. r.id) 40 picked_up.agent_runs ≡ some picked)
    × (is_running picked.status ≡ true)
    × (picked.claim_token ≡ 301)
unfolding find_where new_runner outcome_of validate_gate_schema run_budget same all_supported
    field_supported scalar_type_supported
refused_question_strands_example =
    refused_question_strands digests contains process attempt 40 waiting_room picked_up picked
      (refl, tt) picks (task_of 10 TaskStatus.ready) simulator_runner asks_it unanswerable refl refl
      refl refl refl
