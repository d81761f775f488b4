-- ===== src/AgentRuns/Stranding.antt =====
-- A question that cannot be answered ends an attempt of ExecuteAgentRun without any record of it.
use workforce_platform.Base.{true, some, ◌≡◌, refl, ap, arith, ◌==◌, ◌+◌, ==-refl}
use workforce_platform.Base.Rows.{IsKeyed, find_row}
use workforce_platform.Base.Keys.{find_where_key}
use workforce_platform.Schema.{Ident, Task, AgentRun, Db}
use workforce_platform.Errors.{ok, err, publish_error, invalid_gate_schema}
use workforce_platform.Tx.{◌>>=◌, with_org}
use workforce_platform.Tasks.{find_task}
use workforce_platform.Proposals.{Digests, Contains}
use workforce_platform.Runners.{Runner, new_runner}
use workforce_platform.AgentRuns.{is_running, if_held, Question, schema_refused, claim, park}
use workforce_platform.AgentRuns.Fencing.{claim-eq-ok}
use workforce_platform.AgentRuns.Executing.{
  RunnerResult, visible_records, inputs_of, gather, request_of, ask_question, outcome_of, Process,
  Attempt, lease_of, execute_agent_run,
}

-- No other transaction comes between those of the attempt.
abbrev pub alone : Attempt → Attempt
alone a = record a { between = λ n d. d }

gather_lem :
    (id task : Ident) (d : Db) (t : Task)
    → find_task task d.tasks ≡ some t
    → gather id task d ≡ ok ((visible_records d, inputs_of id d, t.owner_id), d)
unfolding gather ◌>>=◌
gather_lem id task d t found = rw found refl

module _ (h : Digests) (contains : Contains) (p : Process) (a : Attempt) (id : Ident) (d e : Db)
    (r : AgentRun) (u : IsKeyed (λ r. r.id) d.agent_runs)
    (claimed : claim (a.clock 1) (a.clock 1 + lease_of p id d) a.token id d ≡ ok (r, e)) where
  park_lem :
      (gate task owner initiator : Ident) (q : Question)
      → schema_refused q.schema ≡ true
      → park id a.token gate task owner initiator q e ≡ err (publish_error invalid_gate_schema)
  unfolding park if_held ◌>>=◌
  park_lem gate task owner initiator q refused =
      let (x, is_x, free, is_r, is_e, found, keyed) =
        claim-eq-ok (a.clock 1) (a.clock 1 + lease_of p id d) a.token id d e r u claimed in
      ground (
        arith,
        find_where_key (λ r. r.id) id (λ r. r.claim_token == a.token) e.agent_runs r keyed found,
        ap (λ r. r.claim_token) is_r,
        ap (λ r. r.status) is_r,
        ==-refl a.token,
        refused,
      )

  -- Where no other transaction comes between: an attempt that claims a run, and whose runner asks a
  -- question that ValidateGateSchema refuses, ends with the error and leaves the database as the claim
  -- did. The run is still running under the attempt's lease; its failure is not recorded.
  pub refused_question_strands :
      (t : Task) (x : Runner) (res : RunnerResult) (q : Question)
      → find_task r.task_id e.tasks ≡ some t
      → new_runner p.configs r.runner_id ≡ ok x
      → p.run x (request_of r (visible_records e) (inputs_of id e)) ≡ some res
      → outcome_of res ≡ ask_question q
      → schema_refused q.schema ≡ true
      → (execute_agent_run h contains p (alone a) id d
          ≡ (err (publish_error invalid_gate_schema), e))
        × (find_row (λ r. r.id) id e.agent_runs ≡ some r)
        × (is_running r.status ≡ true)
        × (r.claim_token ≡ a.token)
  unfolding execute_agent_run with_org
  refused_question_strands t x res q of runs ran asks refused =
      let (y, is_y, free, is_r, is_e, found, keyed) =
        claim-eq-ok (a.clock 1) (a.clock 1 + lease_of p id d) a.token id d e r u claimed in
      (
        rw
            (
              claimed,
              gather_lem id r.task_id e t of,
              runs,
              ran,
              asks,
              park_lem a.gate_id r.task_id t.owner_id r.created_by q refused,
            )
            refl,
        found,
        ground (arith, ap (λ r. r.status) is_r),
        ap (λ r. r.claim_token) is_r,
      )
