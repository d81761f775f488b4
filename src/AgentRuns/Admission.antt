-- ===== src/AgentRuns/Admission.antt =====
-- CreateAgentRun, ListAgentRuns and GetAgentRun of internal/store/agent_runs.go: a run is admitted for an
-- agent whose harness has an active release that grants all that the agent declares.
use workforce_platform.Base.{
  Bool, false, not, ◌&&◌, Option, none, some, List, [], ◌∷◌, ◌++◌, ◌==◌, if◌then◌else◌,
}
use workforce_platform.Base.Rows.{find_row, exists_where}
use workforce_platform.Strings.{Str}
use workforce_platform.Schema.{Ident, Principal, Release, AgentRun, RunStatus, agent_run_job, Db}
use workforce_platform.Errors.{
  unique_violation, harness_unsupported, no_active_harness, capabilities_not_granted,
  only_owner_or_admin_may_run, terminal_task,
}
use workforce_platform.Tx.{Tx, ◌>>=◌, ◌>>◌, pure, fail, gets, query_row, exec, refuse_if}
use workforce_platform.Tasks.{find_task, is_terminal}
use workforce_platform.Gates.{find_principal}
use workforce_platform.Registry.{is_admin, is_nil}
use workforce_platform.Agents.{find_agent}
use workforce_platform.Agents.Ceiling.{active_release, runner_of, admission_missing}

abbrev pub is_active_admin : Option Principal → Bool
is_active_admin none = false
is_active_admin (some p) = p.active && is_admin p.role

-- `supported` is runner.Supported.
abbrev pub release_for : (Str → Bool) → Str → Option Release → Tx Release
release_for supported harness none =
    fail (if supported harness then no_active_harness else harness_unsupported)
release_for supported harness (some r) =
    refuse_if (not (supported (runner_of r))) harness_unsupported >> pure r

abbrev pub queued_run : Ident → Ident → Ident → Str → Release → Str → Ident → AgentRun
queued_run id task agent harness r intent actor = record {
  id = id;
  task_id = task;
  agent_id = agent;
  harness = harness;
  runner_id = runner_of r;
  intent = intent;
  status = RunStatus.queued;
  proposal_id = 0;
  gate_id = 0;
  claim_token = 0;
  claim_expires_at = none;
  attempt = 0;
  failure_reason = none;
  result_summary = 0;
  release_id = r.id;
  created_by = actor;
  finished_at = none;
}

-- The run and its job, in one transaction.
abbrev pub start_run : AgentRun → Db → Db
start_run x d = record d {
  agent_runs = d.agent_runs ++ x ∷ [];
  jobs = d.jobs ++ agent_run_job x.id ∷ [];
}

abbrev pub has_run : Ident → Db → Bool
has_run id d = exists_where (λ r. r.id == id) d.agent_runs

unfoldable pub create_agent_run : (Str → Bool) → Ident → Ident → Ident → Ident → Str → Tx AgentRun
create_agent_run supported id task actor agent intent = do
  a ← query_row (find_agent agent)
  active ← gets (active_release a.harness)
  r ← release_for supported a.harness active
  missing ← admission_missing agent r.id
  refuse_if (not (is_nil missing)) capabilities_not_granted
  t ← query_row (λ d. find_task task d.tasks)
  who ← gets (find_principal actor)
  refuse_if (not (t.owner_id == actor) && not (is_active_admin who)) only_owner_or_admin_may_run
  refuse_if (is_terminal t.status) terminal_task
  taken ← gets (has_run id)
  refuse_if taken unique_violation
  exec (start_run (queued_run id task agent a.harness r intent actor))
  pure (queued_run id task agent a.harness r intent actor)

unfoldable pub list_agent_runs : Tx (List AgentRun)
list_agent_runs = gets (λ d. d.agent_runs)

unfoldable pub get_agent_run : Ident → Tx AgentRun
get_agent_run id = query_row (λ d. find_row (λ r. r.id) id d.agent_runs)
