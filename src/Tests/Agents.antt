-- ===== src/Tests/Agents.antt =====
-- Releases, agents and the admission of runs, run and witnessed.
use workforce_platform.Base.{Bool, true, false, ◌||◌, some, [], ◌∷◌, ◌≡◌, refl, ◌==◌, ◌++◌}
use workforce_platform.Base.Rows.{find_where, exists_where}
use workforce_platform.Strings.{Str, same, sort_strings, insert_sorted}
use workforce_platform.Schema.{
  Task, Release, ReleaseState, ReleaseKind, Agent, AgentStatus, AgentRun, agent_run_job, Role, Db,
}
use workforce_platform.Errors.{ok, err, capabilities_not_granted, admin_required}
use workforce_platform.Tx.{◌>>=◌, with_org}
use workforce_platform.Tasks.{find_task, is_terminal}
use workforce_platform.Gates.{find_principal}
use workforce_platform.Registry.{
  contains_cap, can_transition, can_transition_as, find_release, transition_registry_release,
}
use workforce_platform.Registry.Grants.{Within}
use workforce_platform.Registry.Promise.{Track}
use workforce_platform.Registry.Lifecycle.{releases_follow_lifecycle, begin, next_step, moves}
use workforce_platform.Agents.{find_agent, outside}
use workforce_platform.Agents.Ceiling.{
  latest_where, active_release, runner_of, AgentConfigurationView, agent_configuration,
  admission_missing,
}
use workforce_platform.Agents.Admitting.{admission-denied}
use workforce_platform.AgentRuns.Admission.{
  is_active_admin, queued_run, start_run, create_agent_run,
}
use workforce_platform.AgentRuns.Admitted.{IsQueued, run_admitted}
use workforce_platform.Runners.Words.{split_words}
use workforce_platform.Runners.Escaping.{command_line, split-command_line}
use workforce_platform.Tests.Samples.{office}

-- The capabilities r and w.
abbrev reads : Str
reads = b'r' ∷ []

abbrev writes : Str
writes = b'w' ∷ []

abbrev shell : Release
shell = record {
  id = 80;
  family = b's' ∷ [];
  kind = ReleaseKind.harness;
  version = b'1' ∷ [];
  digest = 5;
  state = ReleaseState.active;
  manifest_runner = [];
  details = 0;
  requested_capabilities = reads ∷ [];
  granted_capabilities = writes ∷ reads ∷ [];
  compatibility_range = 0;
  simulation = true;
  created_by = 3;
  revision = 5;
  created_at = 1;
  updated_at = 4;
}

abbrev helper : Agent
helper = record {
  id = 6;
  name = b'h' ∷ [];
  harness = b's' ∷ [];
  status = AgentStatus.draft;
  owner_id = 1;
  capabilities = reads ∷ [];
  template_id = 0;
  template_version = [];
  instructions = [];
}

abbrev workshop : Db
workshop = record office {
  registry_releases = shell ∷ [];
  agents = helper ∷ record helper { id = 7; capabilities = (b'x' ∷ []) ∷ reads ∷ [] } ∷ [];
}

abbrev any : Str → Bool
any s = true

abbrev run : AgentRun
run = queued_run 40 10 6 (b's' ∷ []) shell [] 1

admits : create_agent_run any 40 10 1 6 [] workshop ≡ ok (run, start_run run workshop)
unfolding create_agent_run admission_missing find_where exists_where latest_where outside
    contains_cap sort_strings insert_sorted same ◌>>=◌
admits = refl

refuses : create_agent_run any 40 10 1 7 [] workshop ≡ err capabilities_not_granted
unfolding create_agent_run admission_missing find_where exists_where latest_where outside
    contains_cap sort_strings insert_sorted same ◌>>=◌
refuses = refl

not_by_requester :
    transition_registry_release 9 80 Role.requester (some ReleaseState.draining) 5 workshop
    ≡ err admin_required
unfolding transition_registry_release can_transition can_transition_as find_where ◌>>=◌
not_by_requester = refl

run_admitted_example :
    (a : Agent) × (r : Release) × (t : Task) × (find_agent 6 workshop ≡ some a)
    × (active_release a.harness workshop ≡ some r)
    × (find_task 10 workshop.tasks ≡ some t)
    × (any (runner_of r) ≡ true)
    × Within a.capabilities r.granted_capabilities
    × ((t.owner_id == 1 || is_active_admin (find_principal 1 workshop)) ≡ true)
    × (is_terminal t.status ≡ false)
    × (queued_run 40 10 6 a.harness r [] 1 ≡ run)
    × (start_run run workshop ≡ start_run run workshop)
    × IsQueued 40 10 6 a.harness r [] 1 run
    × ((start_run run workshop).agent_runs ≡ workshop.agent_runs ++ run ∷ [])
    × ((start_run run workshop).jobs ≡ workshop.jobs ++ agent_run_job 40 ∷ [])
unfolding find_where
run_admitted_example =
    run_admitted any 40 10 1 6 [] workshop (start_run run workshop) run admits (refl, tt)

admission-denied_example :
    (view : AgentConfigurationView) × (agent_configuration 6 workshop ≡ ok (view, workshop))
    × (admission_missing 6 80 workshop ≡ ok (view.denied, workshop))
unfolding find_where latest_where same
admission-denied_example = admission-denied 6 helper shell workshop refl refl refl

abbrev drained : Db
drained =
    (with_org (transition_registry_release 9 80 Role.admin (some ReleaseState.draining) 5)
      workshop).1

releases_follow_lifecycle_example : Track (find_release 80 workshop) (find_release 80 drained)
releases_follow_lifecycle_example =
    releases_follow_lifecycle workshop drained 80
      (next_step workshop drained begin (moves 9 80 Role.admin (some ReleaseState.draining) 5))

-- A word with a space and a quote in it.
abbrev odd : Str
odd = b'a' ∷ 32 ∷ b'"' ∷ []

split-command_line_example : split_words (command_line (odd ∷ reads ∷ [])) ≡ ok (odd ∷ reads ∷ [])
split-command_line_example = split-command_line (odd ∷ reads ∷ []) (refl, (refl, tt))
