-- ===== src/AgentRuns/Admitted.antt =====
-- What CreateAgentRun has checked when it admits a run.
use workforce_platform.Base.{
  Bool, true, false, ◌&&◌, ◌||◌, none, ◌++◌, subst, some, List, [], ◌∷◌, ◌≡◌, refl, sym, ◌∙◌, inl,
  inr, arith, ◌==◌, leb, Bool-cases, Option-cases, ==-refl,
}
use workforce_platform.Base.Rows.{IsKeyed, find_row, find_where}
use workforce_platform.Strings.{Str, insert_sorted, sort_strings}
use workforce_platform.Schema.{Ident, Task, Release, Agent, AgentRun, RunStatus, agent_run_job, Db}
use workforce_platform.Errors.{ok}
use workforce_platform.Tx.{◌>>=◌}
use workforce_platform.Tasks.{find_task, is_terminal}
use workforce_platform.Gates.{find_principal}
use workforce_platform.Registry.{contains_cap, is_nil, find_release}
use workforce_platform.Registry.Grants.{Within}
use workforce_platform.Agents.{find_agent, outside}
use workforce_platform.Agents.Ceiling.{
  serves, latest_where, active_release, runner_of, admission_missing,
}
use workforce_platform.AgentRuns.Admission.{
  is_active_admin, queued_run, start_run, create_agent_run,
}

nothing_outside : (xs cs : List Str) → is_nil (outside xs cs) ≡ true → Within cs xs
unfolding outside
nothing_outside xs [] e = tt
nothing_outside xs (c ∷ cs) e = elim (Bool-cases (contains_cap xs c)) [
  | inl allowed ↦ (allowed, nothing_outside xs cs (rw allowed at e))
  | inr denied ↦ absurd (ground (arith, denied, e))
]

insert_not_nil : (c : Str) (xs : List Str) → is_nil (insert_sorted c xs) ≡ false
unfolding insert_sorted
insert_not_nil c [] = refl
insert_not_nil c (x ∷ xs) = ground arith

sorted_nil : (cs : List Str) → is_nil (sort_strings cs) ≡ is_nil cs
unfolding sort_strings
sorted_nil [] = refl
sorted_nil (c ∷ cs) = insert_not_nil c (sort_strings cs)

latest_key :
    (p : Release → Bool) (rs : List Release) (r : Release)
    → IsKeyed (λ r. r.id) rs
    → latest_where p rs ≡ some r
    → find_row (λ r. r.id) r.id rs ≡ some r
unfolding latest_where find_where
latest_key p [] r u e = ground arith
latest_key p (x ∷ xs) r u e = elim (Option-cases (latest_where p xs)) [
  | inl none_such ↦ ground (arith, none_such, e, ==-refl x.id)
  | inr (y, found) ↦ elim (Bool-cases (p x && leb y.updated_at x.updated_at)) [
    | inl newer ↦ ground (arith, found, newer, e, ==-refl x.id)
    | inr older ↦
        let is_r : latest_where p xs ≡ some r = ground (arith, found, older, e) in
        ground (arith, is_r, u.0, latest_key p xs r u.1 is_r)
  ]
]

-- The row of a run that waits for its first attempt, with what it is for and under which release.
abbrev pub IsQueued : Ident → Ident → Ident → Str → Release → Str → Ident → AgentRun → Type 0
IsQueued id task agent harness r intent actor x =
    (x.status ≡ RunStatus.queued)
    × (x.id ≡ id)
    × (x.task_id ≡ task)
    × (x.agent_id ≡ agent)
    × (x.harness ≡ harness)
    × (x.release_id ≡ r.id)
    × (x.runner_id ≡ runner_of r)
    × (x.intent ≡ intent)
    × (x.created_by ≡ actor)
    × (x.claim_token ≡ 0)
    × (x.claim_expires_at ≡ none)
    × (x.attempt ≡ 0)
    × (x.proposal_id ≡ 0)
    × (x.gate_id ≡ 0)
    × (x.finished_at ≡ none)
    × (x.failure_reason ≡ none)
    × (x.result_summary ≡ 0)

module _ (supported : Str → Bool) (id task actor agent : Ident) (intent : Str) (d e : Db)
    (x : AgentRun)
    (committed : create_agent_run supported id task actor agent intent d ≡ ok (x, e)) where
  its_agent : (a : Agent) × (find_agent agent d ≡ some a)
  unfolding create_agent_run ◌>>=◌
  its_agent = elim (Option-cases (find_agent agent d)) [
    | inl none_such ↦ absurd (ground (arith, none_such, committed))
    | inr found ↦ found
  ]

  its_release :
      (a : Agent)
      → find_agent agent d ≡ some a
      → (r : Release) × (active_release a.harness d ≡ some r)
  unfolding create_agent_run ◌>>=◌
  its_release a at = elim (Option-cases (active_release a.harness d)) [
    | inl none_such ↦ absurd (ground (arith, none_such, at, committed))
    | inr found ↦ found
  ]

  its_task :
      (a : Agent) (r : Release)
      → find_agent agent d ≡ some a
      → active_release a.harness d ≡ some r
      → find_release r.id d ≡ some r
      → (t : Task) × (find_task task d.tasks ≡ some t)
  unfolding create_agent_run admission_missing ◌>>=◌
  its_task a r at from known = elim (Option-cases (find_task task d.tasks)) [
    | inl none_such ↦ absurd (ground (arith, none_such, at, from, known, committed))
    | inr found ↦ found
  ]

  checked :
      (a : Agent) (r : Release) (t : Task)
      → find_agent agent d ≡ some a
      → active_release a.harness d ≡ some r
      → find_release r.id d ≡ some r
      → find_task task d.tasks ≡ some t
      → (supported (runner_of r) ≡ true)
        × (is_nil (sort_strings (outside r.granted_capabilities a.capabilities)) ≡ true)
        × ((t.owner_id == actor || is_active_admin (find_principal actor d)) ≡ true)
        × (is_terminal t.status ≡ false)
        × (queued_run id task agent a.harness r intent actor ≡ x)
        × (start_run x d ≡ e)
  unfolding create_agent_run admission_missing ◌>>=◌
  checked a r t at from known of = (
    ground (arith, at, from, known, of, committed),
    ground (arith, at, from, known, of, committed),
    ground (arith, at, from, known, of, committed),
    ground (arith, at, from, known, of, committed),
    ground (arith, at, from, known, of, committed),
    ground (arith, at, from, known, of, committed),
  )

  new_run :
      (a : Agent) (r : Release)
      → queued_run id task agent a.harness r intent actor ≡ x
      → IsQueued id task agent a.harness r intent actor x
  new_run a r row = subst (IsQueued id task agent a.harness r intent actor) row (
    refl, refl, refl, refl, refl, refl, refl, refl, refl, refl, refl, refl, refl, refl, refl, refl,
    refl,
  )

  -- When CreateAgentRun commits, the agent is there and its harness has an active release that this
  -- process can run and that grants every capability the agent declares; the task is there and neither
  -- done nor cancelled; the caller owns it or is an active admin; and all that has changed is that the
  -- run is queued, under that release and without a claim, with one job more, which is for it. The
  -- identifiers of releases are unique.
  pub run_admitted :
      IsKeyed (λ r. r.id) d.registry_releases
      → (a : Agent) × (r : Release) × (t : Task) × (find_agent agent d ≡ some a)
        × (active_release a.harness d ≡ some r)
        × (find_task task d.tasks ≡ some t)
        × (supported (runner_of r) ≡ true)
        × Within a.capabilities r.granted_capabilities
        × ((t.owner_id == actor || is_active_admin (find_principal actor d)) ≡ true)
        × (is_terminal t.status ≡ false)
        × (queued_run id task agent a.harness r intent actor ≡ x)
        × (start_run x d ≡ e)
        × IsQueued id task agent a.harness r intent actor x
        × (e.agent_runs ≡ d.agent_runs ++ x ∷ [])
        × (e.jobs ≡ d.jobs ++ agent_run_job id ∷ [])
  run_admitted u =
      let (a, at) = its_agent in
      let (r, from) = its_release a at in
      let known : find_release r.id d ≡ some r =
        latest_key (serves a.harness) d.registry_releases r u from in
      let (t, of) = its_task a r at from known in
      let (can_run, none_missing, may_run, alive, row, next) = checked a r t at from known of in
      (
        a,
        r,
        t,
        at,
        from,
        of,
        can_run,
        nothing_outside r.granted_capabilities a.capabilities
            (sym (sorted_nil (outside r.granted_capabilities a.capabilities)) ∙ none_missing),
        may_run,
        alive,
        row,
        next,
        new_run a r row,
        subst (λ e. e.agent_runs ≡ d.agent_runs ++ x ∷ []) next refl,
        subst (λ e. e.jobs ≡ d.jobs ++ agent_run_job id ∷ []) next
            (subst (λ y. (start_run y d).jobs ≡ d.jobs ++ agent_run_job id ∷ []) row refl),
      )
