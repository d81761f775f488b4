-- ===== src/Gates/Resuming.antt =====
-- An answer to a question of a run, from ResolveGate of internal/store/gates.go to the next attempt of
-- ExecuteAgentRun.
use workforce_platform.Base.{
  ℕ, ◌≢◌, ◌⊎◌, true, false, ◌&&◌, Option, some, [], ◌∷◌, ◌++◌, map, ◌==◌, ◌≡◌, refl, ◌∙◌, inl, inr,
  arith, Bool-cases, Option-cases, ==-refl,
}
use workforce_platform.Base.Rows.{
  find_row, find_where, exists_where, update_if, find_row-map, find_row-key, IsKeyed, IsKeyed-map,
}
use workforce_platform.Base.Keys.{find_where_key}
use workforce_platform.Base.Any.{Any}
use workforce_platform.Schema.{
  Ident, Time, Principal, Gate, GateStatus, AgentRun, RunStatus, agent_run_job, Db,
}
use workforce_platform.Schema.Values.{Json}
use workforce_platform.Errors.{Error, ok, err, gate_not_respondent, gate_revision, Result-cases}
use workforce_platform.Tx.{◌>>=◌, pure}
use workforce_platform.Decisions.{enqueue}
use workforce_platform.Gates.Schemas.{validate_gate_response}
use workforce_platform.Gates.{
  find_gate, find_principal, answer_row, answer, is_parked_at, requeue_row, resume, resolve_pending,
  resolve_gate_tx,
}
use workforce_platform.Gates.Resolving.{exists_where_found}
use workforce_platform.AgentRuns.{claim, claimed, claim_row, is_claimable}
use workforce_platform.AgentRuns.Executing.{Input, answers_of, inputs_of, is_resolved}
use workforce_platform.Gates.Answering.{CanAnswer, IsAnswered, IsResumed, collected}

module _ (now : Time) (actor : Ident) (revision : ℕ) (response : Option Json) (id : Ident)
    (g : Gate) (r : AgentRun) (d : Db) (found : find_gate id d ≡ some g)
    (u : IsKeyed (λ r. r.id) d.agent_runs) (pending : g.status ≡ GateStatus.pending)
    (runs : g.run_id ≢ 0) (is_r : find_row (λ r. r.id) g.run_id d.agent_runs ≡ some r)
    (waits : r.status ≡ RunStatus.waiting) (at : r.gate_id ≡ g.id) where
  abbrev requeue : AgentRun → AgentRun
  requeue = update_if (λ r. r.id == g.run_id && is_parked_at g.id r) requeue_row

  abbrev resumed : Db
  resumed =
      enqueue (agent_run_job g.run_id)
        (record (answer now g.id actor response d) { agent_runs = map requeue d.agent_runs })

  parked : is_parked_at g.id r ≡ true
  parked = rw waits (ground (arith, at))

  commits :
      CanAnswer actor revision response g d
      → resolve_gate_tx now id actor revision response d ≡ ok (tt, resumed)
  unfolding resolve_gate_tx resolve_pending resume ◌>>=◌ pure
  commits (p, is_p, active, own, current, fit) =
      rw (found, is_p, active, owns, pending, at_revision, fit, some_run, there) refl
    where
      owns : (g.respondent_id == actor) ≡ true
      owns = ground (arith, own)

      at_revision : (g.revision == revision) ≡ true
      at_revision = ground (arith, current)

      some_run : (g.run_id == 0) ≡ false
      some_run = ground (arith, runs)

      there : exists_where (λ r. r.id == g.run_id && is_parked_at g.id r) d.agent_runs ≡ true
      there = exists_where_found (λ r. r.id) g.run_id (is_parked_at g.id) d.agent_runs r is_r parked

  abbrev Refused : Type 0
  Refused =
      (¬ CanAnswer actor revision response g d)
      × (f : Error) × (resolve_gate_tx now id actor revision response d ≡ err f)

  decides_fit :
      (p : Principal)
      → find_principal actor d ≡ some p
      → p.active ≡ true
      → (g.respondent_id == actor) ≡ true
      → CanAnswer actor revision response g d ⊎ Refused
  unfolding resolve_gate_tx resolve_pending ◌>>=◌
  decides_fit p is_p active own = elim (Bool-cases (g.revision == revision)) [
    | inl current ↦ elim (Result-cases (validate_gate_response g.input_schema response)) [
      | inl (_, fit) ↦ inl (p, is_p, active, ground (arith, own), ground (arith, current), fit)
      | inr (f, unfit) ↦ inr (
        λ (_, _, _, _, _, fit). ground (arith, fit, unfit),
        f,
        rw (found, is_p, active, own, pending, current, unfit) refl,
      )
    ]
    | inr outdated ↦ inr (
      λ (_, _, _, _, same, _). ground (arith, outdated, same),
      gate_revision,
      rw (found, is_p, active, own, pending, outdated) refl,
    )
  ]

  decides : CanAnswer actor revision response g d ⊎ Refused
  unfolding resolve_gate_tx ◌>>=◌
  decides = elim (Option-cases (find_principal actor d)) [
    | inl stranger ↦ inr (
      λ (p, is_p, _, _, _, _). ground (arith, stranger, is_p),
      gate_not_respondent,
      rw (found, stranger) refl,
    )
    | inr (p, is_p) ↦ elim (Bool-cases p.active) [
      | inl active ↦ elim (Bool-cases (g.respondent_id == actor)) [
        | inl own ↦ decides_fit p is_p active own
        | inr foreign ↦ inr (
          λ (_, _, _, own, _, _). ground (arith, foreign, own),
          gate_not_respondent,
          rw (found, is_p, active, foreign) refl,
        )
      ]
      | inr inactive ↦ inr (
        λ (q, is_q, active, _, _, _). ground (arith, is_p, is_q, inactive, active),
        gate_not_respondent,
        rw (found, is_p, inactive) refl,
      )
    ]
  ]

  find_answered : find_gate id resumed ≡ some (answer_row now actor response g)
  find_answered =
      find_row-map (λ g. g.id) id (update_if (λ x. x.id == g.id) (answer_row now actor response))
        (λ x. ground arith) d.decision_gates
      ∙ rw found (rw (==-refl g.id) refl)

  find_resumed : find_row (λ r. r.id) g.run_id resumed.agent_runs ≡ some (requeue_row r)
  find_resumed =
      find_row-map (λ r. r.id) g.run_id requeue (λ x. ground arith) d.agent_runs
      ∙ rw is_r (ground (arith, find_row-key (λ r. r.id) g.run_id d.agent_runs r is_r, parked))

  shown :
      (i : Input)
      → Any (λ j. j ≡ i) (answers_of response)
      → Any (λ j. j ≡ i) (inputs_of g.run_id resumed)
  shown i a =
      collected (λ j. j ≡ i) (λ x. x.run_id == g.run_id && is_resolved x.status) id
        resumed.decision_gates (answer_row now actor response g) find_answered
        (ground (arith, ==-refl g.run_id)) a

  claims :
      (later until token : ℕ)
      → (y : AgentRun) × (f : Db) × (claim later until token g.run_id resumed ≡ ok (y, f))
  unfolding claim ◌>>=◌
  claims later until token = (
    claim_row until token (requeue_row r),
    claimed later until token g.run_id resumed,
    rw free refl,
  )
    where
      free :
          find_where (λ r. r.id == g.run_id && is_claimable later r) resumed.agent_runs
          ≡ some (requeue_row r)
      free =
          find_where_key (λ r. r.id) g.run_id (is_claimable later) resumed.agent_runs
            (requeue_row r) (IsKeyed-map (λ r. r.id) requeue (λ x. ground arith) d.agent_runs u)
            find_resumed

  -- ResolveGate on a pending question that a run waits for, where the identifiers of the runs are unique.
  -- Either the caller is an active principal and the respondent, and answers the question as it stands
  -- with something that fits its schema: then it commits, the answer is recorded in the question, the run
  -- is in the queue with one job more, which is for it, the next attempt finds each member of the answer
  -- among its inputs, and can claim the run at any time. Or one of these fails, and it reports an error.
  pub resolve_gate_resumes :
      (CanAnswer actor revision response g d
        × (e : Db) × (resolve_gate_tx now id actor revision response d ≡ ok (tt, e))
        × (s : Gate) × (find_gate id e ≡ some s)
        × IsAnswered now actor response g s
        × (x : AgentRun) × (find_row (λ r. r.id) g.run_id e.agent_runs ≡ some x)
        × IsResumed r x
        × (e.jobs ≡ d.jobs ++ agent_run_job g.run_id ∷ [])
        × ((i : Input)
            → Any (λ j. j ≡ i) (answers_of response)
            → Any (λ j. j ≡ i) (inputs_of g.run_id e))
        × ((later until token : ℕ)
            → (y : AgentRun) × (f : Db) × (claim later until token g.run_id e ≡ ok (y, f))))
      ⊎ ((¬ CanAnswer actor revision response g d)
          × (f : Error) × (resolve_gate_tx now id actor revision response d ≡ err f))
  resolve_gate_resumes = elim decides [
    | inl may ↦ inl (
      may,
      resumed,
      commits may,
      answer_row now actor response g,
      find_answered,
      (refl, refl, refl, refl, refl, refl, refl, refl, refl, refl, refl, refl, refl, refl),
      requeue_row r,
      find_resumed,
      (
        refl, refl, refl, refl, refl, refl, refl, refl, refl, refl, refl, refl, refl, refl, refl,
        refl, refl,
      ),
      refl,
      shown,
      claims,
    )
    | inr refused ↦ inr refused
  ]
