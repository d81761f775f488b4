-- ===== src/Gates/Answering.antt =====
-- What an answer to a question leaves in the rows of the question and of its run, and among the inputs of
-- the next attempt.
use workforce_platform.Base.{
  ℕ, ◌+◌, Bool, true, Option, none, some, List, [], ◌∷◌, ◌++◌, ◌==◌, ◌≡◌, sym, subst, inl, inr,
  arith, Bool-cases,
}
use workforce_platform.Base.Rows.{find_row, find_where, select_where}
use workforce_platform.Base.Any.{Any}
use workforce_platform.Schema.{Ident, Time, Principal, Gate, GateStatus, AgentRun, RunStatus, Db}
use workforce_platform.Schema.Values.{Json}
use workforce_platform.Errors.{ok}
use workforce_platform.Gates.Schemas.{validate_gate_response}
use workforce_platform.Gates.{find_principal}
use workforce_platform.AgentRuns.Executing.{Input, answers_of, collect_inputs}

-- The caller is an active principal and the respondent, and answers the question as it stands with
-- something that fits its schema.
abbrev pub CanAnswer : Ident → ℕ → Option Json → Gate → Db → Type 0
CanAnswer actor revision response g d =
    (p : Principal) × (find_principal actor d ≡ some p)
    × (p.active ≡ true)
    × (g.respondent_id ≡ actor)
    × (g.revision ≡ revision)
    × (validate_gate_response g.input_schema response ≡ ok tt)

-- The question with its answer, otherwise the same.
abbrev pub IsAnswered : Time → Ident → Option Json → Gate → Gate → Type 0
IsAnswered now actor response g s =
    (s.status ≡ GateStatus.resolved)
    × (s.response ≡ response)
    × (s.responded_by ≡ actor)
    × (s.responded_at ≡ some now)
    × (s.version ≡ g.version + 1)
    × (s.id ≡ g.id)
    × (s.run_id ≡ g.run_id)
    × (s.task_id ≡ g.task_id)
    × (s.input_schema ≡ g.input_schema)
    × (s.revision ≡ g.revision)
    × (s.respondent_id ≡ g.respondent_id)
    × (s.prompt ≡ g.prompt)
    × (s.kind ≡ g.kind)
    × (s.created_by ≡ g.created_by)

-- The run in the queue without token and lease, otherwise the same.
abbrev pub IsResumed : AgentRun → AgentRun → Type 0
IsResumed r s =
    (s.status ≡ RunStatus.queued)
    × (s.claim_token ≡ 0)
    × (s.claim_expires_at ≡ none)
    × (s.attempt ≡ r.attempt)
    × (s.id ≡ r.id)
    × (s.task_id ≡ r.task_id)
    × (s.agent_id ≡ r.agent_id)
    × (s.runner_id ≡ r.runner_id)
    × (s.intent ≡ r.intent)
    × (s.release_id ≡ r.release_id)
    × (s.created_by ≡ r.created_by)
    × (s.harness ≡ r.harness)
    × (s.gate_id ≡ r.gate_id)
    × (s.proposal_id ≡ r.proposal_id)
    × (s.failure_reason ≡ r.failure_reason)
    × (s.result_summary ≡ r.result_summary)
    × (s.finished_at ≡ r.finished_at)

Any-left : {A : Type 0} (P : A → Type 0) (xs ys : List A) → Any P xs → Any P (xs ++ ys)
Any-left P [] ys h = absurd h
Any-left P (x ∷ xs) ys (inl p) = inl p
Any-left P (x ∷ xs) ys (inr h) = inr (Any-left P xs ys h)

Any-right : {A : Type 0} (P : A → Type 0) (xs ys : List A) → Any P ys → Any P (xs ++ ys)
Any-right P [] ys h = h
Any-right P (x ∷ xs) ys h = inr (Any-right P xs ys h)

-- The answer of a gate that the query picks is among what it collects.
pub collected :
    (P : Input → Type 0) (q : Gate → Bool) (id : Ident) (gs : List Gate) (s : Gate)
    → find_row (λ g. g.id) id gs ≡ some s
    → q s ≡ true
    → Any P (answers_of s.response)
    → Any P (collect_inputs (select_where q gs))
unfolding find_where select_where collect_inputs
collected P q id [] s f h a = absurd (ground (arith, f))
collected P q id (g ∷ gs) s f h a = elim (Bool-cases (g.id == id)) [
  | inl here ↦
      let is_s : g ≡ s = ground (arith, here, f) in
      rw (subst (λ x. q x ≡ true) (sym is_s) h) (
        Any-left P (answers_of g.response) (collect_inputs (select_where q gs))
          (subst (λ x. Any P (answers_of x.response)) (sym is_s) a))
  | inr other ↦
      let rest = collected P q id gs s (ground (arith, other, f)) h a in
      elim (Bool-cases (q g)) [
        | inl kept ↦
            rw kept (Any-right P (answers_of g.response) (collect_inputs (select_where q gs)) rest)
        | inr dropped ↦ rw dropped rest
      ]
]
