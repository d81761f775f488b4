-- ===== src/Decisions.antt =====
-- Decide and ListDecisions of internal/store/store.go: a proposal is endorsed by its requester and
-- approved or rejected by somebody else who may approve.
pub mod Governed
pub mod Keeping
use workforce_platform.Base.{
  ℕ, suc, Bool, true, false, not, ◌&&◌, ◌||◌, Option, none, some, List, [], ◌∷◌, ◌++◌, ◌==◌,
  if◌then◌else◌,
}
use workforce_platform.Base.Rows.{
  find_row, find_where, exists_where, update_where, set_row, select_where,
}
use workforce_platform.Schema.{
  Ident, Text, Principal, Role, Task, TaskStatus, Operation, Proposal, ProposalStatus,
  ProposalDecision, DecisionKind, endorse, approve, reject, invalid, Effect, EffectState,
  BusinessOperation, BusinessStatus, Job, proposal_execute, Db,
}
use workforce_platform.Errors.{
  Error, unique_violation, cancelled_task, identity_unavailable, stale_proposal,
  only_requester_may_endorse, separate_approver_required, invalid_decision,
  proposal_not_pending_approval,
}
use workforce_platform.Tx.{Tx, ◌>>=◌, ◌>>◌, pure, fail, gets, query_row, exec, refuse_if}
use workforce_platform.Tasks.{find_task}
use workforce_platform.BusinessOperations.{find_proposal, find_business, release, move_business}

abbrev pub is_endorse : DecisionKind → Bool
is_endorse endorse = true
is_endorse _ = false

abbrev pub is_approve : DecisionKind → Bool
is_approve approve = true
is_approve _ = false

abbrev pub is_verdict : DecisionKind → Bool
is_verdict approve = true
is_verdict reject = true
is_verdict _ = false

abbrev pub is_invalid : DecisionKind → Bool
is_invalid (invalid _) = true
is_invalid _ = false

abbrev pub same_kind : DecisionKind → DecisionKind → Bool
same_kind endorse endorse = true
same_kind approve approve = true
same_kind reject reject = true
same_kind _ _ = false

abbrev pub may_approve : Role → Bool
may_approve Role.approver = true
may_approve Role.admin = true
may_approve _ = false

abbrev pub is_pending_endorsement : ProposalStatus → Bool
is_pending_endorsement ProposalStatus.pending_endorsement = true
is_pending_endorsement _ = false

abbrev pub is_pending_approval : ProposalStatus → Bool
is_pending_approval ProposalStatus.pending_approval = true
is_pending_approval _ = false

abbrev pub is_pending : ProposalStatus → Bool
is_pending s = is_pending_endorsement s || is_pending_approval s

-- The row of an active principal.
abbrev pub active_principal : Ident → Db → Option Principal
active_principal actor d = find_where (λ p. p.id == actor && p.active) d.principals

abbrev pub or_revoked : Option Principal → Tx Principal
or_revoked none = fail identity_unavailable
or_revoked (some p) = pure p

abbrev pub set_status : Ident → (ProposalStatus → Bool) → ProposalStatus → Db → Db
set_status id from to d = record d {
  proposals =
      update_where (λ p. p.id == id && from p.status) (λ p. record p { status = to }) d.proposals;
}

abbrev pub effect_of : Ident → Ident → Operation → Option Ident → Effect
effect_of id proposal op business = record {
  id = id;
  proposal_id = proposal;
  operation_id = op.id;
  integration = op.integration;
  action = op.action;
  target_id = op.target_id;
  expected_version = op.expected_version;
  payload = op.payload;
  state = EffectState.authorized;
  result = none;
  business_operation_id = business;
}

abbrev pub business_id : Option BusinessOperation → Option Ident
business_id none = none
business_id (some b) = some b.id

abbrev pub same_business : Option Ident → Option Ident → Bool
same_business (some a) (some b) = a == b
same_business _ _ = false

-- The unique indices of the table effects.
abbrev pub clashes : Effect → Effect → Bool
clashes new e =
    e.id == new.id
    || ((e.proposal_id == new.proposal_id && e.operation_id == new.operation_id)
        || (same_business e.business_operation_id new.business_operation_id
            && e.operation_id == new.operation_id))

-- insert ... on conflict do nothing
unfoldable pub insert_effect : Effect → Db → Db
insert_effect new d =
    if exists_where (clashes new) d.effects then d else record d { effects = d.effects ++ new ∷ [] }

-- insert into effects ... select ... from jsonb_array_elements(p.operations): the n-th operation
-- draws the n-th identifier of gen_random_uuid.
unfoldable pub authorize : (ℕ → Ident) → ℕ → Ident → List Operation → Db → Db
authorize ids n proposal [] d = d
authorize ids n proposal (op ∷ ops) d =
    authorize ids (suc n) proposal ops
      (insert_effect (effect_of (ids n) proposal op (business_id (find_business op d))) d)

-- riverInsertTx and enqueueAgentRunTx
abbrev pub enqueue : Job → Db → Db
enqueue job d = record d { jobs = d.jobs ++ job ∷ [] }

abbrev pub is_cancelled : TaskStatus → Bool
is_cancelled TaskStatus.cancelled = true
is_cancelled _ = false

unfoldable pub approve_proposal : (ℕ → Ident) → Proposal → Tx (Unit {0})
approve_proposal ids p = do
  t ← query_row (λ d. find_task p.task_id d.tasks)
  refuse_if (is_cancelled t.status) cancelled_task
  refuse_if (not (is_pending_approval p.status)) proposal_not_pending_approval
  exec (set_status p.id is_pending_approval ProposalStatus.approved)
  exec (authorize ids 0 p.id p.operations)
  exec (move_business p.id BusinessStatus.reserved BusinessStatus.dispatching)
  exec (enqueue (proposal_execute p.id))

unfoldable pub reject_proposal : Proposal → Tx (Unit {0})
reject_proposal p = do exec (set_status p.id is_pending ProposalStatus.rejected); release p.id

unfoldable pub carry_out : (ℕ → Ident) → DecisionKind → Proposal → Tx (Unit {0})
carry_out ids endorse p =
    exec (set_status p.id is_pending_endorsement ProposalStatus.pending_approval)
carry_out ids reject p = reject_proposal p
carry_out ids approve p = approve_proposal ids p
carry_out ids (invalid _) p = pure tt

abbrev pub decided : ProposalDecision → ProposalDecision → Bool
decided new x =
    x.proposal_id == new.proposal_id && (x.actor_id == new.actor_id && same_kind x.kind new.kind)

-- on conflict (org_id,proposal_id,actor_id,kind) do nothing: a repeated decision ends with success.
unfoldable pub record_decision : ProposalDecision → Tx (Unit {0}) → Tx (Unit {0})
record_decision new rest d =
    if exists_where (decided new) d.proposal_decisions
    then pure tt d
    else if exists_where (λ x. x.id == new.id) d.proposal_decisions
    then fail unique_violation d
    else rest (record d { proposal_decisions = d.proposal_decisions ++ new ∷ [] })

abbrev pub decision_row : Ident → Ident → Ident → DecisionKind → ℕ → Text → Text → ProposalDecision
decision_row id proposal actor kind revision digest reason = record {
  id = id;
  proposal_id = proposal;
  actor_id = actor;
  kind = kind;
  revision = revision;
  digest = digest;
  reason = reason;
}

-- Decide; `ids` are those of gen_random_uuid, `id` that of platform.NewID.
unfoldable pub decide :
    Ident → (ℕ → Ident) → Ident → Ident → DecisionKind → ℕ → Text → Text → Tx (Unit {0})
decide id ids proposal actor kind revision digest reason = do
  found ← gets (active_principal actor)
  who ← or_revoked found
  p ← query_row (find_proposal proposal)
  refuse_if (not (p.revision == revision) || not (p.digest == digest)) stale_proposal
  refuse_if
      (is_endorse kind && (not (actor == p.created_by) || not (is_pending_endorsement p.status)))
      only_requester_may_endorse
  refuse_if (is_verdict kind && (actor == p.created_by || not (may_approve who.role)))
      separate_approver_required
  refuse_if (is_invalid kind) invalid_decision
  record_decision (decision_row id proposal actor kind revision digest reason)
      (carry_out ids kind p)

-- What waits for the actor: proposals of live tasks that he may endorse or approve.
abbrev pub is_waiting_task : Option Task → Bool
is_waiting_task none = false
is_waiting_task (some t) = elim t.status [
  | TaskStatus.done ↦ false
  | TaskStatus.cancelled ↦ false
  | _ ↦ true
]

abbrev pub awaits : Ident → Role → List Task → Proposal → Bool
awaits actor role tasks p =
    is_waiting_task (find_task p.task_id tasks)
    && ((is_pending_endorsement p.status && p.created_by == actor)
        || (is_pending_approval p.status && (not (p.created_by == actor) && may_approve role)))

unfoldable pub list_decisions : Ident → Role → Tx (List Proposal)
list_decisions actor role = gets (λ d. select_where (awaits actor role d.tasks) d.proposals)
