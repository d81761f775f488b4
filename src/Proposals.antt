-- ===== src/Proposals.antt =====
-- Proposals in internal/store/store.go: createProposalTx, CreateProposal, ListProposals, GetProposal,
-- Decide and ListDecisions. `Digests` stands for SHA-256 over JSON (digest, operationFingerprint).
pub mod Keeping
use Prim.Native.String.{String}
use text.Mathlib.Text.{◌==◌ as str_eq}
use workforce_platform.Base.{
  ℕ, suc, ◌+◌, Bool, true, false, not, ◌&&◌, ◌||◌, Option, none, some, List, [], ◌∷◌, ◌++◌, ◌==◌,
  ltb, if◌then◌else◌,
}
use workforce_platform.Base.Rows.{
  find_row, find_where, exists_where, update_where, set_row, select_where,
}
use workforce_platform.Schema.{
  Ident, Text, Time, Principal, Role, Task, Operation, Proposal, ProposalStatus, ProposalDecision,
  DecisionKind, endorse, approve, reject, invalid, Effect, EffectState, SimulatorRecord,
  BusinessOperation, BusinessStatus, Origin, FailureReason, Job, proposal_execute, Db,
}
use workforce_platform.Schema.Values.{Fields}
use workforce_platform.Errors.{
  Error, Result, ok, err, unique_violation, terminal_task, cancelled_task,
  only_task_owner_may_propose, invalid_operation, stale_record, run_scoped_business_key,
  identity_unavailable, stale_proposal, only_requester_may_endorse, separate_approver_required,
  invalid_decision, proposal_not_pending_approval,
}
use workforce_platform.Tx.{Tx, ◌>>=◌, ◌>>◌, pure, fail, gets, query_row, exec, refuse_if}
use workforce_platform.Connectors.{Record, Connector, validate, prepare, get}
use workforce_platform.Tasks.{is_terminal, find_task}
use workforce_platform.BusinessOperations.{
  find_proposal, find_business, reserve, release, move_business,
}

pub record Digests : Type 0 where
  pub of_operations : List Operation → Text
  pub of_operation : Operation → Text
  pub of_data : Fields → Text

-- Whether the run's identifier occurs in a business key: strings.Contains on their texts.
abbrev pub Contains : Type 0
Contains = List ℕ → Ident → Bool

-- A failed call ends the transaction with its error.
module _ {A : Type 0} where
  abbrev pub lift : Result A → Tx A
  lift (ok a) d = ok (a, d)
  lift (err e) d = err e

-- The connector that an operation names; an unknown one, or one that refuses it, is invalid.
abbrev pub connector_for : Operation → Option Connector → Result Connector
connector_for op none = err invalid_operation
connector_for op (some c) = elim (validate c op) [ ok _ ↦ ok c | err _ ↦ err invalid_operation ]

abbrev pub is_complete : Operation → Bool
is_complete op =
    not (str_eq op.integration "")
    && (not (str_eq op.action "") && (not (op.target_id == 0) && not (op.expected_version == 0)))

abbrev pub as_record : SimulatorRecord → Record
as_record r = record { id = r.id; version = r.version; fields = r.fields }

abbrev pub find_record : Ident → Db → Option SimulatorRecord
find_record id d = find_row (λ r. r.id) id d.simulator_records

-- One round of the loop over the operations of a draft.
unfoldable pub check_operation : Contains → Ident → Operation → Tx (Unit {0})
check_operation contains run op = do
  refuse_if (not (is_complete op)) invalid_operation
  refuse_if (not (run == 0) && contains op.business_key run) run_scoped_business_key
  c ← lift (connector_for op (get op.integration))
  r ← query_row (find_record op.target_id)
  refuse_if (not (op.expected_version == r.version)) stale_record
  next ← lift (prepare c (as_record r) op)
  pure tt

unfoldable pub check_operations : Contains → Ident → List Operation → Tx (Unit {0})
check_operations contains run [] = pure tt
check_operations contains run (op ∷ ops) = do
  check_operation contains run op
  check_operations contains run ops

-- An operation with no identifier gets one.
abbrev pub named : (ℕ → Ident) → ℕ → Operation → Operation
named ids n op = if op.id == 0 then record op { id = ids n } else op

unfoldable pub name_operations : (ℕ → Ident) → ℕ → List Operation → List Operation
name_operations ids n [] = []
name_operations ids n (op ∷ ops) = named ids n op ∷ name_operations ids (suc n) ops

-- coalesce(max(revision),0)
unfoldable pub last_revision : Ident → List Proposal → ℕ
last_revision task [] = 0
last_revision task (p ∷ ps) =
    let rest = last_revision task ps in
    if p.task_id == task && ltb rest p.revision then p.revision else rest

abbrev pub is_supersedable : ProposalStatus → Bool
is_supersedable ProposalStatus.pending_endorsement = true
is_supersedable ProposalStatus.pending_approval = true
is_supersedable ProposalStatus.approved = true
is_supersedable _ = false

abbrev pub supersede_row : Proposal → Proposal
supersede_row p = record p { status = ProposalStatus.superseded }

unfoldable pub supersede : Ident → Db → Db
supersede task d = record d {
  proposals =
      update_where (λ p. p.task_id == task && is_supersedable p.status) supersede_row d.proposals;
}

unfoldable pub insert_proposal : Proposal → Tx Proposal
insert_proposal p d = elim (find_proposal p.id d) [
  | some _ ↦ fail unique_violation d
  | none ↦ pure p (record d { proposals = d.proposals ++ p ∷ [] })
]

-- Which identifiers platform.NewID returns: the proposal's, the operations', the reservations'.
pub record NewIds : Type 0 where
  pub proposal : Ident
  pub operations : ℕ → Ident
  pub reservations : ℕ → Ident

abbrev pub new_proposal :
    Digests → NewIds → Time → Ident → Ident → Text → Origin → Ident → ℕ → List Operation → Proposal
new_proposal h ids now task actor summary origin run revision ops = record {
  id = ids.proposal;
  task_id = task;
  revision = revision;
  digest = h.of_operations ops;
  status = ProposalStatus.pending_endorsement;
  summary = summary;
  operations = ops;
  created_by = actor;
  created_at = now;
  failure_reason = FailureReason.no_failure;
  origin = origin;
  origin_run_id = run;
}

module _ (h : Digests) (contains : Contains) where
  -- createProposalTx. The loop names and checks the operations one after the other; a failed check
  -- ends the transaction, so it does not matter that all are named first here.
  unfoldable pub create_proposal_tx :
      NewIds → Time → Ident → Ident → Text → Origin → Ident → List Operation → Tx Proposal
  create_proposal_tx ids now task actor summary origin run drafted = do
    t ← query_row (λ d. find_task task d.tasks)
    refuse_if (not (t.owner_id == actor)) only_task_owner_may_propose
    refuse_if (is_terminal t.status) terminal_task
    last ← gets (λ d. last_revision task d.proposals)
    check_operations contains run (name_operations ids.operations 0 drafted)
    exec (supersede task)
    p ← insert_proposal (
        new_proposal h ids now task actor summary origin run (last + 1)
          (name_operations ids.operations 0 drafted))
    reserve h.of_operation ids.reservations 0 ids.proposal
        (name_operations ids.operations 0 drafted)
    pure p

  -- CreateProposal
  unfoldable pub create_proposal :
      NewIds → Time → Ident → Ident → Text → List Operation → Tx Proposal
  create_proposal ids now task actor summary ops =
      create_proposal_tx ids now task actor summary Origin.human 0 ops

unfoldable pub list_proposals : Tx (List Proposal)
list_proposals = gets (λ d. d.proposals)

unfoldable pub get_proposal : Ident → Tx Proposal
get_proposal id = query_row (find_proposal id)
