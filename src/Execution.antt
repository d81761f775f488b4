-- ===== src/Execution.antt =====
-- The worker's side of internal/store/store.go: applyProposal, executeProposal and
-- enqueueEligibleChildren. An operation is applied to the simulator's records, read back and receipted.
pub mod Effects
pub mod Keeping
pub mod Governed
pub mod Completing
pub mod AllOrNothing
use Prim.Native.String.{String}
use workforce_platform.Base.{
  ℕ, suc, ◌+◌, Bool, true, false, not, ◌&&◌, ◌||◌, Option, none, some, List, [], ◌∷◌, ◌++◌, ◌==◌,
  if◌then◌else◌,
}
use workforce_platform.Base.Rows.{
  find_row, find_where, exists_where, update_where, set_row, select_where,
}
use workforce_platform.Schema.{
  Ident, Text, Principal, Role, Task, TaskStatus, TaskDependency, Operation, Proposal,
  ProposalStatus, ProposalDecision, DecisionKind, Effect, EffectState, Receipt, SimulatorRecord,
  BusinessStatus, FailureReason, Job, proposal_execute, Db,
}
use workforce_platform.Schema.Values.{Fields}
use workforce_platform.Errors.{
  Error, Result, ok, err, unique_violation, unknown_integration, readback_failed, err_stale,
  err_invalid, err_unknown,
}
use workforce_platform.Tx.{Tx, ◌>>=◌, ◌>>◌, pure, fail, gets, query_row, exec, refuse_if, with_org}
use workforce_platform.Tasks.{find_task, is_done, is_terminal}
use workforce_platform.Connectors.{Record, Connector, prepare, get}
use workforce_platform.BusinessOperations.{find_proposal, move_business}
use workforce_platform.Proposals.{Digests, lift, find_record, as_record}
use workforce_platform.Decisions.{
  is_endorse, is_approve, may_approve, active_principal, set_status, enqueue, is_cancelled,
}
unfoldable pub use Effects.{
  is_authorized, operation_of, known, write_record, store_record, verify_row, verify_effect,
  insert_receipt, apply_effect, apply_effects,
}

abbrev pub is_approved : ProposalStatus → Bool
is_approved ProposalStatus.approved = true
is_approved _ = false

abbrev pub is_runnable : ProposalStatus → Bool
is_runnable ProposalStatus.approved = true
is_runnable ProposalStatus.executing = true
is_runnable _ = false

abbrev pub task_done : Ident → List Task → Bool
task_done id tasks = exists_where (λ t. t.id == id && is_done t.status) tasks

-- A dependency on a task of the table that is not done.
abbrev pub blocks : Ident → List Task → TaskDependency → Bool
blocks task tasks x =
    x.task_id == task && exists_where (λ t. t.id == x.parent_id && not (is_done t.status)) tasks

abbrev pub is_blocked : Ident → Db → Bool
is_blocked task d = exists_where (blocks task d.tasks) d.task_dependencies

abbrev pub is_active : Option Principal → Bool
is_active none = false
is_active (some p) = true

abbrev pub approves : Option Principal → Bool
approves none = false
approves (some p) = may_approve p.role

-- The task is live and its owner active, an approver who is still active and may still approve has
-- approved, somebody still active has endorsed, and no dependency is open.
unfoldable pub is_permitted : Ident → Ident → Db → Bool
is_permitted proposal task d =
    exists_where
      (λ t.
        t.id == task && (not (is_terminal t.status) && is_active (active_principal t.owner_id d)))
      d.tasks
    && (exists_where
          (λ x.
            x.proposal_id == proposal
            && (is_approve x.kind && approves (active_principal x.actor_id d)))
          d.proposal_decisions
        && (exists_where
              (λ x.
                x.proposal_id == proposal
                && (is_endorse x.kind && is_active (active_principal x.actor_id d)))
              d.proposal_decisions
            && not (is_blocked task d)))

abbrev pub block_row : Task → Task
block_row t = record t { status = TaskStatus.blocked }

abbrev pub finish_row : Task → Task
finish_row t = record t { status = TaskStatus.done; version = t.version + 1 }

abbrev pub block_task : Ident → Db → Db
block_task task d = record d {
  tasks = update_where (λ t. t.id == task && not (is_terminal t.status)) block_row d.tasks;
}

abbrev pub finish_task : Ident → Db → Db
finish_task task d = record d {
  tasks = update_where (λ t. t.id == task && not (is_cancelled t.status)) finish_row d.tasks;
}

abbrev pub attention_row : FailureReason → Proposal → Proposal
attention_row reason p = record p {
  status = ProposalStatus.needs_attention;
  failure_reason = reason;
}

-- UPDATE proposals SET status='needs_attention' ...
abbrev pub needs_attention : Ident → (ProposalStatus → Bool) → FailureReason → Db → Db
needs_attention id from reason d = record d {
  proposals = update_where (λ p. p.id == id && from p.status) (attention_row reason) d.proposals;
}

-- enqueueEligibleChildren: a job for each approved proposal of a live child whose parents are done.
abbrev pub is_eligible : Ident → Db → Proposal → Bool
is_eligible parent d p =
    is_approved p.status
    && (exists_where (λ x. x.parent_id == parent && x.task_id == p.task_id) d.task_dependencies
        && (exists_where (λ t. t.id == p.task_id && not (is_terminal t.status)) d.tasks
            && not (is_blocked p.task_id d)))

unfoldable pub enqueue_all : List Proposal → Db → Db
enqueue_all [] d = d
enqueue_all (p ∷ ps) d = enqueue_all ps (enqueue (proposal_execute p.id) d)

unfoldable pub enqueue_eligible_children : Ident → Db → Db
enqueue_eligible_children parent d = enqueue_all (select_where (is_eligible parent d) d.proposals) d

abbrev pub anything : ProposalStatus → Bool
anything _ = true

-- A proposal that may not run: blocked by a dependency, or in need of attention.
unfoldable pub hold_back : Ident → Ident → Tx (Unit {0})
hold_back proposal task d =
    if is_blocked task d
    then pure tt (block_task task d)
    else pure tt
        (needs_attention proposal anything FailureReason.authorization_or_dependency_unavailable d)

module _ (h : Digests) where
  unfoldable pub run_effects : (ℕ → Ident) → Ident → Ident → Tx (Unit {0})
  run_effects ids proposal task = do
    exec (set_status proposal anything ProposalStatus.executing)
    pending ←
        gets (λ d. select_where (λ e. e.proposal_id == proposal && is_authorized e.state) d.effects)
    apply_effects h ids 0 pending
    exec (move_business proposal BusinessStatus.dispatching BusinessStatus.verified)
    exec (set_status proposal anything ProposalStatus.done)
    exec (finish_task task)
    exec (enqueue_eligible_children task)

  unfoldable pub apply_if_permitted : (ℕ → Ident) → Ident → Ident → Tx (Unit {0})
  apply_if_permitted ids proposal task d =
      if is_permitted proposal task d
      then run_effects ids proposal task d
      else hold_back proposal task d

  -- applyProposal; `ids` are the identifiers of the receipts.
  unfoldable pub apply_proposal : (ℕ → Ident) → Ident → Tx (Unit {0})
  apply_proposal ids proposal = do
    p ← query_row (find_proposal proposal)
    if is_runnable p.status then apply_if_permitted ids proposal p.task_id else pure tt

abbrev pub is_connector_error : Error → Bool
is_connector_error err_stale = true
is_connector_error err_invalid = true
is_connector_error err_unknown = true
is_connector_error _ = false

abbrev pub block_and_count : Task → Task
block_and_count t = record t { status = TaskStatus.blocked; version = t.version + 1 }

abbrev pub flag_row : Effect → Effect
flag_row e = record e { state = EffectState.needs_attention }

-- What executeProposal writes when a connector refused.
unfoldable pub set_aside : Ident → Ident → Db → Db
set_aside proposal task d =
    let d' = needs_attention proposal is_runnable FailureReason.invalid_or_stale_operation d in
    record d' {
      tasks =
          update_where (λ t. t.id == task && not (is_terminal t.status)) block_and_count d'.tasks;
      effects =
          update_where (λ e. e.proposal_id == proposal && is_authorized e.state) flag_row
            d'.effects;
    }

-- The second transaction of executeProposal.
unfoldable pub give_up : Ident → Tx (Unit {0})
give_up proposal d = elim (find_where (λ p. p.id == proposal && is_runnable p.status) d.proposals) [
  | none ↦ pure tt d
  | some p ↦ pure tt (set_aside proposal p.task_id d)
]

abbrev pub recover : Ident → Result (Unit {0}) × Db → Result (Unit {0}) × Db
recover proposal (ok _, d) = (ok tt, d)
recover proposal (err e, d) =
    if is_connector_error e then with_org (give_up proposal) d else (err e, d)

-- executeProposal: two transactions.
unfoldable pub execute_proposal : Digests → (ℕ → Ident) → Ident → Db → Result (Unit {0}) × Db
execute_proposal h ids proposal d = recover proposal (with_org (apply_proposal h ids proposal) d)
