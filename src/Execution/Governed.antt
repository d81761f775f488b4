-- ===== src/Execution/Governed.antt =====
-- executeProposal keeps the two-person rule.
use workforce_platform.Base.{ℕ, ◌&&◌, ◌==◌, refl, inl, inr, arith, Bool-cases, Option-cases}
use workforce_platform.Base.Rows.{find_where, update_if}
use workforce_platform.Schema.{Ident, Proposal, ProposalStatus, BusinessStatus, FailureReason, Db}
use workforce_platform.Errors.{Result, ok, err}
use workforce_platform.Tx.{pure, with_org}
use workforce_platform.Tx.Ensures.{
  Ensures, ensures-of, ensures-pure, ensures-bind, ensures-gets, ensures-query, ensures-exec,
  ensures-exec-then, with_org-keeps,
}
use workforce_platform.BusinessOperations.{move_business}
use workforce_platform.Proposals.{Digests}
use workforce_platform.Decisions.{set_status}
use workforce_platform.Decisions.Governed.{IsWeaker, IsGoverned-weaker}
use workforce_platform.Decisions.Keeping.{Gov, SameProposals, Gov-same, move_business-same}
use workforce_platform.Execution.Keeping.{
  Approved, Approved-same, Approved-status, Approved-attention, apply_effects-same, children-same,
}
use workforce_platform.Execution.{
  is_runnable, is_blocked, is_permitted, apply_effects, anything, attention_row, needs_attention,
  block_task, finish_task, enqueue_eligible_children, hold_back, run_effects, apply_if_permitted,
  apply_proposal, is_connector_error, set_aside, give_up, recover, execute_proposal,
}

module _ (h : Digests) (ids : ℕ → Ident) (proposal task : Ident) where
  -- From the last effect to the end of the transaction.
  finished : Db → Db
  finished d = enqueue_eligible_children task (
      finish_task task (
        set_status proposal anything ProposalStatus.done
          (move_business proposal BusinessStatus.dispatching BusinessStatus.verified d)))

  finished-Gov : (d : Db) → Approved proposal d → Gov (finished d)
  unfolding finished
  finished-Gov d a =
      Gov-same d3 (enqueue_eligible_children task d3) (children-same task d3)
        (Gov-same d2 d3 (record { proposals = refl; decisions = refl }) done.governed)
    where
      d1 : Db
      d1 = move_business proposal BusinessStatus.dispatching BusinessStatus.verified d

      d2 : Db
      d2 = set_status proposal anything ProposalStatus.done d1

      d3 : Db
      d3 = finish_task task d2

      done : Approved proposal d2
      done = Approved-status proposal anything ProposalStatus.done d1 refl (
          Approved-same proposal d d1
            (move_business-same proposal BusinessStatus.dispatching BusinessStatus.verified d) a)

  run_effects-Gov :
      (d : Db) → Approved proposal d → Ensures (run_effects h ids proposal task) d (λ _ d'. Gov d')
  unfolding run_effects finished
  run_effects-Gov d a = ensures-exec-then _ _ d (
      ensures-gets _ _ d1 (
        ensures-bind (λ _ d'. SameProposals d1 d') (apply_effects h ids 0 _) _ d1
          (apply_effects-same h d1 ids 0 _ d1 (record { proposals = refl; decisions = refl }))
          λ u d2 s. ensures-exec-then _ _ d2 (
            ensures-exec-then _ _ _ (
              ensures-exec-then _ _ _ (
                ensures-exec (λ _ d'. Gov d') _ _
                  (finished-Gov d2 (
                    Approved-same proposal d1 d2 s
                      (Approved-status proposal anything ProposalStatus.executing d refl a))))))))
    where
      d1 : Db
      d1 = set_status proposal anything ProposalStatus.executing d

  hold_back-Gov :
      (d : Db) → Approved proposal d → Ensures (hold_back proposal task) d (λ _ d'. Gov d')
  unfolding hold_back pure
  hold_back-Gov d a = ensures-of _ d (elim (Bool-cases (is_blocked task d)) [
    | inl waits ↦
        rw (waits, hold_back)
          (Gov-same d (block_task task d) (record { proposals = refl; decisions = refl })
            a.governed)
    | inr free ↦
        rw (free, hold_back)
          (Approved-attention proposal anything
            FailureReason.authorization_or_dependency_unavailable d a).governed
  ])

  apply_if_permitted-Gov :
      (d : Db)
      → Approved proposal d
      → Ensures (apply_if_permitted h ids proposal task) d (λ _ d'. Gov d')
  unfolding apply_if_permitted
  apply_if_permitted-Gov d a = ensures-of _ d (elim (Bool-cases (is_permitted proposal task d)) [
    | inl may ↦ rw (may, apply_if_permitted) (run_effects-Gov d a).holds
    | inr held ↦ rw (held, apply_if_permitted) (hold_back-Gov d a).holds
  ])

module _ (h : Digests) (ids : ℕ → Ident) (proposal : Ident) where
  apply_proposal-Gov : (d : Db) → Gov d → Ensures (apply_proposal h ids proposal) d (λ _ d'. Gov d')
  unfolding apply_proposal
  apply_proposal-Gov d v = ensures-query _ _ d λ p found. elim (Bool-cases (is_runnable p.status)) [
    | inl runs ↦ rw runs (
        apply_if_permitted-Gov h ids proposal p.task_id d
          (record { row = p; found = found; far = ground (arith, runs); governed = v }))
    | inr idle ↦ rw idle (ensures-pure tt d v)
  ]

-- Only an approved proposal is given up.
set_aside-Gov : (proposal task : Ident) (d : Db) → Gov d → Gov (set_aside proposal task d)
unfolding set_aside
set_aside-Gov proposal task d v =
    Gov-same d1 (set_aside proposal task d) (record { proposals = refl; decisions = refl })
      (IsGoverned-weaker flagged d.proposal_decisions d.proposals weaker v)
  where
    flagged : Proposal → Proposal
    flagged =
        update_if (λ p. p.id == proposal && is_runnable p.status)
          (attention_row FailureReason.invalid_or_stale_operation)

    d1 : Db
    d1 = needs_attention proposal is_runnable FailureReason.invalid_or_stale_operation d

    weaker : IsWeaker flagged
    weaker = record {
      id = λ p. ground arith;
      creator = λ p. ground arith;
      endorsement = λ p. ground arith;
      approval = λ p. ground arith;
    }

give_up-Gov : (proposal : Ident) (d : Db) → Gov d → Ensures (give_up proposal) d (λ _ d'. Gov d')
unfolding give_up pure
give_up-Gov proposal d v =
    ensures-of _ d
      (elim (Option-cases
        (find_where (λ p. p.id == proposal && is_runnable p.status) d.proposals)) [
          | inl gone ↦ rw (gone, give_up) v
          | inr (p, found) ↦ rw (found, give_up) (set_aside-Gov proposal p.task_id d v)
        ])

recover-Gov : (proposal : Ident) (r : Result (Unit {0}) × Db) → Gov r.1 → Gov (recover proposal r).1
recover-Gov proposal (ok _, d) v = v
recover-Gov proposal (err e, d) v = elim (Bool-cases (is_connector_error e)) [
  | inl refused ↦ rw refused (with_org-keeps Gov (give_up proposal) d v (give_up-Gov proposal d v))
  | inr other ↦ rw other v
]

pub execute_proposal-Gov :
    (h : Digests) (ids : ℕ → Ident) (proposal : Ident) (d : Db)
    → Gov d
    → Gov (execute_proposal h ids proposal d).1
unfolding execute_proposal
execute_proposal-Gov h ids proposal d v =
    recover-Gov proposal (with_org (apply_proposal h ids proposal) d) (
      with_org-keeps Gov (apply_proposal h ids proposal) d v
        (apply_proposal-Gov h ids proposal d v))
