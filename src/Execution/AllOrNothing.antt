-- ===== src/Execution/AllOrNothing.antt =====
-- executeProposal applies all effects of a proposal or none of them.
use workforce_platform.Base.{
  ℕ, true, false, ◌&&◌, some, List, [], ◌∷◌, ◌==◌, ◌≡◌, ◌⊎◌, refl, sym, ap, ◌∙◌, subst, inl, inr,
  arith, Bool-cases, Option-cases, if◌then◌else◌,
}
use workforce_platform.Base.Rows.{
  All, find_row, find_where, exists_where, update_if, select_where, find_row-map, find_row-key,
  All-mono,
}
use workforce_platform.Schema.{
  Ident, Proposal, ProposalStatus, BusinessStatus, Effect, proposal_execute, Db,
}
use workforce_platform.Errors.{Result, ok, err}
use workforce_platform.Tx.{◌>>=◌, pure, with_org, settle}
use workforce_platform.Tx.Ensures.{
  Ensures, Post, ensures-of, ensures-pure, ensures-bind, ensures-gets, ensures-query, ensures-exec,
  ensures-exec-then, with_org-keeps, ensures-both, ensures-if, ensures-weaken,
}
use workforce_platform.BusinessOperations.{find_proposal, move_business}
use workforce_platform.Proposals.{Digests}
use workforce_platform.Decisions.{set_status, enqueue}
use workforce_platform.Decisions.Keeping.{SameProposals}
use workforce_platform.Execution.Keeping.{apply_effects-same}
use workforce_platform.Execution.Completing.{is_open_effect, Within, selected, apply_effects-Within}
use workforce_platform.Execution.{
  is_runnable, is_blocked, is_permitted, apply_effects, anything, finish_task, enqueue_all,
  enqueue_eligible_children, hold_back, run_effects, apply_if_permitted, apply_proposal,
  is_connector_error, set_aside, give_up, recover, execute_proposal,
}

-- No record was written and no receipt.
pub record SameRecords (d e : Db) : Type 0 where
  pub records : e.simulator_records ≡ d.simulator_records
  pub receipts : e.receipts ≡ d.receipts

-- The proposal is done, and no effect of it is left.
pub record Completed (proposal : Ident) (d : Db) : Type 0 where
  pub row : Proposal
  pub found : find_proposal proposal d ≡ some row
  pub done : row.status ≡ ProposalStatus.done
  pub applied : All (λ e. is_open_effect proposal e ≡ false) d.effects

enqueue_all-effects : (ps : List Proposal) (d : Db) → (enqueue_all ps d).effects ≡ d.effects
unfolding enqueue_all
enqueue_all-effects [] d = refl
enqueue_all-effects (p ∷ ps) d = enqueue_all-effects ps (enqueue (proposal_execute p.id) d)

enqueue_all-proposals : (ps : List Proposal) (d : Db) → (enqueue_all ps d).proposals ≡ d.proposals
unfolding enqueue_all
enqueue_all-proposals [] d = refl
enqueue_all-proposals (p ∷ ps) d = enqueue_all-proposals ps (enqueue (proposal_execute p.id) d)

-- What a run of a proposal leaves: nothing written, or everything done with permission.
abbrev pub Outcome : Ident → Proposal → Db → Db → Type 0
Outcome proposal p d e =
    SameRecords d e
    ⊎ ((is_runnable p.status ≡ true)
        × (is_permitted proposal p.task_id d ≡ true)
        × Completed proposal e)

module _ (h : Digests) (ids : ℕ → Ident) (proposal : Ident) (task : Ident) where
  finished-Completed :
      (d : Db) (p : Proposal)
      → find_proposal proposal d ≡ some p
      → Within proposal [] d
      → Completed proposal (
          enqueue_eligible_children task (
            finish_task task (
              set_status proposal anything ProposalStatus.done
                (move_business proposal BusinessStatus.dispatching BusinessStatus.verified d))))
  unfolding move_business enqueue_eligible_children exists_where
  finished-Completed d p found w = record {
    row = record p { status = ProposalStatus.done };
    found =
        ap (find_row (λ p. p.id) proposal) (enqueue_all-proposals _ _)
        ∙ find_row-map (λ p. p.id) proposal
            (update_if (λ p. p.id == proposal && anything p.status)
              (λ p. record p { status = ProposalStatus.done }))
            (λ p. ground arith) d.proposals
        ∙ rw found (ground (arith, find_row-key (λ p. p.id) proposal d.proposals p found));
    done = refl;
    applied =
        subst (All (λ e. is_open_effect proposal e ≡ false)) (sym (enqueue_all-effects _ _))
          (All-mono _ _ (λ e f. ground (arith, f)) d.effects w);
  }

  run_effects-Completed :
      (d : Db) (p : Proposal)
      → find_proposal proposal d ≡ some p
      → Ensures (run_effects h ids proposal task) d (λ _ d'. Completed proposal d')
  unfolding run_effects
  run_effects-Completed d p found = ensures-exec-then _ _ d (
      ensures-gets _ _ d1 (
        ensures-bind (λ _ d2. SameProposals d1 d2 × Within proposal [] d2)
          (apply_effects h ids 0 pending) _ d1
          (ensures-both (λ _ d2. SameProposals d1 d2) (λ _ d2. Within proposal [] d2) _ d1
            (apply_effects-same h d1 ids 0 pending d1
              (record { proposals = refl; decisions = refl }))
            (apply_effects-Within h proposal ids 0 pending d1 (selected proposal d1.effects)))
          λ u d2 s. ensures-exec-then _ _ d2 (
            ensures-exec-then _ _ _ (
              ensures-exec-then _ _ _ (
                ensures-exec (λ _ d'. Completed proposal d') _ _
                  (finished-Completed d2 (started p)
                    (ap (find_row (λ p. p.id) proposal) s.0.proposals ∙ running) s.1))))))
    where
      d1 : Db
      d1 = set_status proposal anything ProposalStatus.executing d

      pending : List Effect
      pending = select_where (is_open_effect proposal) d1.effects

      started : Proposal → Proposal
      started =
          update_if (λ p. p.id == proposal && anything p.status)
            (λ p. record p { status = ProposalStatus.executing })

      running : find_proposal proposal d1 ≡ some (started p)
      running =
          find_row-map (λ p. p.id) proposal started (λ p. ground arith) d.proposals ∙ rw found refl

  hold_back-SameRecords : (d : Db) → Ensures (hold_back proposal task) d (λ _ d'. SameRecords d d')
  unfolding hold_back pure
  hold_back-SameRecords d = ensures-of _ d (elim (Bool-cases (is_blocked task d)) [
    | inl waits ↦ rw (waits, hold_back) (record { records = refl; receipts = refl })
    | inr free ↦ rw (free, hold_back) (record { records = refl; receipts = refl })
  ])

module _ (h : Digests) (ids : ℕ → Ident) (proposal : Ident) where
  apply_if_permitted-Outcome :
      (d : Db) (p : Proposal)
      → find_proposal proposal d ≡ some p
      → is_runnable p.status ≡ true
      → Ensures (apply_if_permitted h ids proposal p.task_id) d (λ _ e. Outcome proposal p d e)
  unfolding apply_if_permitted
  apply_if_permitted-Outcome d p found runs =
      ensures-of _ d (elim (Bool-cases (is_permitted proposal p.task_id d)) [
        | inl may ↦
            rw may
              (ensures-weaken (λ _ e. Completed proposal e) (λ _ e. Outcome proposal p d e)
                (run_effects h ids proposal p.task_id) d (λ u e c. inr (runs, may, c))
                (run_effects-Completed h ids proposal p.task_id d p found)).holds
        | inr held ↦
            rw held
              (ensures-weaken (λ _ e. SameRecords d e) (λ _ e. Outcome proposal p d e)
                (hold_back proposal p.task_id) d (λ u e c. inl c)
                (hold_back-SameRecords h ids proposal p.task_id d)).holds
      ])

  apply_proposal-Outcome :
      (d : Db) (p : Proposal)
      → find_proposal proposal d ≡ some p
      → Ensures (apply_proposal h ids proposal) d (λ _ e. Outcome proposal p d e)
  unfolding apply_proposal
  apply_proposal-Outcome d p found = ensures-query _ _ d λ q also.
      subst
        (λ p.
          Ensures
            (if is_runnable q.status then apply_if_permitted h ids proposal q.task_id else pure tt)
            d (λ _ e. Outcome proposal p d e))
        (same q also)
        (ensures-if (is_runnable q.status) _ _ d (λ runs. apply_if_permitted-Outcome d q also runs)
          (λ idle. ensures-pure tt d (inl (record { records = refl; receipts = refl }))))
    where
      same : (q : Proposal) → find_proposal proposal d ≡ some q → q ≡ p
      same q also = ground arith

  give_up-SameRecords : (d : Db) → Ensures (give_up proposal) d (λ _ e. SameRecords d e)
  unfolding give_up pure set_aside
  give_up-SameRecords d =
      ensures-of _ d
        (elim (Option-cases
          (find_where (λ p. p.id == proposal && is_runnable p.status) d.proposals)) [
            | inl gone ↦ rw (gone, give_up) (record { records = refl; receipts = refl })
            | inr (p, found) ↦ rw (found, give_up) (record { records = refl; receipts = refl })
          ])

  recover-Outcome :
      (p : Proposal) (d : Db) (r : Result (Unit {0} × Db))
      → Post (λ _ e. Outcome proposal p d e) r
      → Outcome proposal p d (recover proposal (settle d r)).1
  recover-Outcome p d (ok (u, e)) v = v
  recover-Outcome p d (err e) v = elim (Bool-cases (is_connector_error e)) [
    | inl refused ↦ rw refused (
        inl (
          with_org-keeps (SameRecords d) (give_up proposal) d
            (record { records = refl; receipts = refl }) (give_up-SameRecords d)))
    | inr other ↦ rw other (inl (record { records = refl; receipts = refl }))
  ]

  -- However executeProposal ends, either it wrote no simulator record and no receipt, or the proposal
  -- was approved or executing and was permitted to run, and now it is done with no effect of it left to
  -- apply.
  pub execute_all_or_nothing :
      (d : Db) (p : Proposal)
      → find_proposal proposal d ≡ some p
      → Outcome proposal p d (execute_proposal h ids proposal d).1
  unfolding execute_proposal with_org
  execute_all_or_nothing d p found =
      recover-Outcome p d (apply_proposal h ids proposal d) (apply_proposal-Outcome d p found).holds

  -- A proposal that is neither approved nor executing, a done one for instance, is left alone: the job
  -- may run again and again.
  execute_idle :
      (d : Db) (p : Proposal)
      → find_proposal proposal d ≡ some p
      → is_runnable p.status ≡ false
      → execute_proposal h ids proposal d ≡ (ok tt, d)
  unfolding execute_proposal with_org apply_proposal ◌>>=◌ pure
  execute_idle d p found idle = rw (found, idle) refl
