-- ===== src/Tests/Handoffs.antt =====
-- Handoffs, run and witnessed.
use workforce_platform.Base.{◌≤◌, some, [], ◌∷◌, ◌≡◌, ◌≢◌, ◌↔◌, refl, arith}
use workforce_platform.Base.Rows.{find_where, count_where}
use workforce_platform.Schema.{Ident, Handoff, HandoffRole, Task, TaskStatus, Db}
use workforce_platform.Errors.{ok}
use workforce_platform.Tx.{◌>>=◌, with_org}
use workforce_platform.Handoffs.{
  hops, max_handoff_hops, create_handoff, accept_handoff, hops_so_far, insert_handoff,
  expire_due_handoffs, accept_by_state, transfer, set_holder, find_task, find_handoff, accept_row,
  new_offer,
}
use workforce_platform.Handoffs.HopLimit.{start, call, creates, accepts, step, hops-le-max}
use workforce_platform.Handoffs.Moving.{IsMoved, IsAccepted}
use workforce_platform.Handoffs.Replies.{
  IsAcceptable, accept_iff, accept_moves, assignee_offer_never_accepted,
}
use workforce_platform.Tests.Samples.{office, offer, offering, task_of}

abbrev taken : Db
taken = step (step office (creates 50 5 10 1 3 HandoffRole.owner 8 100)) (accepts 6 50 3)

taken_hops : hops 10 taken.handoffs ≡ 1
unfolding step create_handoff accept_handoff hops_so_far insert_handoff expire_due_handoffs
    accept_by_state transfer set_holder with_org find_where count_where ◌>>=◌
taken_hops = refl

hops-le-max_example : hops 10 taken.handoffs ≤ max_handoff_hops
hops-le-max_example =
    hops-le-max office taken 10 refl
      (call (call start (creates 50 5 10 1 3 HandoffRole.owner 8 100)) (accepts 6 50 3))

accept_iff_example :
    ((e : Db) × (accept_handoff 6 50 3 offering ≡ ok (tt, e))) ↔ IsAcceptable 6 3 offering offer
unfolding find_where
accept_iff_example = accept_iff 6 50 3 offering offer (refl, tt) refl refl

abbrev accepted_db : Db
accepted_db = record offering {
  tasks =
      record (task_of 10 TaskStatus.ready) { owner_id = 3; version = 2 }
      ∷ task_of 11 TaskStatus.ready
      ∷ task_of 12 TaskStatus.ready
      ∷ [];
  handoffs = accept_row 6 offer ∷ [];
}

accept_moves_example :
    (t t' : Task) × (find_task 10 offering.tasks ≡ some t)
    × (find_task 10 accepted_db.tasks ≡ some t')
    × IsMoved HandoffRole.owner 3 t t'
    × ((k : Ident) → k ≢ 10 → find_task k accepted_db.tasks ≡ find_task k offering.tasks)
    × (h' : Handoff) × (find_handoff 50 accepted_db.handoffs ≡ some h')
    × IsAccepted 6 offer h'
    × ((k : Ident)
        → k ≢ 50
        → find_handoff k accepted_db.handoffs ≡ find_handoff k offering.handoffs)
unfolding accept_handoff expire_due_handoffs accept_by_state transfer set_holder find_where ◌>>=◌
accept_moves_example = accept_moves 6 50 3 offering offer (refl, tt) refl refl accepted_db refl

abbrev by_assignee : Handoff
by_assignee = new_offer 51 5 (task_of 10 TaskStatus.ready) 2 3 HandoffRole.assignee 8 100 1

assignee_offer_never_accepted_example :
    accept_handoff 6 51 3 (record office { handoffs = by_assignee ∷ [] }) ≢ ok (tt, office)
unfolding create_handoff hops_so_far insert_handoff find_where ◌>>=◌
assignee_offer_never_accepted_example =
    assignee_offer_never_accepted 51 5 10 2 3 HandoffRole.assignee 8 100 office
      (record office { handoffs = by_assignee ∷ [] }) by_assignee (task_of 10 TaskStatus.ready) refl
      refl tt (λ e. omega arith) 6 3 office
