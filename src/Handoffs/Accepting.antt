-- ===== src/Handoffs/Accepting.antt =====
-- Acceptance keeps the bound: it moves the task's version, so every other offer of that task is stale.
use mathlib.Core.Option
use workforce_platform.Base.{
  ◌+◌, ◌≤◌, true, some, List, ◌≡◌, sym, ap, ◌∙◌, arith, ◌==◌, if◌then◌else◌,
}
use workforce_platform.Base.Rows.{
  set_row, update_if, find_row-map, IsKeyed-map, All-map, find_row-key, All-find,
}
use workforce_platform.Base.Keys.{count_where-set_row}
use workforce_platform.Schema.{Ident, Time, Task, Handoff}
use workforce_platform.Handoffs.{
  max_handoff_hops, is_open, is_owner_role, is_hop, hops, find_task, find_handoff, set_holder,
  accept_row,
}
use workforce_platform.Handoffs.Invariant.{OfferFits, Inv}

pub set_holder-id : (h : Handoff) (actor : Ident) (t : Task) → (set_holder h.role actor t).id ≡ t.id
unfolding set_holder
set_holder-id h actor t = ground arith

set_holder-version :
    (h : Handoff) (actor : Ident) (t : Task) → (set_holder h.role actor t).version ≡ t.version + 1
unfolding set_holder
set_holder-version h actor t = ground arith

module _ (tasks : List Task) (all : List Handoff) (h : Handoff) (t : Task) (now : Time)
    (actor : Ident) (this : find_handoff h.id all ≡ some h)
    (of_task : find_task h.task_id tasks ≡ some t) (current : h.offered_task_version ≡ t.version)
    (waits : is_open h.state ≡ true) (v : Inv tasks all) where
  abbrev pub moved : List Task
  moved = set_row (λ t. t.id) h.task_id (set_holder h.role actor) tasks

  abbrev pub taken : List Handoff
  taken = set_row (λ h. h.id) h.id (accept_row now) all

  this_fits : OfferFits tasks all h
  this_fits = All-find (OfferFits tasks all) (λ x. x.id == h.id) all h v.offers this

  hops-taken :
      (k : Ident)
      → hops k taken + (if is_hop k h then 1 else 0)
        ≡ hops k all + (if is_hop k (accept_row now h) then 1 else 0)
  hops-taken k = count_where-set_row (λ h. h.id) (is_hop k) h.id (accept_row now) all h v.keyed this

  same_task : this_fits.task ≡ t
  same_task = cc (this_fits.found, of_task)

  below_limit : is_owner_role h.role ≡ true → hops h.task_id all + 1 ≤ max_handoff_hops
  below_limit r =
      omega
        (arith, this_fits.below waits r (current ∙ ap (λ (t : Task). t.version) (sym same_task)))

  taken_bounded : (k : Ident) → hops k taken ≤ max_handoff_hops
  taken_bounded k = ground (arith, hops-taken k, v.bounded k, below_limit)

  find_task-moved :
      (k : Ident) (x : Task)
      → find_task k tasks ≡ some x
      → find_task k moved ≡ some (if x.id == h.task_id then set_holder h.role actor x else x)
  find_task-moved k x e =
      find_row-map (λ t. t.id) k (update_if (λ t. t.id == h.task_id) (set_holder h.role actor))
        (λ y. ground (arith, set_holder-id h actor y)) tasks
      ∙ ap (Option.map (update_if (λ t. t.id == h.task_id) (set_holder h.role actor))) e

  -- Another task's offers see the same task and the same count; those of this task are behind.
  keep :
      (x : Handoff)
      → OfferFits tasks all x
      → OfferFits moved taken (update_if (λ x. x.id == h.id) (accept_row now) x)
  keep x f = record {
    task = if f.task.id == h.task_id then set_holder h.role actor f.task else f.task;
    found = ground (arith, find_task-moved x.task_id f.task f.found);
    reached = ground (arith, f.reached, set_holder-version h actor f.task);
    below = λ o r e. ground (
      arith,
      f.below,
      f.reached,
      f.found,
      find_row-key (λ t. t.id) x.task_id tasks f.task,
      set_holder-version h actor f.task,
      hops-taken x.task_id,
    );
  }

  pub Inv-accept : Inv moved taken
  Inv-accept = record {
    keyed =
        IsKeyed-map (λ h. h.id) (update_if (λ x. x.id == h.id) (accept_row now)) (λ x. ground arith)
          all v.keyed;
    bounded = taken_bounded;
    offers =
        All-map (OfferFits tasks all) (OfferFits moved taken)
          (update_if (λ x. x.id == h.id) (accept_row now)) keep all v.offers;
  }
