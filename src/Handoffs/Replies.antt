-- ===== src/Handoffs/Replies.antt =====
-- Who may accept an offer, and what acceptance does.
use mathlib.Core.Option
use workforce_platform.Base.{
  true, false, none, some, List, [], ◌∷◌, ◌++◌, ◌≡◌, ◌≢◌, ◌↔◌, refl, sym, ap, ◌∙◌, subst, arith,
  inl, inr, ◌==◌, Bool-cases, Option-cases, if◌then◌else◌, ◌&&◌,
}
use workforce_platform.Base.Rows.{
  IsKeyed, find_where, set_row, update_if, find_row-map, find_row-key, IsKeyed-map, IsKeyed-append,
  find_row-append,
}
use workforce_platform.Base.Keys.{find_where_key, set_row_other}
use workforce_platform.Handoffs.Moving.{IsMoved, IsAccepted, set_holder-IsMoved}
use workforce_platform.Handoffs.Accepting.{set_holder-id}
use workforce_platform.Schema.{Ident, Time, Text, Db, Task, Handoff, HandoffRole}
use workforce_platform.Errors.{Result, ok, err, not_found}
use workforce_platform.Tx.{◌>>=◌, row_of, next, fail}
use workforce_platform.Handoffs.{
  is_open, is_accepted, is_overdue, find_task, find_handoff, expire_if_due, accept_row, set_holder,
  transfer, accept_by_state, accept_handoff, create_handoff, hops_so_far, insert_handoff,
  expire_due_handoffs,
}

abbrev pub Keyed : List Handoff → Type 0
Keyed = IsKeyed (λ h. h.id)

abbrev pub aged : Time → Ident → List Handoff → List Handoff
aged now id = set_row (λ h. h.id) id (expire_if_due now)

find_aged :
    (now : Time) (id actor : Ident) (all : List Handoff) (h : Handoff)
    → Keyed all
    → find_handoff id all ≡ some h
    → find_where (λ x. x.id == id && x.recipient_id == actor) (aged now id all)
      ≡ (if h.recipient_id == actor then some (expire_if_due now h) else none)
find_aged now id actor all h u e =
    find_where_key (λ h. h.id) id (λ x. x.recipient_id == actor) (aged now id all) aged_row
      (IsKeyed-map (λ h. h.id) change (λ x. ground arith) all u)
      (find_row-map (λ h. h.id) id change (λ x. ground arith) all ∙ ap (Option.map change) e)
    ∙ ground (arith, find_row-key (λ h. h.id) id all h)
  where
    change : Handoff → Handoff
    change = update_if (λ h. h.id == id) (expire_if_due now)

    aged_row : Handoff
    aged_row = change h

abbrev aged_db : Time → Ident → Db → Db
aged_db now id d = record d { handoffs = aged now id d.handoffs }

accept_handoff_lem :
    (now : Time) (id actor : Ident) (d : Db) (h : Handoff)
    → Keyed d.handoffs
    → find_handoff id d.handoffs ≡ some h
    → accept_handoff now id actor d ≡ (
        if h.recipient_id == actor
        then accept_by_state
            (expire_if_due now h).state
            now
            actor
            (expire_if_due now h)
            (aged_db now id d)
        else err not_found)
unfolding accept_handoff expire_due_handoffs ◌>>=◌
accept_handoff_lem now id actor d h u e = elim (Bool-cases (h.recipient_id == actor)) [
  | inl mine ↦ rw mine (rw (at_row mine, row_of, next))
  | inr other ↦ rw other (rw (at_row' other, row_of, next))
]
  where
    at_row :
        (h.recipient_id == actor) ≡ true
        → find_where (λ x. x.id == id && x.recipient_id == actor) (aged now id d.handoffs)
          ≡ some (expire_if_due now h)
    at_row m = find_aged now id actor d.handoffs h u e ∙ rw m refl

    at_row' :
        (h.recipient_id == actor) ≡ false
        → find_where (λ x. x.id == id && x.recipient_id == actor) (aged now id d.handoffs) ≡ none
    at_row' m = find_aged now id actor d.handoffs h u e ∙ rw m refl

-- What the task must look like for the offer to be taken.
abbrev pub IsCurrent : Db → Handoff → Type 0
IsCurrent d h =
    (t : Task) × (find_task h.task_id d.tasks ≡ some t)
    × (h.created_by ≡ t.owner_id)
    × (h.offered_task_version ≡ t.version)

-- The transaction returns no error.
abbrev pub Commits : Result (Unit {0} × Db) → Type 0
Commits r = (d : Db) × (r ≡ ok (tt, d))

transferred : Time → Ident → Handoff → Db → Db
transferred now actor h d = record d {
  tasks = set_row (λ t. t.id) h.task_id (set_holder h.role actor) d.tasks;
  handoffs = set_row (λ h. h.id) h.id (accept_row now) d.handoffs;
}

module _ (now : Time) (actor : Ident) (h : Handoff) (d : Db) where
  transfer-eq-ok : IsCurrent d h → transfer now actor h d ≡ ok (tt, transferred now actor h d)
  unfolding transfer transferred ◌>>=◌
  transfer-eq-ok (t, e, o, v) = ground arith

  IsCurrent-transfer : (e : Db) → transfer now actor h d ≡ ok (tt, e) → IsCurrent d h
  unfolding transfer ◌>>=◌
  IsCurrent-transfer e r = elim (Option-cases (find_task h.task_id d.tasks)) [
    | inl none_such ↦ ground arith
    | inr (t, found) ↦ (t, found, ground arith, ground arith)
  ]

abbrev pub IsAcceptable : Time → Ident → Db → Handoff → Type 0
IsAcceptable now actor d h =
    (h.recipient_id ≡ actor)
    × (is_open h.state ≡ true)
    × (is_overdue now h.expires_at ≡ false)
    × IsCurrent d h

module _ (now : Time) (id actor : Ident) (d : Db) (h : Handoff) (u : Keyed d.handoffs)
    (found : find_handoff id d.handoffs ≡ some h) (waits : is_accepted h.state ≡ false) where
  not_due : is_open h.state ≡ true → is_overdue now h.expires_at ≡ false → expire_if_due now h ≡ h
  not_due o f = ground arith

  -- An acceptance that commits went through `transfer`, on an offer that was open and not overdue.
  transfer_of_accept :
      (e : Db)
      → accept_handoff now id actor d ≡ ok (tt, e)
      → (h.recipient_id ≡ actor)
        × (is_open h.state ≡ true)
        × (is_overdue now h.expires_at ≡ false)
        × (transfer now actor h (aged_db now id d) ≡ ok (tt, e))
  unfolding accept_by_state fail
  transfer_of_accept e r = ground (arith, accept_handoff_lem now id actor d h u found, not_due)

  IsAcceptable-accept :
      (e : Db) → accept_handoff now id actor d ≡ ok (tt, e) → IsAcceptable now actor d h
  IsAcceptable-accept e r =
      let (mine, o, f, via) = transfer_of_accept e r in
      (mine, o, f, IsCurrent-transfer now actor h (aged_db now id d) e via)

  accept-eq-ok :
      IsAcceptable now actor d h
      → accept_handoff now id actor d ≡ ok (tt, transferred now actor h (aged_db now id d))
  unfolding accept_by_state
  accept-eq-ok (mine, o, f, c) = ground (
    arith,
    accept_handoff_lem now id actor d h u found,
    not_due,
    transfer-eq-ok now actor h (aged_db now id d) c,
  )

  -- An offer that was not accepted before is accepted exactly when the caller is its recipient, it is
  -- still open and not overdue, and its task still has the owner who made it and the version at which
  -- it was made.
  pub accept_iff :
      ((e : Db) × (accept_handoff now id actor d ≡ ok (tt, e))) ↔ IsAcceptable now actor d h
  accept_iff = (λ (e, r). IsAcceptable-accept e r, λ a. (_, accept-eq-ok a))

  -- An acceptance that commits, of an offer that was not accepted before, makes the caller the owner of
  -- the task if the offer is of ownership, and else its assignee, counts its version up by one and
  -- changes nothing else of it; it leaves the other tasks and offers as they were, and marks the offer
  -- accepted and resolved now, otherwise the same.
  pub accept_moves :
      (e : Db)
      → accept_handoff now id actor d ≡ ok (tt, e)
      → (t t' : Task) × (find_task h.task_id d.tasks ≡ some t)
        × (find_task h.task_id e.tasks ≡ some t')
        × IsMoved h.role actor t t'
        × ((k : Ident) → k ≢ h.task_id → find_task k e.tasks ≡ find_task k d.tasks)
        × (h' : Handoff) × (find_handoff id e.handoffs ≡ some h')
        × IsAccepted now h h'
        × ((k : Ident) → k ≢ id → find_handoff k e.handoffs ≡ find_handoff k d.handoffs)
  unfolding transferred
  accept_moves e r =
      let a = IsAcceptable-accept e r in
      let (t, is_t, _, _) = a.3 in
      (
        t,
        set_holder h.role actor t,
        is_t,
        subst (λ e. find_task h.task_id e.tasks ≡ some (set_holder h.role actor t)) (same e r a)
            (find_task-transferred t is_t),
        set_holder-IsMoved h.role actor t,
        λ k other.
            subst (λ e. find_task k e.tasks ≡ find_task k d.tasks) (same e r a)
              (set_row_other (λ t. t.id) h.task_id k (set_holder h.role actor) d.tasks
                (λ y. set_holder-id h actor y) other),
        accept_row now h,
        subst (λ e. find_handoff id e.handoffs ≡ some (accept_row now h)) (same e r a)
            (find_handoff-transferred a.1 a.2),
        (refl, refl, refl, refl, refl, refl, refl, refl, refl, refl, refl, refl, refl, refl),
        λ k other.
            subst (λ e. find_handoff k e.handoffs ≡ find_handoff k d.handoffs) (same e r a)
              (set_row_other (λ h. h.id) h.id k (accept_row now) (aged now id d.handoffs)
                  (λ y. refl) (λ same. other (same ∙ open_id))
                ∙ set_row_other (λ h. h.id) id k (expire_if_due now) d.handoffs (λ y. ground arith)
                    other),
      )
    where
      open_id : h.id ≡ id
      open_id = find_row-key (λ h. h.id) id d.handoffs h found

      same :
          (e : Db)
          → accept_handoff now id actor d ≡ ok (tt, e)
          → IsAcceptable now actor d h
          → transferred now actor h (aged_db now id d) ≡ e
      same e r a = cc (accept-eq-ok a)

      find_task-transferred :
          (t : Task)
          → find_task h.task_id d.tasks ≡ some t
          → find_task h.task_id (transferred now actor h (aged_db now id d)).tasks
            ≡ some (set_holder h.role actor t)
      find_task-transferred t is_t =
          find_row-map (λ t. t.id) h.task_id
            (update_if (λ t. t.id == h.task_id) (set_holder h.role actor))
            (λ y. ground (arith, set_holder-id h actor y)) d.tasks
          ∙ ground (arith, find_row-key (λ t. t.id) h.task_id d.tasks t)

      find_handoff-transferred :
          is_open h.state ≡ true
          → is_overdue now h.expires_at ≡ false
          → find_handoff id (transferred now actor h (aged_db now id d)).handoffs
            ≡ some (accept_row now h)
      find_handoff-transferred o f =
          find_row-map (λ h. h.id) id (update_if (λ x. x.id == h.id) (accept_row now))
            (λ y. ground arith) (aged now id d.handoffs)
          ∙ ap (Option.map (update_if (λ x. x.id == h.id) (accept_row now))) (
              find_row-map (λ h. h.id) id (update_if (λ x. x.id == id) (expire_if_due now))
                (λ y. ground arith) d.handoffs)
          ∙ ground (arith, open_id, not_due)

-- What a committed createHandoff has checked and written.
module _ (id : Ident) (now : Time) (task actor recipient : Ident) (role : HandoffRole)
    (summary : Text) (expires_at : Time) (d e : Db) (h : Handoff) (t : Task)
    (is_t : find_task task d.tasks ≡ some t)
    (made : create_handoff id now task actor recipient role summary expires_at d ≡ ok (h, e)) where
  create_handoff-eq-ok :
      (h.id ≡ id)
      × (h.task_id ≡ t.id)
      × (h.created_by ≡ actor)
      × (is_accepted h.state ≡ false)
      × (find_handoff id d.handoffs ≡ none)
      × (e ≡ record d { handoffs = d.handoffs ++ h ∷ [] })
  unfolding create_handoff hops_so_far insert_handoff ◌>>=◌
  create_handoff-eq-ok = ground arith

  created_row : Keyed d.handoffs → (Keyed e.handoffs) × (find_handoff id e.handoffs ≡ some h)
  created_row u =
      let c = create_handoff-eq-ok in
      subst (λ e. Keyed e.handoffs × (find_handoff id e.handoffs ≡ some h)) (sym c.5)
        (
          IsKeyed-append (λ h. h.id) d.handoffs h u
              (subst (λ k. find_handoff k d.handoffs ≡ none) (sym c.0) c.4),
          find_row-append (λ h. h.id) id d.handoffs h ∙ ground (arith, c),
        )

  -- An offer that createHandoff makes for a caller who is not the task's owner is not accepted on the
  -- database that it leaves, whoever replies and whenever.
  pub assignee_offer_never_accepted :
      Keyed d.handoffs
      → actor ≢ t.owner_id
      → (later : Time) (who : Ident) (f : Db) → accept_handoff later id who e ≢ ok (tt, f)
  assignee_offer_never_accepted u differs later who f r =
      let c = create_handoff-eq-ok in
      let (u', found) = created_row u in
      let a = IsAcceptable-accept later id who e h u' found c.3 f r in
      let (t', is_t', owned, _) = a.3 in
      let of_task : h.task_id ≡ task = c.1 ∙ find_row-key (λ t. t.id) task d.tasks t is_t in
      let still : find_task h.task_id e.tasks ≡ some t =
        subst (λ k. find_task k e.tasks ≡ some t) (sym of_task)
          (subst (λ ts. find_task task ts ≡ some t) (sym (ap (λ (d : Db). d.tasks) c.5)) is_t) in
      differs (cc (c.2, owned, is_t', still))
