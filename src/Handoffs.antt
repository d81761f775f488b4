-- ===== src/Handoffs.antt =====
-- Handoffs: createHandoff and the replies in internal/store/store.go, the reads of
-- internal/store/handoffs.go. `now` is the database clock, read once in a transaction; `id` is the
-- identifier that platform.NewID returns.
pub mod Invariant
pub mod Accepting
pub mod Keeping
pub mod HopLimit
pub mod Moving
pub mod Replies
use workforce_platform.Base.{
  ℕ, ◌+◌, Bool, true, false, not, ◌&&◌, ◌||◌, Option, none, some, List, [], ◌∷◌, ◌++◌, ◌==◌, leb,
  if◌then◌else◌,
}
use workforce_platform.Base.Rows.{
  find_row, find_where, count_where, select_where, set_row, update_where,
}
use workforce_platform.Schema.{
  Ident, Text, Time, Principal, Task, TaskStatus, Handoff, HandoffRole, HandoffState, owner,
  assignee, offered, accepted, declined, expired, cancelled, clarification_requested,
}
use workforce_platform.Errors.{
  Error, unique_violation, unsupported_handoff_role, only_owner_or_assignee_may_hand_off,
  recipient_inactive, handoff_hop_limit_reached, handoff_unavailable, stale_handoff,
  only_recipient_may_clarify, only_creator_may_cancel, only_recipient_may_reply,
}
use workforce_platform.Tx.{Tx, ◌>>=◌, ◌>>◌, pure, fail, gets, query_row, exec, refuse_if}

abbrev pub max_handoff_hops : ℕ
max_handoff_hops = 5

abbrev pub is_open : HandoffState → Bool
is_open offered = true
is_open clarification_requested = true
is_open _ = false

abbrev pub is_accepted : HandoffState → Bool
is_accepted accepted = true
is_accepted _ = false

abbrev pub is_owner_role : HandoffRole → Bool
is_owner_role owner = true
is_owner_role _ = false

abbrev pub is_supported_role : HandoffRole → Bool
is_supported_role owner = true
is_supported_role assignee = true
is_supported_role _ = false

-- An accepted transfer of ownership of the task.
abbrev pub is_hop : Ident → Handoff → Bool
is_hop task h = h.task_id == task && (is_owner_role h.role && is_accepted h.state)

abbrev pub hops : Ident → List Handoff → ℕ
hops task = count_where (is_hop task)

abbrev pub find_task : Ident → List Task → Option Task
find_task = find_row (λ t. t.id)

abbrev pub find_handoff : Ident → List Handoff → Option Handoff
find_handoff = find_row (λ h. h.id)

abbrev pub is_active_in : Option Principal → Bool
is_active_in none = false
is_active_in (some p) = p.active

-- The hop count that a new offer extends; only a transfer of ownership is counted and refused.
unfoldable pub hops_so_far : HandoffRole → Ident → Tx ℕ
hops_so_far owner task d =
    if leb max_handoff_hops (hops task d.handoffs)
    then fail handoff_hop_limit_reached d
    else pure (hops task d.handoffs) d
hops_so_far _ task d = pure 0 d

unfoldable pub insert_handoff : Handoff → Tx Handoff
insert_handoff h d = elim (find_handoff h.id d.handoffs) [
  | some _ ↦ fail unique_violation d
  | none ↦ pure h (record d { handoffs = d.handoffs ++ h ∷ [] })
]

abbrev pub new_offer : Ident → Time → Task → Ident → Ident → HandoffRole → Text → Time → ℕ → Handoff
new_offer id now t actor recipient role summary expires_at hop_depth = record {
  id = id;
  task_id = t.id;
  offered_task_version = t.version;
  recipient_id = recipient;
  role = role;
  summary = summary;
  state = offered;
  created_by = actor;
  created_at = now;
  expires_at = some expires_at;
  accepted_at = none;
  resolved_at = none;
  reason = 0;
  hop_depth = hop_depth;
}

unfoldable pub create_handoff :
    Ident → Time → Ident → Ident → Ident → HandoffRole → Text → Time → Tx Handoff
create_handoff id now task actor recipient role summary expires_at = do
  refuse_if (not (is_supported_role role)) unsupported_handoff_role
  t ← query_row (λ d. find_task task d.tasks)
  refuse_if (not (actor == t.owner_id) && not (actor == t.assignee_id))
      only_owner_or_assignee_may_hand_off
  active ← gets (λ d. is_active_in (find_row (λ p. p.id) recipient d.principals))
  refuse_if (not active) recipient_inactive
  hops ← hops_so_far role task
  insert_handoff (new_offer id now t actor recipient role summary expires_at (hops + 1))

-- expires_at is not null and expires_at <= clock_timestamp()
abbrev pub is_overdue : Time → Option Time → Bool
is_overdue now none = false
is_overdue now (some t) = leb t now

abbrev pub is_due : Time → Handoff → Bool
is_due now h = is_open h.state && is_overdue now h.expires_at

abbrev pub expire : Time → Handoff → Handoff
expire now h = record h { state = expired; resolved_at = some now }

abbrev pub expire_if_due : Time → Handoff → Handoff
expire_if_due now h = if is_due now h then expire now h else h

unfoldable pub expire_due_handoffs : Time → Ident → Tx (Unit {0})
expire_due_handoffs now id =
    exec (λ d. record d { handoffs = set_row (λ h. h.id) id (expire_if_due now) d.handoffs })

unfoldable pub set_holder : HandoffRole → Ident → Task → Task
set_holder owner actor t = record t { owner_id = actor; version = t.version + 1 }
set_holder _ actor t = record t { assignee_id = actor; version = t.version + 1 }

abbrev pub accept_row : Time → Handoff → Handoff
accept_row now h = record h { state = accepted; accepted_at = some now; resolved_at = some now }

unfoldable pub transfer : Time → Ident → Handoff → Tx (Unit {0})
transfer now actor h = do
  t ← query_row (λ d. find_task h.task_id d.tasks)
  refuse_if (not (h.created_by == t.owner_id) || not (t.version == h.offered_task_version))
      stale_handoff
  exec (λ d. record d { tasks = set_row (λ t. t.id) h.task_id (set_holder h.role actor) d.tasks })
  exec (λ d. record d { handoffs = set_row (λ h. h.id) h.id (accept_row now) d.handoffs })

-- An accepted offer is answered again with success and no change.
unfoldable pub accept_by_state : HandoffState → Time → Ident → Handoff → Tx (Unit {0})
accept_by_state accepted now actor h = pure tt
accept_by_state offered now actor h = transfer now actor h
accept_by_state clarification_requested now actor h = transfer now actor h
accept_by_state _ now actor h = fail handoff_unavailable

unfoldable pub accept_handoff : Time → Ident → Ident → Tx (Unit {0})
accept_handoff now id actor = do
  expire_due_handoffs now id
  h ← query_row (λ d. find_where (λ h. h.id == id && h.recipient_id == actor) d.handoffs)
  accept_by_state h.state now actor h

abbrev pub clarify_row : Text → Handoff → Handoff
clarify_row question h = record h { state = clarification_requested; reason = question }

abbrev pub resolve_row : HandoffState → Time → Text → Handoff → Handoff
resolve_row target now reason h = record h {
  state = target;
  resolved_at = some now;
  reason = reason;
}

-- What clarify, cancel and decline share: expiry, the offer, who may reply, and whether it is open.
unfoldable pub reply_to :
    Time → Ident → Ident → (Handoff → Ident) → Error → (Handoff → Handoff) → Tx (Unit {0})
reply_to now id actor party e change = do
  expire_due_handoffs now id
  h ← query_row (λ d. find_handoff id d.handoffs)
  refuse_if (not (party h == actor)) e
  refuse_if (not (is_open h.state)) handoff_unavailable
  exec (λ d. record d { handoffs = set_row (λ h. h.id) id change d.handoffs })

unfoldable pub clarify_handoff : Time → Ident → Ident → Text → Tx (Unit {0})
clarify_handoff now id actor question =
    reply_to now id actor (λ h. h.recipient_id) only_recipient_may_clarify (clarify_row question)

unfoldable pub cancel_handoff : Time → Ident → Ident → Text → Tx (Unit {0})
cancel_handoff now id actor reason =
    reply_to now id actor (λ h. h.created_by) only_creator_may_cancel
      (resolve_row cancelled now reason)

unfoldable pub recipient_resolve : Time → Ident → Ident → HandoffState → Text → Tx (Unit {0})
recipient_resolve now id actor target reason =
    reply_to now id actor (λ h. h.recipient_id) only_recipient_may_reply
      (resolve_row target now reason)

unfoldable pub decline_handoff : Time → Ident → Ident → Text → Tx (Unit {0})
decline_handoff now id actor reason = recipient_resolve now id actor declined reason

-- Both reads expire first.
abbrev pub is_live_task : Option Task → Bool
is_live_task none = false
is_live_task (some t) = elim t.status [
  | TaskStatus.done ↦ false
  | TaskStatus.cancelled ↦ false
  | _ ↦ true
]

abbrev pub is_party : Ident → Handoff → Bool
is_party actor h = h.created_by == actor || h.recipient_id == actor

abbrev pub is_listed : Ident → List Task → Handoff → Bool
is_listed actor tasks h =
    is_party actor h
    && (is_live_task (find_task h.task_id tasks) && (is_open h.state || is_accepted h.state))

unfoldable pub list_handoffs : Time → Ident → Tx (List Handoff)
list_handoffs now actor = do
  exec (λ d. record d { handoffs = update_where (is_due now) (expire now) d.handoffs })
  gets (λ d. select_where (is_listed actor d.tasks) d.handoffs)

unfoldable pub peek_handoff : Time → Ident → Ident → Tx Handoff
peek_handoff now id actor = do
  expire_due_handoffs now id
  query_row (λ d.
      find_where
        (λ h. h.id == id && (is_party actor h && is_live_task (find_task h.task_id d.tasks)))
        d.handoffs)
