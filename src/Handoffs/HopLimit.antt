-- ===== src/Handoffs/HopLimit.antt =====
-- Histories: the calls on handoffs in any order, between any other transactions that leave handoffs
-- alone and let no task disappear or fall back in version.
use workforce_platform.Base.{◌≤◌, [], ◌≡◌, subst, sym, arith}
use workforce_platform.Base.Rows.{count_where}
use workforce_platform.Schema.{Ident, Time, Text, Db, HandoffRole}
use workforce_platform.Tx.{with_org}
use workforce_platform.Tx.Ensures.{with_org-keeps}
use workforce_platform.Handoffs.{
  max_handoff_hops, hops, create_handoff, accept_handoff, decline_handoff, clarify_handoff,
  cancel_handoff, list_handoffs, peek_handoff,
}
use workforce_platform.Handoffs.Invariant.{Inv, Grows, Inv-Grows}
use workforce_platform.Handoffs.Keeping.{
  IsLimited, create-IsLimited, accept-IsLimited, decline-IsLimited, clarify-IsLimited,
  cancel-IsLimited, list-IsLimited, peek-IsLimited,
}

pub data Call : Type 0 where
  creates : Ident → Time → Ident → Ident → Ident → HandoffRole → Text → Time → Call
  accepts : Time → Ident → Ident → Call
  declines clarifies cancels : Time → Ident → Ident → Text → Call
  lists : Time → Ident → Call
  peeks : Time → Ident → Ident → Call

-- The database after the call's transaction, committed or rolled back.
unfoldable pub step : Db → Call → Db
step d (creates id now task actor recipient role summary expires_at) =
    (with_org (create_handoff id now task actor recipient role summary expires_at) d).1
step d (accepts now id actor) = (with_org (accept_handoff now id actor) d).1
step d (declines now id actor reason) = (with_org (decline_handoff now id actor reason) d).1
step d (clarifies now id actor question) = (with_org (clarify_handoff now id actor question) d).1
step d (cancels now id actor reason) = (with_org (cancel_handoff now id actor reason) d).1
step d (lists now actor) = (with_org (list_handoffs now actor) d).1
step d (peeks now id actor) = (with_org (peek_handoff now id actor) d).1

-- The histories from `d`.
pub data Reach (d : Db) : Db → Type 0 where
  start : Reach d d
  call : {e : Db} → Reach d e → (c : Call) → Reach d (step e c)
  elsewhere :
      {e e' : Db} → Reach d e → Grows e.tasks e'.tasks → e'.handoffs ≡ e.handoffs → Reach d e'

step-IsLimited : (d : Db) (c : Call) → IsLimited d → IsLimited (step d c)
unfolding step
step-IsLimited d (creates id now task actor recipient role summary expires_at) v =
    with_org-keeps IsLimited _ d v
      (create-IsLimited id now task actor recipient role summary expires_at d v)
step-IsLimited d (accepts now id actor) v =
    with_org-keeps IsLimited _ d v (accept-IsLimited now id actor d v)
step-IsLimited d (declines now id actor reason) v =
    with_org-keeps IsLimited _ d v (decline-IsLimited now id actor reason d v)
step-IsLimited d (clarifies now id actor question) v =
    with_org-keeps IsLimited _ d v (clarify-IsLimited now id actor question d v)
step-IsLimited d (cancels now id actor reason) v =
    with_org-keeps IsLimited _ d v (cancel-IsLimited now id actor reason d v)
step-IsLimited d (lists now actor) v = with_org-keeps IsLimited _ d v (list-IsLimited now d v actor)
step-IsLimited d (peeks now id actor) v =
    with_org-keeps IsLimited _ d v (peek-IsLimited now d v id actor)

Reach-IsLimited : {d e : Db} → IsLimited d → Reach d e → IsLimited e
Reach-IsLimited v start = v
Reach-IsLimited v (call {e} r c) = step-IsLimited e c (Reach-IsLimited v r)
Reach-IsLimited v (elsewhere {e} {e'} r grows same) =
    subst (Inv e'.tasks) (sym same)
      (Inv-Grows e.tasks e'.tasks e.handoffs grows (Reach-IsLimited v r))

none-IsLimited : (d : Db) → d.handoffs ≡ [] → IsLimited d
unfolding count_where
none-IsLimited d e =
    subst (Inv d.tasks) (sym e) (record { keyed = tt; bounded = λ k. omega arith; offers = tt })

-- From a database without handoffs, after any history of calls on handoffs and of other transactions
-- that leave handoffs alone and keep every task at no lower version, no task counts more than
-- `max_handoff_hops` accepted transfers of ownership.
pub hops-le-max :
    (d e : Db) (task : Ident)
    → d.handoffs ≡ []
    → Reach d e
    → hops task e.handoffs ≤ max_handoff_hops
hops-le-max d e task empty r = (Reach-IsLimited (none-IsLimited d empty) r).bounded task
