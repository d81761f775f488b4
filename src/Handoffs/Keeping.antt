-- ===== src/Handoffs/Keeping.antt =====
-- Each operation of store.go and handoffs.go on handoffs keeps the bound on transfers.
use workforce_platform.Base.{
  ◌+◌, ◌<◌, Bool, true, false, not, some, ◌≡◌, refl, sym, ap, subst, arith, inl, inr, ◌==◌,
  Bool-cases, Option-cases, leb,
}
use workforce_platform.Base.Rows.{set_row, update_if, find_row-key}
use workforce_platform.Base.Keys.{set_row_at, find_where_row}
use workforce_platform.Schema.{
  Ident, Time, Text, Db, Task, Handoff, HandoffRole, HandoffState, owner, offered, accepted,
  declined, cancelled, clarification_requested,
}
use workforce_platform.Errors.{Error, handoff_unavailable}
use workforce_platform.Tx.{pure, fail}
use workforce_platform.Tx.Ensures.{
  Ensures, ensures-of, ensures-pure, ensures-fail, ensures-bind, ensures-gets, ensures-query,
  ensures-refuse, ensures-exec, ensures-exec-then, ensures-got, ensures-row,
}
use workforce_platform.Handoffs.{
  max_handoff_hops, is_open, is_accepted, is_owner_role, hops, find_task, find_handoff,
  expire_if_due, clarify_row, resolve_row, hops_so_far, insert_handoff, new_offer, transfer,
  accept_by_state, reply_to, create_handoff, accept_handoff, clarify_handoff, cancel_handoff,
  recipient_resolve, decline_handoff, list_handoffs, peek_handoff, expire_due_handoffs,
}
use workforce_platform.Handoffs.Invariant.{Inv, IsQuiet, Inv-quiet, Inv-append}
use workforce_platform.Handoffs.Accepting.{Inv-accept}

abbrev pub IsLimited : Db → Type 0
IsLimited d = Inv d.tasks d.handoffs

expire-IsQuiet : (now : Time) (p : Handoff → Bool) → IsQuiet (update_if p (expire_if_due now))
expire-IsQuiet now p = record {
  id = λ h. ground arith;
  task = λ h. ground arith;
  offered = λ h. ground arith;
  role = λ h. ground arith;
  accepts = λ h. ground arith;
  opens = λ h. ground arith;
}

pub expire-IsLimited :
    (now : Time) (id : Ident) (d : Db)
    → IsLimited d
    → Ensures (expire_due_handoffs now id) d (λ _ d'. IsLimited d')
unfolding expire_due_handoffs
expire-IsLimited now id d v =
    ensures-exec (λ _ d'. IsLimited d') _ d
      (Inv-quiet d.tasks d.handoffs (update_if (λ h. h.id == id) (expire_if_due now))
        (expire-IsQuiet now (λ h. h.id == id)) v)

insert-IsLimited :
    (h : Handoff) (t : Task) (d : Db)
    → find_task h.task_id d.tasks ≡ some t
    → h.offered_task_version ≡ t.version
    → is_accepted h.state ≡ false
    → (is_owner_role h.role ≡ true → hops h.task_id d.handoffs < max_handoff_hops)
    → IsLimited d
    → Ensures (insert_handoff h) d (λ _ d'. IsLimited d')
unfolding insert_handoff fail pure
insert-IsLimited h t d found at_version waits below v =
    ensures-of (insert_handoff h) d (elim (Option-cases (find_handoff h.id d.handoffs)) [
      | inl e ↦
          rw (e, insert_handoff)
            (Inv-append d.tasks d.handoffs h t e found at_version waits below v)
      | inr (x, e) ↦ rw (e, insert_handoff) tt
    ])

hops_so_far_lem :
    (role : HandoffRole) (task : Ident) (d : Db)
    → Ensures
        (hops_so_far role task)
        d
        (λ n d'. (d' ≡ d) × (is_owner_role role ≡ true → hops task d.handoffs < max_handoff_hops))
unfolding hops_so_far fail pure
hops_so_far_lem owner task d =
    ensures-of (hops_so_far owner task) d
      (elim (Bool-cases (leb max_handoff_hops (hops task d.handoffs))) [
        | inl full ↦ rw full tt
        | inr free ↦ rw free (refl, λ _. ground arith)
      ])
hops_so_far_lem _ task d = ensures-of _ d (refl, λ e. cc)

pub create-IsLimited :
    (id : Ident) (now : Time) (task actor recipient : Ident) (role : HandoffRole) (summary : Text)
    (expires_at : Time) (d : Db)
    → IsLimited d
    → Ensures
        (create_handoff id now task actor recipient role summary expires_at)
        d
        (λ _ d'. IsLimited d')
unfolding create_handoff
create-IsLimited id now task actor recipient role summary expires_at d v =
    ensures-refuse _ _ _ d λ _. ensures-query _ _ d λ t found. ensures-refuse _ _ _ d λ _.
      ensures-gets _ _ d (
        ensures-refuse _ _ _ d λ _.
          ensures-bind _ (hops_so_far role task) _ d (hops_so_far_lem role task d)
            λ n d' (same, below).
              let h = new_offer id now t actor recipient role summary expires_at (n + 1) in
              let is_task = find_row-key (λ t. t.id) task d.tasks t found in
              subst (λ d'. Ensures (insert_handoff h) d' (λ _ d'. IsLimited d')) (sym same)
                (insert-IsLimited h t d
                  (subst (λ k. find_task k d.tasks ≡ some t) (sym is_task) found) refl refl
                  (subst (λ k. is_owner_role role ≡ true → hops k d.handoffs < max_handoff_hops)
                    (sym is_task) below)
                  v))

transfer-IsLimited :
    (now : Time) (actor : Ident) (h : Handoff) (d : Db)
    → find_handoff h.id d.handoffs ≡ some h
    → is_open h.state ≡ true
    → IsLimited d
    → Ensures (transfer now actor h) d (λ _ d'. IsLimited d')
unfolding transfer
transfer-IsLimited now actor h d this waits v = ensures-query _ _ d λ t of_task.
    ensures-refuse _ _ _ d λ fresh. ensures-exec-then _ _ d (
      ensures-exec (λ _ d'. IsLimited d') _ _
        (Inv-accept d.tasks d.handoffs h t now actor this of_task (ground arith) waits v))

accept_by_state-IsLimited :
    (s : HandoffState) (now : Time) (actor : Ident) (h : Handoff) (d : Db)
    → h.state ≡ s
    → find_handoff h.id d.handoffs ≡ some h
    → IsLimited d
    → Ensures (accept_by_state s now actor h) d (λ _ d'. IsLimited d')
unfolding accept_by_state
accept_by_state-IsLimited accepted now actor h d e this v = ensures-pure tt d v
accept_by_state-IsLimited offered now actor h d e this v =
    transfer-IsLimited now actor h d this (ap is_open e) v
accept_by_state-IsLimited clarification_requested now actor h d e this v =
    transfer-IsLimited now actor h d this (ap is_open e) v
accept_by_state-IsLimited _ now actor h d e this v = ensures-fail handoff_unavailable d

pub accept-IsLimited :
    (now : Time) (id actor : Ident) (d : Db)
    → IsLimited d
    → Ensures (accept_handoff now id actor) d (λ _ d'. IsLimited d')
unfolding accept_handoff
accept-IsLimited now id actor d v =
    ensures-bind (λ _ d'. IsLimited d') (expire_due_handoffs now id) _ d
      (expire-IsLimited now id d v)
      λ _ d' v'. ensures-query _ _ d' λ h found.
        let (this, _) =
          find_where_row (λ h. h.id) id (λ h. h.recipient_id == actor) d'.handoffs h v'.keyed
            found in
        accept_by_state-IsLimited h.state now actor h d' refl
          (subst (λ k. find_handoff k d'.handoffs ≡ some h)
            (sym (find_row-key (λ h. h.id) id d'.handoffs h this)) this)
          v'

-- What a reply may do to an open offer.
pub record IsReply (change : Handoff → Handoff) : Type 0 where
  pub id : (h : Handoff) → (change h).id ≡ h.id
  pub task : (h : Handoff) → (change h).task_id ≡ h.task_id
  pub offered : (h : Handoff) → (change h).offered_task_version ≡ h.offered_task_version
  pub role : (h : Handoff) → (change h).role ≡ h.role
  pub declines : (h : Handoff) → is_accepted (change h).state ≡ false

abbrev if_open : (Handoff → Handoff) → Handoff → Handoff
if_open change = update_if (λ h. is_open h.state) change

if_open-IsQuiet :
    (change : Handoff → Handoff) (p : Handoff → Bool)
    → IsReply change
    → IsQuiet (update_if p (if_open change))
if_open-IsQuiet change p c = record {
  id = λ h. ground (arith, c.id h);
  task = λ h. ground (arith, c.task h);
  offered = λ h. ground (arith, c.offered h);
  role = λ h. ground (arith, c.role h);
  accepts = λ h. ground (arith, c.declines h);
  opens = λ h. ground arith;
}

pub reply-IsLimited :
    (now : Time) (id actor : Ident) (party : Handoff → Ident) (e : Error)
    (change : Handoff → Handoff) (d : Db)
    → IsReply change
    → IsLimited d
    → Ensures (reply_to now id actor party e change) d (λ _ d'. IsLimited d')
unfolding reply_to
reply-IsLimited now id actor party e change d c v =
    ensures-bind (λ _ d'. IsLimited d') (expire_due_handoffs now id) _ d
      (expire-IsLimited now id d v)
      λ _ d' v'. ensures-query _ _ d' λ h found. ensures-refuse _ _ _ d' λ _.
        ensures-refuse _ _ _ d' λ waits.
          ensures-exec (λ _ d'. IsLimited d') _ d'
            (subst (Inv d'.tasks) (sym (only_open d' h found waits v')) (
              Inv-quiet d'.tasks d'.handoffs (update_if (λ h. h.id == id) (if_open change))
                (if_open-IsQuiet change (λ h. h.id == id) c) v'))
  where
    only_open :
        (d' : Db) (h : Handoff)
        → find_handoff id d'.handoffs ≡ some h
        → not (is_open h.state) ≡ false
        → IsLimited d'
        → set_row (λ h. h.id) id change d'.handoffs
          ≡ set_row (λ h. h.id) id (if_open change) d'.handoffs
    only_open d' h found waits v' =
        set_row_at (λ h. h.id) id change (if_open change) d'.handoffs h v'.keyed found
          (ground arith)

clarify-IsReply : (question : Text) → IsReply (clarify_row question)
clarify-IsReply question = record {
  id = λ h. refl;
  task = λ h. refl;
  offered = λ h. refl;
  role = λ h. refl;
  declines = λ h. refl;
}

resolve-IsReply :
    (target : HandoffState) (now : Time) (reason : Text)
    → is_accepted target ≡ false
    → IsReply (resolve_row target now reason)
resolve-IsReply target now reason e = record {
  id = λ h. refl;
  task = λ h. refl;
  offered = λ h. refl;
  role = λ h. refl;
  declines = λ h. e;
}

module _ (now : Time) (id actor : Ident) (words : Text) (d : Db) (v : IsLimited d) where
  pub clarify-IsLimited : Ensures (clarify_handoff now id actor words) d (λ _ d'. IsLimited d')
  unfolding clarify_handoff
  clarify-IsLimited = reply-IsLimited now id actor _ _ _ d (clarify-IsReply words) v

  pub cancel-IsLimited : Ensures (cancel_handoff now id actor words) d (λ _ d'. IsLimited d')
  unfolding cancel_handoff
  cancel-IsLimited =
      reply-IsLimited now id actor _ _ _ d (resolve-IsReply cancelled now words refl) v

  pub decline-IsLimited : Ensures (decline_handoff now id actor words) d (λ _ d'. IsLimited d')
  unfolding decline_handoff recipient_resolve
  decline-IsLimited =
      reply-IsLimited now id actor _ _ _ d (resolve-IsReply declined now words refl) v

module _ (now : Time) (d : Db) (v : IsLimited d) where
  pub list-IsLimited : (actor : Ident) → Ensures (list_handoffs now actor) d (λ _ d'. IsLimited d')
  unfolding list_handoffs
  list-IsLimited actor =
      ensures-exec-then _ _ d
        (ensures-got IsLimited _ _ (Inv-quiet d.tasks d.handoffs (expire_if_due now) quiet v))
    where
      quiet : IsQuiet (expire_if_due now)
      quiet = record {
        id = λ h. ground arith;
        task = λ h. ground arith;
        offered = λ h. ground arith;
        role = λ h. ground arith;
        accepts = λ h. ground arith;
        opens = λ h. ground arith;
      }

  pub peek-IsLimited :
      (id actor : Ident) → Ensures (peek_handoff now id actor) d (λ _ d'. IsLimited d')
  unfolding peek_handoff
  peek-IsLimited id actor =
      ensures-bind (λ _ d'. IsLimited d') (expire_due_handoffs now id) _ d
        (expire-IsLimited now id d v) λ _ d' v'. ensures-row IsLimited _ d' v'
