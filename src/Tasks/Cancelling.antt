-- ===== src/Tasks/Cancelling.antt =====
-- CancelTask leaves nothing of the task open, and no task version falls.
use workforce_platform.Base.{
  ℕ, Bool, true, false, not, ◌+◌, refl, ◌&&◌, some, List, [], ◌∷◌, ◌≡◌, sym, subst, inl, inr, arith,
  ◌==◌, ◌∙◌, Bool-cases,
}
use workforce_platform.Base.Rows.{
  All, find_row, exists_where, update_if, update_where, find_row-map, IsKeyed, find_row-key,
}
use workforce_platform.Base.Keys.{exists_where_key}
use workforce_platform.Schema.{Ident, Time, Task, TaskStatus, Db}
use workforce_platform.Errors.{ok}
use workforce_platform.Tx.{◌>>=◌}
use workforce_platform.Tasks.{
  is_cancellable, is_done, cancel_row, is_rejected_with, reject_row, is_closed_with,
  cancel_gate_row, is_stopped_with, cancel_run_row, reject_proposals, cancel_gates, cancel_runs,
  cancel_task,
}

module _ {ℓ} {A : Type ℓ} where
  -- An update of the rows that pass a test leaves none that passes it, if the change makes it fail.
  All-updated :
      (p : A → Bool) (f : A → A)
      → ((x : A) → p x ≡ true → p (f x) ≡ false)
      → (xs : List A) → All (λ x. p x ≡ false) (update_where p f xs)
  All-updated p f stops [] = tt
  All-updated p f stops (x ∷ xs) = (ground (arith, stops x), All-updated p f stops xs)

-- The database that a committed cancellation leaves.
cancelled_db : Time → Ident → ℕ → Db → Db
cancelled_db now id version d = cancel_runs now id (
    cancel_gates id (
      reject_proposals id
        (record d { tasks = update_where (is_cancellable id version) cancel_row d.tasks })))

cancel_task-eq-ok :
    (now : Time) (id : Ident) (version : ℕ) (d e : Db)
    → cancel_task now id version d ≡ ok (tt, e)
    → (exists_where (is_cancellable id version) d.tasks ≡ true)
      × (e ≡ cancelled_db now id version d)
unfolding cancel_task cancelled_db ◌>>=◌
cancel_task-eq-ok now id version d e r =
    elim (Bool-cases (exists_where (is_cancellable id version) d.tasks)) [
      | inl there ↦ (there, ground arith)
      | inr gone ↦ ground arith
    ]

-- Nothing of the task can go on: no proposal of it is pending, approved or executing, no gate of it
-- waits for an answer, and no run of it is queued, running or waiting.
pub record IsSettled (task : Ident) (d : Db) : Type 0 where
  pub proposals : All (λ p. is_rejected_with task p ≡ false) d.proposals
  pub gates : All (λ g. is_closed_with task g ≡ false) d.decision_gates
  pub runs : All (λ r. is_stopped_with task r ≡ false) d.agent_runs

cancelled_db-IsSettled :
    (now : Time) (id : Ident) (version : ℕ) (d : Db) → IsSettled id (cancelled_db now id version d)
unfolding cancelled_db
cancelled_db-IsSettled now id version d = record {
  proposals = All-updated (is_rejected_with id) reject_row (λ p h. ground arith) d.proposals;
  gates = All-updated (is_closed_with id) cancel_gate_row (λ g h. ground arith) d.decision_gates;
  runs = All-updated (is_stopped_with id) (cancel_run_row now) (λ r h. ground arith) d.agent_runs;
}

-- The row of a task after its cancellation: the state, the next version, and all else as it was.
abbrev pub IsCancelled : Task → Task → Type 0
IsCancelled t s =
    (s.status ≡ TaskStatus.cancelled)
    × (s.version ≡ t.version + 1)
    × (s.id ≡ t.id)
    × (s.title ≡ t.title)
    × (s.description ≡ t.description)
    × (s.owner_id ≡ t.owner_id)
    × (s.assignee_id ≡ t.assignee_id)
    × (s.project_id ≡ t.project_id)
    × (s.created_at ≡ t.created_at)

-- A committed CancelTask found the task at the version named and not done, marks it cancelled at the
-- next version, changes nothing else of it, and leaves no proposal, gate or run of it that could go on.
pub cancel_task_settles :
    (now : Time) (id : Ident) (version : ℕ) (d e : Db) (t : Task)
    → IsKeyed (λ t. t.id) d.tasks
    → find_row (λ t. t.id) id d.tasks ≡ some t
    → cancel_task now id version d ≡ ok (tt, e)
    → (t.version ≡ version)
      × (is_done t.status ≡ false)
      × (s : Task) × (find_row (λ t. t.id) id e.tasks ≡ some s)
      × IsCancelled t s
      × IsSettled id e
unfolding cancelled_db
cancel_task_settles now id version d e t u found r =
    let (there, same) = cancel_task-eq-ok now id version d e r in
    let fits =
      exists_where_key (λ t. t.id) id (λ t. t.version == version && not (is_done t.status)) d.tasks
        t u found in
    (
      ground (arith, fits),
      ground (arith, fits),
      cancel_row t,
      subst (λ e. find_row (λ t. t.id) id e.tasks ≡ some (cancel_row t)) (sym same)
          (find_row-map (λ t. t.id) id (update_if (is_cancellable id version) cancel_row)
              (λ x. ground arith) d.tasks
            ∙ ground (arith, find_row-key (λ t. t.id) id d.tasks t, fits)),
      (refl, refl, refl, refl, refl, refl, refl, refl, refl),
      subst (IsSettled id) (sym same) (cancelled_db-IsSettled now id version d),
    )
