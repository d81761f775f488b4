-- ===== src/Boards/Listed.antt =====
-- What is on the boards of internal/store/workboard.go and agentboard.go, and how often.
use workforce_platform.Base.{
  suc, ◌+◌, Bool, false, ◌&&◌, ◌||◌, List, [], ◌∷◌, map, ◌==◌, ◌≡◌, refl, arith, inl, inr,
  Bool-cases, if◌then◌else◌, ◌∙◌, ap,
}
use workforce_platform.Base.Rows.{exists_where, select_where, count_where, insert_ordered, order_by}
use workforce_platform.Schema.{Ident, Time, AgentRun, Agent, RunStatus, Db}
use workforce_platform.Errors.{ok}
use workforce_platform.Tx.{◌>>=◌, gets}
use workforce_platform.AgentRuns.{is_running}
use workforce_platform.Boards.{
  WorkBoardItem, AgentBoardView, is_on_board, work_board, item, blocker, is_some_run, project_agent,
  is_queued, is_waiting, live_runs,
}

module _ {A : Type 0} where
  count_where-insert_ordered :
      (before : A → A → Bool) (p : A → Bool) (x : A) (xs : List A)
      → count_where p (insert_ordered before x xs) ≡ count_where p (x ∷ xs)
  unfolding count_where insert_ordered
  count_where-insert_ordered before p x [] = refl
  count_where-insert_ordered before p x (y ∷ ys) = elim (Bool-cases (before x y)) [
    | inl first ↦ rw first refl
    | inr later ↦ rw (later, count_where-insert_ordered before p x ys) (ground arith)
  ]

  count_where-order_by :
      (before : A → A → Bool) (p : A → Bool) (xs : List A)
      → count_where p (order_by before xs) ≡ count_where p xs
  unfolding count_where order_by
  count_where-order_by before p [] = refl
  count_where-order_by before p (x ∷ xs) =
      count_where-insert_ordered before p x (order_by before xs)
      ∙ ap (λ n. if p x then suc n else n) (count_where-order_by before p xs)

  count_where-select_where :
      (p q : A → Bool) (xs : List A)
      → count_where p (select_where q xs) ≡ count_where (λ x. p x && q x) xs
  unfolding count_where select_where
  count_where-select_where p q [] = refl
  count_where-select_where p q (x ∷ xs) = elim (Bool-cases (q x)) [
    | inl here ↦ rw (here, count_where-select_where p q xs) (ground arith)
    | inr other ↦ rw (other, count_where-select_where p q xs) (ground arith)
  ]

count_where-along :
    {A B : Type 0} (p : B → Bool) (g : A → B) (xs : List A)
    → count_where p (map g xs) ≡ count_where (λ x. p (g x)) xs
unfolding count_where
count_where-along p g [] = refl
count_where-along p g (x ∷ xs) = ap (λ n. if p (g x) then suc n else n) (count_where-along p g xs)

-- WorkBoard lists a task as often as the table has it, once then, if it is neither done nor cancelled and
-- the person owns it, is its assignee, or has an open offer of it that is not over; and not at all
-- otherwise.
pub work_board_lists :
    (before : Ident → Ident → Bool) (now : Time) (actor : Ident) (d : Db)
    → (items : List WorkBoardItem) × (work_board before now actor d ≡ ok (items, d))
      × ((id : Ident)
          → count_where (λ i. i.task_id == id) items
            ≡ count_where (λ t. t.id == id && is_on_board now actor d.handoffs t) d.tasks)
unfolding work_board gets
work_board_lists before now actor d = (
  _,
  refl,
  λ id.
      count_where-along (λ i. i.task_id == id) (λ t. item actor t (blocker t d)) _
      ∙ count_where-order_by _ (λ t. t.id == id) _
      ∙ count_where-select_where (λ t. t.id == id) (is_on_board now actor d.handoffs) d.tasks,
)

is_some_run-select_where :
    (p q : AgentRun → Bool) (rs : List AgentRun)
    → is_some_run (select_where p (select_where q rs)) ≡ exists_where (λ r. p r && q r) rs
unfolding select_where exists_where
is_some_run-select_where p q [] = refl
is_some_run-select_where p q (r ∷ rs) = elim (Bool-cases (q r)) [
  | inl here ↦ elim (Bool-cases (p r)) [
    | inl also ↦ rw (here, also) refl
    | inr not_so ↦ rw (here, not_so) (is_some_run-select_where p q rs)
  ]
  | inr other ↦ rw (other, is_some_run-select_where p q rs) (ground arith)
]

exists_where-same :
    {A : Type 0} (p q : A → Bool)
    → ((x : A) → p x ≡ q x)
    → (xs : List A) → exists_where p xs ≡ exists_where q xs
unfolding exists_where
exists_where-same p q k [] = refl
exists_where-same p q k (x ∷ xs) = ground (arith, k x, exists_where-same p q k xs)

-- A run that is on the board is running, queued or parked, and only one of these.
exclusive :
    (s : RunStatus)
    → ((is_running s && is_queued s) ≡ false)
      × ((is_running s && is_waiting s) ≡ false)
      × ((is_queued s && is_waiting s) ≡ false)
exclusive RunStatus.queued = (refl, refl, refl)
exclusive RunStatus.running = (refl, refl, refl)
exclusive RunStatus.waiting = (refl, refl, refl)
exclusive RunStatus.succeeded = (refl, refl, refl)
exclusive RunStatus.failed = (refl, refl, refl)
exclusive RunStatus.cancelled = (refl, refl, refl)

abbrev pub is_live : Ident → AgentRun → Bool
is_live agent r =
    r.agent_id == agent && (is_queued r.status || (is_running r.status || is_waiting r.status))

count_where-parts :
    (agent : Ident) (q : AgentRun → Bool) (rs : List AgentRun)
    → count_where (λ r. (q r && is_running r.status) && is_live agent r) rs
        + (count_where (λ r. (q r && is_queued r.status) && is_live agent r) rs
            + count_where (λ r. (q r && is_waiting r.status) && is_live agent r) rs)
      ≡ count_where (λ r. q r && is_live agent r) rs
unfolding count_where
count_where-parts agent q [] = refl
count_where-parts agent q (r ∷ rs) =
    let (a, b, c) = exclusive r.status in ground (arith, a, b, c, count_where-parts agent q rs)

count_where-part :
    (agent : Ident) (q s : AgentRun → Bool) (d : Db)
    → count_where q (select_where s (live_runs agent d))
      ≡ count_where (λ r. (q r && s r) && is_live agent r) d.agent_runs
count_where-part agent q s d =
    count_where-select_where q s (live_runs agent d)
    ∙ count_where-select_where (λ r. q r && s r) (is_live agent) d.agent_runs

-- The board of an agent splits the runs of the agent that have not ended into those that are running,
-- queued and parked; and it shows the agent as active exactly if a run of it is running: one that is
-- parked does not count.
pub project_agent_splits :
    (a : Agent) (d : Db)
    → (v : AgentBoardView) × (project_agent a d ≡ ok (v, d))
      × (v.active ≡ exists_where (λ r. is_running r.status && r.agent_id == a.id) d.agent_runs)
      × ((q : AgentRun → Bool)
          → count_where q v.running + (count_where q v.queued + count_where q v.parked)
            ≡ count_where (λ r. q r && is_live a.id r) d.agent_runs)
unfolding project_agent ◌>>=◌
project_agent_splits a d = (
  _,
  refl,
  is_some_run-select_where (λ r. is_running r.status) (is_live a.id) d.agent_runs
      ∙ exists_where-same _ _ (λ r. ground arith) d.agent_runs,
  λ q.
      rw
        (
          count_where-part a.id q (λ r. is_running r.status) d,
          count_where-part a.id q (λ r. is_queued r.status) d,
          count_where-part a.id q (λ r. is_waiting r.status) d,
        )
        (count_where-parts a.id q d.agent_runs),
)
