-- ===== src/Boards.antt =====
-- internal/store/workboard.go and agentboard.go: what is in front of a person, and of an agent.
pub mod Blocked
pub mod Listed
use workforce_platform.Base.{
  ℕ, Bool, true, false, not, ◌&&◌, ◌||◌, Option, none, some, List, [], ◌∷◌, ◌++◌, map, ◌==◌, ltb,
  if◌then◌else◌,
}
use workforce_platform.Base.Rows.{find_row, exists_where, select_where, order_by}
use workforce_platform.Schema.{
  Ident, Text, Time, Task, TaskStatus, TaskDependency, Handoff, Agent, AgentRun, RunStatus, Gate,
  Db,
}
use workforce_platform.Errors.{Result, ok, err, not_found}
use workforce_platform.Tx.{Tx, ◌>>=◌, pure, gets, with_org}
use workforce_platform.Tasks.{is_done, is_terminal, is_pending_gate}
use workforce_platform.Handoffs.{is_open, is_overdue}
use workforce_platform.Agents.{list_agents}
use workforce_platform.AgentRuns.{is_running}

pub data Relevance : Type 0 where
  accountable executing handoff_offered : Relevance

-- 0 and no text for a blocker that is not there.
pub record WorkBoardItem : Type 0 where
  pub task_id : Ident
  pub title : Text
  pub status : TaskStatus
  pub version : ℕ
  pub created_at : Time
  pub relevance : Relevance
  pub blocker_task_id : Ident
  pub blocker_title : Text
  pub blocker_owner_id : Ident

-- No assignee, which is NULL, is nobody's.
abbrev pub is_assignee : Ident → Task → Bool
is_assignee actor t = not (t.assignee_id == 0) && t.assignee_id == actor

abbrev pub relevance_of : Ident → Task → Relevance
relevance_of actor t =
    if t.owner_id == actor
    then accountable
    else if is_assignee actor t
    then executing
    else handoff_offered

-- The rows of the join of a task's dependencies with the tasks that they name and that are not done.
unfoldable pub unmet : Ident → List Task → List TaskDependency → List Task
unmet task tasks [] = []
unmet task tasks (x ∷ xs) =
    let rest = unmet task tasks xs in
    if x.task_id == task
    then select_where (λ p. p.id == x.parent_id && not (is_done p.status)) tasks ++ rest
    else rest

unfoldable pub first_of : List Task → Option Task
first_of [] = none
first_of (t ∷ ts) = some t

-- order by p.created_at limit 1
abbrev pub blocker : Task → Db → Option Task
blocker t d =
    first_of
      (order_by (λ a b. ltb a.created_at b.created_at) (unmet t.id d.tasks d.task_dependencies))

abbrev pub item : Ident → Task → Option Task → WorkBoardItem
item actor t b = record {
  task_id = t.id;
  title = t.title;
  status = t.status;
  version = t.version;
  created_at = t.created_at;
  relevance = relevance_of actor t;
  blocker_task_id = elim b [ some p ↦ p.id | none ↦ 0 ];
  blocker_title = elim b [ some p ↦ p.title | none ↦ 0 ];
  blocker_owner_id = elim b [ some p ↦ p.owner_id | none ↦ 0 ];
}

abbrev pub is_offered_to : Time → Ident → Ident → Handoff → Bool
is_offered_to now actor task h =
    h.task_id == task
    && (h.recipient_id == actor && (is_open h.state && not (is_overdue now h.expires_at)))

abbrev pub is_on_board : Time → Ident → List Handoff → Task → Bool
is_on_board now actor offers t =
    not (is_terminal t.status)
    && (t.owner_id == actor
        || (is_assignee actor t || exists_where (is_offered_to now actor t.id) offers))

abbrev pub by_creation : (Ident → Ident → Bool) → Task → Task → Bool
by_creation before a b =
    ltb a.created_at b.created_at || a.created_at == b.created_at && before a.id b.id

unfoldable pub work_board : (Ident → Ident → Bool) → Time → Ident → Tx (List WorkBoardItem)
work_board before now actor = gets (λ d.
    map (λ t. item actor t (blocker t d))
      (order_by (by_creation before) (select_where (is_on_board now actor d.handoffs) d.tasks)))

pub record AgentBoardView : Type 0 where
  pub agent : Agent
  pub running : List AgentRun
  pub queued : List AgentRun
  pub parked : List AgentRun
  pub tasks : List Task
  pub open_gates : List Gate
  pub active : Bool

abbrev pub is_queued : RunStatus → Bool
is_queued RunStatus.queued = true
is_queued _ = false

abbrev pub is_waiting : RunStatus → Bool
is_waiting RunStatus.waiting = true
is_waiting _ = false

-- Runs and questions are added at the end of their tables, which is their order of creation.
abbrev pub live_runs : Ident → Db → List AgentRun
live_runs agent d =
    select_where
      (λ r.
        r.agent_id == agent && (is_queued r.status || (is_running r.status || is_waiting r.status)))
      d.agent_runs

abbrev pub open_tasks : Ident → Db → List Task
open_tasks agent d =
    order_by (λ a b. ltb a.created_at b.created_at)
      (select_where
        (λ t.
          not (is_terminal t.status)
          && exists_where (λ r. r.task_id == t.id && r.agent_id == agent) d.agent_runs)
        d.tasks)

-- The join with agent_runs, whose identifiers are unique.
abbrev pub pending_gates : Ident → Db → List Gate
pending_gates agent d =
    select_where
      (λ g.
        is_pending_gate g.status
        && exists_where (λ r. r.id == g.run_id && r.agent_id == agent) d.agent_runs)
      d.decision_gates

abbrev pub is_some_run : List AgentRun → Bool
is_some_run [] = false
is_some_run (r ∷ rs) = true

unfoldable pub project_agent : Agent → Tx AgentBoardView
project_agent a = do
  runs ← gets (live_runs a.id)
  tasks ← gets (open_tasks a.id)
  gates ← gets (pending_gates a.id)
  pure (record {
    agent = a;
    running = select_where (λ r. is_running r.status) runs;
    queued = select_where (λ r. is_queued r.status) runs;
    parked = select_where (λ r. is_waiting r.status) runs;
    tasks = tasks;
    open_gates = gates;
    active = is_some_run (select_where (λ r. is_running r.status) runs);
  })

-- `between` is what other transactions do after ListAgents.
abbrev pub show_agent : (Db → Db) → Ident → Result (List Agent) × Db → Result AgentBoardView × Db
show_agent between id (err e, d) = (err e, d)
show_agent between id (ok agents, d) = elim (find_row (λ a. a.id) id agents) [
  | some a ↦ with_org (project_agent a) (between d)
  | none ↦ (err not_found, d)
]

unfoldable pub agent_board : (Db → Db) → Ident → Db → Result AgentBoardView × Db
agent_board between id d = show_agent between id (with_org list_agents d)
