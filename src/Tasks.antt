-- ===== src/Tasks.antt =====
-- Projects, tasks and the dependencies between tasks: CreateProject, ListProjects, CreateTask, GetTask,
-- ListTasks, AddDependency and CancelTask of internal/store/store.go.
pub mod Dependencies
pub mod Cancelling
use workforce_platform.Base.{
  ℕ, ◌+◌, Bool, true, false, not, ◌&&◌, ◌||◌, Option, none, some, List, [], ◌∷◌, ◌++◌, map, ◌==◌,
  if◌then◌else◌,
}
use workforce_platform.Base.Rows.{
  find_row, find_where, exists_where, set_row, update_where, select_where,
}
use workforce_platform.Schema.{
  Ident, Text, Time, Principal, Project, Task, TaskStatus, TaskDependency, Proposal, ProposalStatus,
  Gate, GateStatus, AgentRun, RunStatus, Db,
}
use workforce_platform.Errors.{
  Error, ok, err, unique_violation, foreign_key_violation, query_did_not_end, dependency_cycle,
  task_not_found, stale_task_or_not_cancellable,
}
use workforce_platform.Tx.{Tx, ◌>>=◌, ◌>>◌, pure, fail, gets, query_row, exec, refuse_if}
use workforce_platform.Graph.{Edges, mem, has_edge}
use workforce_platform.Graph.Query.{query_reach}

abbrev pub has_task : Ident → List Task → Bool
has_task id = exists_where (λ t. t.id == id)

unfoldable pub insert_project : Project → Tx Project
insert_project p d = elim (find_row (λ p. p.id) p.id d.projects) [
  | some _ ↦ fail unique_violation d
  | none ↦ pure p (record d { projects = d.projects ++ p ∷ [] })
]

unfoldable pub create_project : Ident → Text → Text → Tx Project
create_project id name description =
    insert_project (record { id = id; name = name; description = description; version = 1 })

unfoldable pub list_projects : Tx (List Project)
list_projects = gets (λ d. d.projects)

-- The foreign keys of a task row; an empty assignee or project is NULL.
abbrev pub task_refers : Db → Task → Bool
task_refers d t =
    exists_where (λ p. p.id == t.owner_id) d.principals
    && ((t.assignee_id == 0 || exists_where (λ p. p.id == t.assignee_id) d.principals)
        && (t.project_id == 0 || exists_where (λ p. p.id == t.project_id) d.projects))

unfoldable pub insert_task : Task → Tx Task
insert_task t d = elim (find_row (λ t. t.id) t.id d.tasks) [
  | some _ ↦ fail unique_violation d
  | none ↦
      if task_refers d t
      then pure t (record d { tasks = d.tasks ++ t ∷ [] })
      else fail foreign_key_violation d
]

unfoldable pub create_task : Ident → Time → Text → Text → Ident → Ident → Ident → Tx Task
create_task id now title description owner assignee project = insert_task (record {
  id = id;
  title = title;
  description = description;
  status = TaskStatus.draft;
  owner_id = owner;
  assignee_id = assignee;
  project_id = project;
  version = 1;
  created_at = now;
})

abbrev pub find_task : Ident → List Task → Option Task
find_task = find_row (λ t. t.id)

unfoldable pub get_task : Ident → Tx Task
get_task id = query_row (λ d. find_row (λ t. t.id) id d.tasks)

unfoldable pub list_tasks : Tx (List Task)
list_tasks = gets (λ d. d.tasks)

abbrev pub edge : TaskDependency → ℕ × ℕ
edge x = (x.task_id, x.parent_id)

abbrev pub edges : Db → Edges
edges d = map edge d.task_dependencies

-- on conflict do nothing
unfoldable pub insert_dependency : Ident → Ident → Db → Db
insert_dependency task parent d = if has_edge (edges d) task parent then d else record d {
  task_dependencies = d.task_dependencies ++ record { task_id = task; parent_id = parent } ∷ [];
}

unfoldable pub add_dependency : Ident → Ident → Tx (Unit {0})
add_dependency task parent = do
  refuse_if (task == parent) dependency_cycle
  exists ← gets (λ d. has_task task d.tasks && has_task parent d.tasks)
  refuse_if (not exists) task_not_found
  reached ← query_reach edges parent
  refuse_if (mem task reached) dependency_cycle
  exec (insert_dependency task parent)

abbrev pub is_done : TaskStatus → Bool
is_done TaskStatus.done = true
is_done _ = false

abbrev pub is_terminal : TaskStatus → Bool
is_terminal TaskStatus.done = true
is_terminal TaskStatus.cancelled = true
is_terminal _ = false

-- The statuses that a cancelled task rejects.
abbrev pub is_live_proposal : ProposalStatus → Bool
is_live_proposal ProposalStatus.pending_endorsement = true
is_live_proposal ProposalStatus.pending_approval = true
is_live_proposal ProposalStatus.approved = true
is_live_proposal ProposalStatus.executing = true
is_live_proposal _ = false

abbrev pub is_pending_gate : GateStatus → Bool
is_pending_gate GateStatus.pending = true
is_pending_gate _ = false

abbrev pub is_live_run : RunStatus → Bool
is_live_run RunStatus.queued = true
is_live_run RunStatus.running = true
is_live_run RunStatus.waiting = true
is_live_run _ = false

abbrev pub is_cancellable : Ident → ℕ → Task → Bool
is_cancellable id version t = t.id == id && (t.version == version && not (is_done t.status))

abbrev pub cancel_row : Task → Task
cancel_row t = record t { status = TaskStatus.cancelled; version = t.version + 1 }

abbrev pub is_rejected_with : Ident → Proposal → Bool
is_rejected_with task p = p.task_id == task && is_live_proposal p.status

abbrev pub reject_row : Proposal → Proposal
reject_row p = record p { status = ProposalStatus.rejected }

abbrev pub is_closed_with : Ident → Gate → Bool
is_closed_with task g = g.task_id == task && is_pending_gate g.status

abbrev pub cancel_gate_row : Gate → Gate
cancel_gate_row g = record g { status = GateStatus.cancelled; version = g.version + 1 }

abbrev pub is_stopped_with : Ident → AgentRun → Bool
is_stopped_with task r = r.task_id == task && is_live_run r.status

abbrev pub cancel_run_row : Time → AgentRun → AgentRun
cancel_run_row now r = record r {
  status = RunStatus.cancelled;
  finished_at = some now;
  claim_token = 0;
  claim_expires_at = none;
}

abbrev pub reject_proposals : Ident → Db → Db
reject_proposals task d = record d {
  proposals = update_where (is_rejected_with task) reject_row d.proposals;
}

abbrev pub cancel_gates : Ident → Db → Db
cancel_gates task d = record d {
  decision_gates = update_where (is_closed_with task) cancel_gate_row d.decision_gates;
}

abbrev pub cancel_runs : Time → Ident → Db → Db
cancel_runs now task d = record d {
  agent_runs = update_where (is_stopped_with task) (cancel_run_row now) d.agent_runs;
}

-- The row count of the first update is 1 if a row fits its clause: the id is the primary key.
unfoldable pub cancel_task : Time → Ident → ℕ → Tx (Unit {0})
cancel_task now id version = do
  affected ← gets (λ d. exists_where (is_cancellable id version) d.tasks)
  exec (λ d. record d { tasks = update_where (is_cancellable id version) cancel_row d.tasks })
  refuse_if (not affected) stale_task_or_not_cancellable
  exec (reject_proposals id)
  exec (cancel_gates id)
  exec (cancel_runs now id)
