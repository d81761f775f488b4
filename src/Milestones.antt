-- ===== src/Milestones.antt =====
-- internal/store/milestones.go: stated outcomes of a project, each with the milestones that must be
-- met before it.
pub mod Keeping
pub mod Completing
pub mod Dependencies
use workforce_platform.Base.{
  ℕ, suc, ◌+◌, Bool, true, false, not, ◌&&◌, ◌||◌, Option, none, some, List, [], ◌∷◌, ◌++◌, map,
  ◌==◌, ltb, leb, if◌then◌else◌,
}
use workforce_platform.Base.Rows.{
  find_row, find_where, exists_where, count_where, select_where, set_row,
}
use workforce_platform.Principals.{require_active_principal}
use workforce_platform.Strings.{Str, is_blank, precedes}
use workforce_platform.Schema.{
  Ident, Time, Principal, Project, Milestone, MilestoneStatus, MilestoneDependency, Db,
}
use workforce_platform.Errors.{
  Error, not_found, unique_violation, query_did_not_end, principal_is_required, principal_not_found,
  principal_is_not_active, milestone_name_required, acceptance_evidence_required, project_not_found,
  cancelled_milestone, milestone_not_found, completion_evidence_required, stale_milestone,
  milestone_already_met, prerequisites_not_met, milestone_depends_on_itself, dependency_cycle,
}
use workforce_platform.Tx.{Tx, ◌>>=◌, ◌>>◌, pure, fail, gets, query_row, exec, refuse_if}
use workforce_platform.Graph.{Edges, mem, has_edge}
use workforce_platform.Graph.Query.{query_reach}

abbrev pub find_milestone : Ident → Db → Option Milestone
find_milestone id d = find_row (λ m. m.id) id d.milestones

unfoldable pub insert_milestone : Milestone → Tx Milestone
insert_milestone m d = elim (find_milestone m.id d) [
  | some _ ↦ fail unique_violation d
  | none ↦ pure m (record d { milestones = d.milestones ++ m ∷ [] })
]

unfoldable pub create_milestone :
    Ident → Time → Ident → Ident → Str → Str → Option ℕ → Option ℕ → Tx Milestone
create_milestone id now actor project name evidence committed forecast = do
  refuse_if (is_blank name) milestone_name_required
  refuse_if (is_blank evidence) acceptance_evidence_required
  require_active_principal actor
  exists ← gets (λ d. exists_where (λ p. p.id == project) d.projects)
  refuse_if (not exists) project_not_found
  insert_milestone (record {
    id = id;
    project_id = project;
    name = name;
    acceptance_evidence = evidence;
    committed_date = committed;
    forecast_date = forecast;
    status = MilestoneStatus.planned;
    met_at = none;
    met_evidence = [];
    version = 1;
    created_at = now;
  })

unfoldable pub get_milestone : Ident → Tx Milestone
get_milestone id = query_row (find_milestone id)

abbrev pub is_met : MilestoneStatus → Bool
is_met MilestoneStatus.met = true
is_met _ = false

abbrev pub is_cancelled : MilestoneStatus → Bool
is_cancelled MilestoneStatus.cancelled = true
is_cancelled _ = false

abbrev pub is_unmet : Option Milestone → Bool
is_unmet none = false
is_unmet (some p) = not (is_met p.status)

-- The join of the dependencies with the milestones that they name.
unfoldable pub unmet_prerequisites : Ident → Db → ℕ
unmet_prerequisites id d =
    count_where (λ x. x.milestone_id == id && is_unmet (find_milestone x.parent_id d))
      d.milestone_dependencies

abbrev pub first_date : Option ℕ → ℕ → ℕ
first_date none n = n
first_date (some a) n = a

-- The columns of the ORDER BY; `day` is the day of an instant.
abbrev pub planned_before : (Time → ℕ) → Milestone → Milestone → Bool
planned_before day a b =
    let da = first_date a.committed_date (first_date a.forecast_date (day a.created_at)) in
    let db = first_date b.committed_date (first_date b.forecast_date (day b.created_at)) in
    ltb da db || da == db && precedes a.name b.name

unfoldable pub insert_planned : (Time → ℕ) → Milestone → List Milestone → List Milestone
insert_planned day m [] = m ∷ []
insert_planned day m (x ∷ xs) =
    if planned_before day m x then m ∷ x ∷ xs else x ∷ insert_planned day m xs

unfoldable pub by_date : (Time → ℕ) → List Milestone → List Milestone
by_date day [] = []
by_date day (m ∷ ms) = insert_planned day m (by_date day ms)

-- Each milestone of the project, 0 for all projects, with its number of unmet prerequisites.
unfoldable pub list_milestones : (Time → ℕ) → Ident → Tx (List (Milestone × ℕ))
list_milestones day project = gets (λ d.
    map (λ m. (m, unmet_prerequisites m.id d))
      (by_date day (select_where (λ m. project == 0 || m.project_id == project) d.milestones)))

abbrev pub forecast_row : Option ℕ → Milestone → Milestone
forecast_row forecast m = record m { forecast_date = forecast; version = m.version + 1 }

unfoldable pub set_milestone_forecast : Ident → Ident → Option ℕ → Tx Milestone
set_milestone_forecast actor id forecast = do
  require_active_principal actor
  m ← query_row (find_milestone id)
  refuse_if (is_cancelled m.status) cancelled_milestone
  exec (λ d. record d { milestones = set_row (λ m. m.id) id (forecast_row forecast) d.milestones })
  pure (forecast_row forecast m)

abbrev pub edge : MilestoneDependency → ℕ × ℕ
edge x = (x.milestone_id, x.parent_id)

abbrev pub edges : Db → Edges
edges d = map edge d.milestone_dependencies

-- on conflict do nothing
unfoldable pub insert_dependency : Ident → Ident → Db → Db
insert_dependency child parent d = if has_edge (edges d) child parent then d else record d {
  milestone_dependencies =
      d.milestone_dependencies ++ record { milestone_id = child; parent_id = parent } ∷ [];
}

abbrev pub has_milestone : Ident → Db → Bool
has_milestone id d = exists_where (λ m. m.id == id) d.milestones

unfoldable pub add_milestone_dependency : Ident → Ident → Tx (Unit {0})
add_milestone_dependency child parent = do
  refuse_if (child == parent) milestone_depends_on_itself
  exists ← gets (λ d. has_milestone child d && has_milestone parent d)
  refuse_if (not exists) milestone_not_found
  reached ← query_reach edges parent
  refuse_if (mem child reached) dependency_cycle
  exec (insert_dependency child parent)

abbrev pub meet_row : Time → Str → Milestone → Milestone
meet_row now evidence m = record m {
  status = MilestoneStatus.met;
  met_at = some now;
  met_evidence = evidence;
  version = m.version + 1;
}

unfoldable pub complete_milestone : Time → Ident → Ident → Str → ℕ → Tx (Unit {0})
complete_milestone now actor id evidence version = do
  refuse_if (is_blank evidence) completion_evidence_required
  require_active_principal actor
  m ← query_row (find_milestone id)
  refuse_if (not (m.version == version)) stale_milestone
  refuse_if (is_met m.status) milestone_already_met
  refuse_if (is_cancelled m.status) cancelled_milestone
  unmet ← gets (unmet_prerequisites id)
  refuse_if (ltb 0 unmet) prerequisites_not_met
  exec (λ d. record d { milestones = set_row (λ m. m.id) id (meet_row now evidence) d.milestones })
