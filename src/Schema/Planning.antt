-- ===== src/Schema/Planning.antt =====
-- The rows of internal/store/milestones.go and organization.go.
use workforce_platform.Base.{ℕ, Option}
use workforce_platform.Strings.{Str}
use workforce_platform.Schema.Columns.{Ident, Text, Time}

pub data MilestoneStatus : Type 0 where
  planned active met cancelled : MilestoneStatus

-- A date is a calendar day, or NULL.
pub record Milestone : Type 0 where
  pub id : Ident
  pub project_id : Ident
  pub name : Str
  pub acceptance_evidence : Str
  pub committed_date : Option ℕ
  pub forecast_date : Option ℕ
  pub status : MilestoneStatus
  pub met_at : Option Time
  pub met_evidence : Str
  pub version : ℕ
  pub created_at : Time

pub record MilestoneDependency : Type 0 where
  pub milestone_id : Ident
  pub parent_id : Ident

-- A node of the organization's structure; 0 for no parent.
pub record Position : Type 0 where
  pub id : Ident
  pub name : Str
  pub parent_id : Ident
  pub version : ℕ
  pub created_at : Time

-- `unsupported` is any kind text that the store refuses.
pub data RelationshipKind : Type 0 where
  reports_to member_of covers_for : RelationshipKind
  unsupported : Text → RelationshipKind

-- A row of org_relationships, in effect from `valid_from` until just before `valid_to`.
pub record Relationship : Type 0 where
  pub id : Ident
  pub subject_id : Ident
  pub kind : RelationshipKind
  pub object_id : Ident
  pub valid_from : Time
  pub valid_to : Option Time
  pub created_by : Ident
  pub created_at : Time
