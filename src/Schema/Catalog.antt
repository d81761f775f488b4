-- ===== src/Schema/Catalog.antt =====
-- The rows of releases, agents and templates: internal/store/registry.go, agents.go and templates.go.
use workforce_platform.Base.{ℕ, Bool, List}
use workforce_platform.Strings.{Str}
use workforce_platform.Schema.Columns.{Ident, Text, Time}

pub data ReleaseState : Type 0 where
  quarantined verified approved installed active draining disabled revoked : ReleaseState

-- `unlisted` is any kind text that a constraint of the table refuses.
pub data ReleaseKind : Type 0 where
  connector harness renderer automation : ReleaseKind
  unlisted : Str → ReleaseKind

-- A row of registry_releases. Of the manifest it has the member runner_id, empty if it is missing;
-- `details` stands for the rest of it and for provenance and licence, which nothing reads.
pub record Release : Type 0 where
  pub id : Ident
  pub family : Str
  pub kind : ReleaseKind
  pub version : Str
  pub digest : Text
  pub state : ReleaseState
  pub manifest_runner : Str
  pub details : Text
  pub requested_capabilities : List Str
  pub granted_capabilities : List Str
  pub compatibility_range : Text
  pub simulation : Bool
  pub created_by : Ident
  pub revision : ℕ
  pub created_at : Time
  pub updated_at : Time

pub data AgentStatus : Type 0 where
  draft : AgentStatus

-- An agent's template is 0 if it has none.
pub record Agent : Type 0 where
  pub id : Ident
  pub name : Str
  pub harness : Str
  pub status : AgentStatus
  pub owner_id : Ident
  pub capabilities : List Str
  pub template_id : Ident
  pub template_version : Str
  pub instructions : Str

pub data TemplateStatus : Type 0 where
  draft published retired : TemplateStatus

pub record AgentTemplate : Type 0 where
  pub id : Ident
  pub name : Str
  pub version : Str
  pub harness : Str
  pub description : Str
  pub capabilities : List Str
  pub instructions : Str
  pub status : TemplateStatus
  pub created_by : Ident
  pub revision : ℕ
  pub created_at : Time
