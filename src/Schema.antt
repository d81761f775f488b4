-- ===== src/Schema.antt =====
-- The store's rows: the structs of internal/store/*.go together with the columns of migrations/*.sql
-- that the store reads or writes. One database value is what one organization's transactions see
-- under row-level security.
pub mod Columns
pub mod Values
pub mod Catalog
pub mod Planning
use Prim.Native.String.{String}
use workforce_platform.Base.{ℕ, Bool, Option, List}
use workforce_platform.Errors.{RunFailure}
use workforce_platform.Strings.{Str}
use Values.{Json, Fields, Payload, GateSchema}
pub use Columns.{Ident, Text, Time}
pub use Catalog.{
  ReleaseState, ReleaseKind, connector, harness, renderer, automation, unlisted, Release,
  AgentStatus, Agent, TemplateStatus, AgentTemplate,
}
pub use Planning.{
  MilestoneStatus, Milestone, MilestoneDependency, Position, RelationshipKind, reports_to,
  member_of, covers_for, unsupported, Relationship,
}

pub data Role : Type 0 where
  requester approver admin : Role

pub record Principal : Type 0 where
  pub id : Ident
  pub name : Str
  pub role : Role
  pub active : Bool

pub record Project : Type 0 where
  pub id : Ident
  pub name : Text
  pub description : Text
  pub version : ℕ

pub data TaskStatus : Type 0 where
  draft ready in_progress in_review blocked done cancelled : TaskStatus

pub record Task : Type 0 where
  pub id : Ident
  pub title : Text
  pub description : Text
  pub status : TaskStatus
  pub owner_id : Ident
  pub assignee_id : Ident
  pub project_id : Ident
  pub version : ℕ
  pub created_at : Time

pub record TaskDependency : Type 0 where
  pub task_id : Ident
  pub parent_id : Ident

-- `other` is any role text that the store refuses.
pub data HandoffRole : Type 0 where
  owner assignee : HandoffRole
  other : Text → HandoffRole

pub data HandoffState : Type 0 where
  offered accepted declined expired cancelled clarification_requested : HandoffState

pub record Handoff : Type 0 where
  pub id : Ident
  pub task_id : Ident
  pub offered_task_version : ℕ
  pub recipient_id : Ident
  pub role : HandoffRole
  pub summary : Text
  pub state : HandoffState
  pub created_by : Ident
  pub created_at : Time
  pub expires_at : Option Time
  pub accepted_at : Option Time
  pub resolved_at : Option Time
  pub reason : Text
  pub hop_depth : ℕ

-- connectors.Operation. A negative expected version stands as 0: the store refuses both.
pub record Operation : Type 0 where
  pub id : Ident
  pub integration : String
  pub action : String
  pub business_key : List ℕ
  pub target_id : Ident
  pub expected_version : ℕ
  pub payload : Payload

pub data ProposalStatus : Type 0 where
  pending_endorsement pending_approval approved rejected superseded executing done needs_attention :
      ProposalStatus

pub data Origin : Type 0 where
  human agent_run : Origin

pub data FailureReason : Type 0 where
  no_failure invalid_or_stale_operation authorization_or_dependency_unavailable : FailureReason

pub record Proposal : Type 0 where
  pub id : Ident
  pub task_id : Ident
  pub revision : ℕ
  pub digest : Text
  pub status : ProposalStatus
  pub summary : Text
  pub operations : List Operation
  pub created_by : Ident
  pub created_at : Time
  pub failure_reason : FailureReason
  pub origin : Origin
  pub origin_run_id : Ident

-- `invalid` is any kind text that the store refuses.
pub data DecisionKind : Type 0 where
  endorse approve reject : DecisionKind
  invalid : Text → DecisionKind

pub record ProposalDecision : Type 0 where
  pub id : Ident
  pub proposal_id : Ident
  pub actor_id : Ident
  pub kind : DecisionKind
  pub revision : ℕ
  pub digest : Text
  pub reason : Text

pub data EffectState : Type 0 where
  prepared authorized dispatching accepted applied verified unknown failed_no_effect
        needs_attention :
      EffectState

pub record Effect : Type 0 where
  pub id : Ident
  pub proposal_id : Ident
  pub operation_id : Ident
  pub integration : String
  pub action : String
  pub target_id : Ident
  pub expected_version : ℕ
  pub payload : Payload
  pub state : EffectState
  pub result : Option Fields
  pub business_operation_id : Option Ident

pub record Receipt : Type 0 where
  pub id : Ident
  pub effect_id : Ident
  pub result : Fields

-- simulator_records
pub record SimulatorRecord : Type 0 where
  pub id : Ident
  pub integration : String
  pub version : ℕ
  pub fields : Fields

pub data BusinessStatus : Type 0 where
  reserved dispatching verified released unknown : BusinessStatus

pub record BusinessOperation : Type 0 where
  pub id : Ident
  pub integration : String
  pub action : String
  pub business_key : List ℕ
  pub fingerprint : Text
  pub proposal_id : Ident
  pub status : BusinessStatus

pub data GateStatus : Type 0 where
  pending resolved cancelled expired : GateStatus

pub record Gate : Type 0 where
  pub id : Ident
  pub task_id : Ident
  pub run_id : Ident
  pub kind : Text
  pub prompt : Text
  pub input_schema : GateSchema
  pub revision : ℕ
  pub status : GateStatus
  pub respondent_id : Ident
  pub response : Option Json
  pub responded_by : Ident
  pub responded_at : Option Time
  pub created_by : Ident
  pub version : ℕ

pub data RunStatus : Type 0 where
  queued running waiting succeeded failed cancelled : RunStatus

pub record AgentRun : Type 0 where
  pub id : Ident
  pub task_id : Ident
  pub agent_id : Ident
  pub harness : Str
  pub runner_id : Str
  pub intent : Str
  pub status : RunStatus
  pub proposal_id : Ident
  pub gate_id : Ident
  pub claim_token : Ident
  pub claim_expires_at : Option Time
  pub attempt : ℕ
  pub failure_reason : Option RunFailure
  pub result_summary : Text
  pub release_id : Ident
  pub created_by : Ident
  pub finished_at : Option Time

-- The queue of River, in the order of insertion.
pub data Job : Type 0 where
  proposal_execute : Ident → Job
  agent_run_job : Ident → Job

pub record Db : Type 0 where
  pub principals : List Principal
  pub projects : List Project
  pub tasks : List Task
  pub task_dependencies : List TaskDependency
  pub handoffs : List Handoff
  pub proposals : List Proposal
  pub proposal_decisions : List ProposalDecision
  pub effects : List Effect
  pub receipts : List Receipt
  pub simulator_records : List SimulatorRecord
  pub business_operations : List BusinessOperation
  pub decision_gates : List Gate
  pub agent_runs : List AgentRun
  pub registry_releases : List Release
  pub agents : List Agent
  pub agent_templates : List AgentTemplate
  pub positions : List Position
  pub org_relationships : List Relationship
  pub milestones : List Milestone
  pub milestone_dependencies : List MilestoneDependency
  pub jobs : List Job
