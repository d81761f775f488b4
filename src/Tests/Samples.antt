-- ===== src/Tests/Samples.antt =====
-- A small organization: Ada (1) owns task 10, Bo (2) is its assignee, Cy (3) approves.
use workforce_platform.Base.{ℕ, true, none, some, [], ◌∷◌}
use workforce_platform.Schema.{
  Ident, Principal, Role, Task, TaskStatus, Handoff, HandoffRole, HandoffState, Operation, Db,
}
use workforce_platform.Base.Int.{pos}
use workforce_platform.Schema.Values.{Fields, members, number, int64, json_number, end, field}

abbrev pub ada : Principal
ada = record { id = 1; name = []; role = Role.requester; active = true }

abbrev pub bo : Principal
bo = record { id = 2; name = []; role = Role.requester; active = true }

abbrev pub cy : Principal
cy = record { id = 3; name = []; role = Role.approver; active = true }

abbrev pub task_of : Ident → TaskStatus → Task
task_of id status = record {
  id = id;
  title = 7;
  description = 0;
  status = status;
  owner_id = 1;
  assignee_id = 2;
  project_id = 0;
  version = 1;
  created_at = 1;
}

abbrev pub office : Db
office = record {
  principals = ada ∷ bo ∷ cy ∷ [];
  projects = [];
  tasks =
      task_of 10 TaskStatus.ready ∷ task_of 11 TaskStatus.ready ∷ task_of 12 TaskStatus.ready ∷ [];
  task_dependencies = record { task_id = 11; parent_id = 10 } ∷ [];
  handoffs = [];
  proposals = [];
  proposal_decisions = [];
  effects = [];
  receipts = [];
  simulator_records = [];
  business_operations = [];
  decision_gates = [];
  agent_runs = [];
  registry_releases = [];
  agents = [];
  agent_templates = [];
  positions = [];
  org_relationships = [];
  milestones = [];
  milestone_dependencies = [];
  jobs = [];
}

-- Ada's offer of task 10 to Cy, made at time 5 and open until 100.
abbrev pub offer : Handoff
offer = record {
  id = 50;
  task_id = 10;
  offered_task_version = 1;
  recipient_id = 3;
  role = HandoffRole.owner;
  summary = 8;
  state = HandoffState.offered;
  created_by = 1;
  created_at = 5;
  expires_at = some 100;
  accepted_at = none;
  resolved_at = none;
  reason = 0;
  hop_depth = 1;
}

abbrev pub offering : Db
offering = record office { handoffs = offer ∷ [] }

abbrev pub stock : ℕ → Fields
stock n = field "quantity" (number (int64 (pos n))) end

-- Payload {"delta":n} for the record 30 at version 1.
abbrev pub adjustment : ℕ → ℕ → Operation
adjustment n key = record {
  id = 0;
  integration = "inventory";
  action = "adjust";
  business_key = key ∷ [];
  target_id = 30;
  expected_version = 1;
  payload = members (("delta", some (number (json_number (some (pos n)) none))) ∷ []) true;
}

abbrev pub three_more : Operation
three_more = adjustment 3 b'a'

abbrev pub seven_more : Operation
seven_more = adjustment 7 b'b'

abbrev pub warehouse : Db
warehouse = record office {
  simulator_records =
      record { id = 30; integration = "inventory"; version = 1; fields = stock 5 } ∷ [];
}
