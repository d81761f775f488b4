-- ===== src/Gates.antt =====
-- internal/store/gates.go: questions that park a run until the respondent answers.
pub mod Schemas
pub mod Answers
pub mod Resolving
pub mod Answering
pub mod Resuming
pub mod Reading
use workforce_platform.Base.{
  ℕ, suc, ◌+◌, Bool, true, false, not, ◌&&◌, ◌||◌, Option, none, some, List, [], ◌∷◌, ◌++◌, ◌==◌,
  if◌then◌else◌,
}
use workforce_platform.Base.Rows.{
  find_row, find_where, exists_where, update_where, set_row, select_where,
}
use workforce_platform.Base.Int.{ℤ, ltz}
use workforce_platform.Schema.{
  Ident, Time, Principal, Role, Task, Gate, GateStatus, AgentRun, RunStatus, Job, agent_run_job, Db,
}
use workforce_platform.Schema.Values.{
  Json, Items, Fields, Number, Float64, null, boolean, number, string, array, object, nil, cons,
  end, field, int64, float64, json_number, whole, fractional, not_finite,
}
use workforce_platform.Errors.{
  Error, Result, ok, err, gate_not_found, gate_not_respondent, gate_revision, gate_already_resolved,
}
use workforce_platform.Tx.{Tx, ◌>>=◌, ◌>>◌, pure, fail, gets, query_row, exec, refuse_if, with_org}
use workforce_platform.Tasks.{find_task, is_pending_gate}
use workforce_platform.Decisions.{enqueue}
use workforce_platform.Proposals.{lift}
use workforce_platform.Connectors.Payloads.{get_field}
use Schemas.{validate_gate_response, is_there}

-- json.Unmarshal into `any` reads every number as a float64, and fails on one that is too large.
abbrev pub float_of : Number → Option Float64
float_of (int64 z) = some (whole z)
float_of (float64 f) = some f
float_of (json_number i f) = f

abbrev pub same_integer : ℤ → ℤ → Bool
same_integer a b = not (ltz a b) && not (ltz b a)

abbrev pub same_float : Option Float64 → Option Float64 → Bool
same_float (some (whole a)) (some (whole b)) = same_integer a b
same_float (some (fractional a)) (some (fractional b)) = a == b
same_float _ _ = false

abbrev pub same_boolean : Bool → Bool → Bool
same_boolean true b = b
same_boolean false b = not b

unfoldable pub count_fields : Fields → ℕ
count_fields end = 0
count_fields (field k v rest) = suc (count_fields rest)

abbrev pub or_null : Option Json → Json
or_null none = null
or_null (some v) = v

-- reflect.DeepEqual on decoded documents: the order of members does not count.
unfoldable mutual
  pub deep_equal : Json → Json → Bool
  deep_equal null null = true
  deep_equal (boolean a) (boolean b) = same_boolean a b
  deep_equal (number a) (number b) = same_float (float_of a) (float_of b)
  deep_equal (string a) (string b) = a == b
  deep_equal (array xs) (array ys) = items_equal xs ys
  deep_equal (object fs) (object gs) = count_fields fs == count_fields gs && fields_within fs gs
  deep_equal _ _ = false

  pub items_equal : Items → Items → Bool
  items_equal nil nil = true
  items_equal (cons x xs) (cons y ys) = deep_equal x y && items_equal xs ys
  items_equal _ _ = false

  pub fields_within : Fields → Fields → Bool
  fields_within end gs = true
  fields_within (field k v rest) gs =
      is_there (get_field k gs)
      && (deep_equal v (or_null (get_field k gs)) && fields_within rest gs)

-- jsonEqual; `none` is a text that does not decode.
unfoldable pub json_equal : Option Json → Option Json → Bool
json_equal (some a) (some b) = deep_equal a b
json_equal _ _ = false

abbrev pub find_gate : Ident → Db → Option Gate
find_gate id d = find_row (λ g. g.id) id d.decision_gates

abbrev pub found_gate : Option Gate → Tx Gate
found_gate none = fail gate_not_found
found_gate (some g) = pure g

-- GetGate
unfoldable pub get_gate : Ident → Tx Gate
get_gate id = do found ← gets (find_gate id); found_gate found

abbrev pub is_admin : Role → Bool
is_admin Role.admin = true
is_admin _ = false

abbrev pub find_principal : Ident → Db → Option Principal
find_principal id d = find_row (λ p. p.id) id d.principals

-- Somebody other than the respondent reads as the owner of the gate's task or as an active admin.
abbrev pub read_by_other : Ident → Gate → Option Principal → Option Task → Db → Result (Gate × Db)
read_by_other actor g none t d = err gate_not_found
read_by_other actor g (some p) none d = err gate_not_found
read_by_other actor g (some p) (some t) d =
    if p.active && (is_admin p.role || t.owner_id == actor) then ok (g, d) else err gate_not_found

-- ReadGate
unfoldable pub read_gate : Ident → Ident → Tx Gate
read_gate id actor = do
  found ← gets (find_gate id)
  g ← found_gate found
  who ← gets (find_principal actor)
  task ← gets (λ d. find_task g.task_id d.tasks)
  if g.respondent_id == actor then pure g else read_by_other actor g who task

abbrev pub may_answer : Option Principal → Bool
may_answer none = false
may_answer (some p) = p.active

abbrev pub is_resolved : GateStatus → Bool
is_resolved GateStatus.resolved = true
is_resolved _ = false

abbrev pub answer_row : Time → Ident → Option Json → Gate → Gate
answer_row now actor response g = record g {
  status = GateStatus.resolved;
  response = response;
  responded_by = actor;
  responded_at = some now;
  version = g.version + 1;
}

abbrev pub answer : Time → Ident → Ident → Option Json → Db → Db
answer now id actor response d = record d {
  decision_gates = set_row (λ g. g.id) id (answer_row now actor response) d.decision_gates;
}

abbrev pub is_parked_at : Ident → AgentRun → Bool
is_parked_at gate r = elim r.status [ RunStatus.waiting ↦ r.gate_id == gate | _ ↦ false ]

abbrev pub requeue_row : AgentRun → AgentRun
requeue_row r = record r { status = RunStatus.queued; claim_token = 0; claim_expires_at = none }

-- The run that the gate parks goes back to the queue, with a job, if it is still waiting there.
unfoldable pub resume : Ident → Ident → Tx (Unit {0})
resume gate run d =
    if not (run == 0) && exists_where (λ r. r.id == run && is_parked_at gate r) d.agent_runs
    then pure tt (
        enqueue (agent_run_job run) (record d {
          agent_runs =
              update_where (λ r. r.id == run && is_parked_at gate r) requeue_row d.agent_runs;
        }))
    else pure tt d

unfoldable pub resolve_pending : Time → Ident → Gate → ℕ → Option Json → Tx (Unit {0})
resolve_pending now actor g revision response = do
  refuse_if (not (is_pending_gate g.status)) gate_already_resolved
  refuse_if (not (g.revision == revision)) gate_revision
  lift (validate_gate_response g.input_schema response)
  exec (answer now g.id actor response)
  resume g.id g.run_id

-- The transaction of ResolveGate: a repeated answer of the respondent succeeds and writes nothing.
unfoldable pub resolve_gate_tx : Time → Ident → Ident → ℕ → Option Json → Tx (Unit {0})
resolve_gate_tx now id actor revision response = do
  found ← gets (find_gate id)
  g ← found_gate found
  who ← gets (find_principal actor)
  refuse_if (not (may_answer who) || not (g.respondent_id == actor)) gate_not_respondent
  if is_resolved g.status && (g.responded_by == actor && json_equal g.response response)
      then pure tt
      else resolve_pending now actor g revision response

-- ResolveGate reads the gate again in a transaction of its own.
abbrev pub reread : Ident → Result (Unit {0}) × Db → Result Gate × Db
reread id (ok _, d) = with_org (get_gate id) d
reread id (err e, d) = (err e, d)

unfoldable pub resolve_gate : Time → Ident → Ident → ℕ → Option Json → Db → Result Gate × Db
resolve_gate now id actor revision response d =
    reread id (with_org (resolve_gate_tx now id actor revision response) d)
