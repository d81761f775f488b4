-- ===== src/Recovery/Stranded.antt =====
-- The runs that reclaimInOrg of internal/store/recovery.go picks, described without its query.
use workforce_platform.Base.{
  ◌+◌, ◌<◌, ◌≢◌, ◌&&◌, not, Option, none, some, true, ◌==◌, ◌≡◌, ◌⊎◌, refl, inl, inr, arith,
}
use workforce_platform.Base.Any.{Any, Any-exists, exists-Any}
use workforce_platform.Tasks.{is_terminal}
use workforce_platform.AgentRuns.{is_running, lease_over}
use workforce_platform.Schema.{Ident, Time, Task, TaskStatus, RunStatus, AgentRun, Db}
use workforce_platform.Recovery.{is_stranded}

open_status :
    (s : TaskStatus)
    → not (is_terminal s) ≡ true
    → (s ≢ TaskStatus.done) × (s ≢ TaskStatus.cancelled)
open_status s h = (λ e. ground (arith, h, e), λ e. ground (arith, h, e))

is_open_status :
    (s : TaskStatus) → s ≢ TaskStatus.done → s ≢ TaskStatus.cancelled → not (is_terminal s) ≡ true
is_open_status TaskStatus.done x y = absurd (x refl)
is_open_status TaskStatus.cancelled x y = absurd (y refl)
is_open_status _ x y = refl

-- A task of the table that is neither done nor cancelled.
abbrev pub IsOpenTask : Ident → Task → Type 0
IsOpenTask k t = (t.id ≡ k) × (t.status ≢ TaskStatus.done) × (t.status ≢ TaskStatus.cancelled)

-- Running, without a lease or under one that is over, for a task that is neither done nor cancelled.
abbrev pub IsStranded : Time → Db → AgentRun → Type 0
IsStranded now d r =
    (r.status ≡ RunStatus.running)
    × ((r.claim_expires_at ≡ none) ⊎ ((t : Time) × (r.claim_expires_at ≡ some t) × (t < now)))
    × Any (IsOpenTask r.task_id) d.tasks

-- Queued, without token and lease, one attempt further, and otherwise the same run.
abbrev pub IsRequeued : AgentRun → AgentRun → Type 0
IsRequeued r s =
    (s.status ≡ RunStatus.queued)
    × (s.claim_token ≡ 0)
    × (s.claim_expires_at ≡ none)
    × (s.attempt ≡ r.attempt + 1)
    × (s.id ≡ r.id)
    × (s.task_id ≡ r.task_id)
    × (s.agent_id ≡ r.agent_id)
    × (s.runner_id ≡ r.runner_id)
    × (s.intent ≡ r.intent)
    × (s.release_id ≡ r.release_id)
    × (s.created_by ≡ r.created_by)
    × (s.gate_id ≡ r.gate_id)
    × (s.proposal_id ≡ r.proposal_id)
    × (s.harness ≡ r.harness)
    × (s.failure_reason ≡ r.failure_reason)
    × (s.result_summary ≡ r.result_summary)
    × (s.finished_at ≡ r.finished_at)

running_status : (s : RunStatus) → is_running s ≡ true → s ≡ RunStatus.running
running_status RunStatus.running h = refl
running_status _ h = cc

lease_ended :
    (now : Time) (o : Option Time)
    → lease_over now o ≡ true
    → (o ≡ none) ⊎ ((t : Time) × (o ≡ some t) × (t < now))
lease_ended now none h = inl refl
lease_ended now (some t) h = inr (t, refl, ground (arith, h))

lease_is_over :
    (now : Time) (o : Option Time)
    → (o ≡ none) ⊎ ((t : Time) × (o ≡ some t) × (t < now))
    → lease_over now o ≡ true
lease_is_over now none h = refl
lease_is_over now (some t) (inl e) = cc
lease_is_over now (some t) (inr (s, e, lt)) = ground (arith, e, lt)

pub IsStranded-is_stranded :
    (now : Time) (d : Db) (r : AgentRun) → is_stranded now d.tasks r ≡ true → IsStranded now d r
IsStranded-is_stranded now d r h = (
  running_status r.status (ground (arith, h)),
  lease_ended now r.claim_expires_at (ground (arith, h)),
  Any-exists (λ t. t.id == r.task_id && not (is_terminal t.status)) (IsOpenTask r.task_id)
      (λ t e. let (x, y) = open_status t.status (ground (arith, e)) in (ground (arith, e), x, y))
      d.tasks (ground (arith, h)),
)

pub is_stranded-IsStranded :
    (now : Time) (d : Db) (r : AgentRun) → IsStranded now d r → is_stranded now d.tasks r ≡ true
is_stranded-IsStranded now d r (runs, over, task) =
    rw
      (
        runs,
        lease_is_over now r.claim_expires_at over,
        exists-Any (λ t. t.id == r.task_id && not (is_terminal t.status)) (IsOpenTask r.task_id)
            (λ t (same, a, b). ground (arith, same, is_open_status t.status a b)) d.tasks task,
      )
      refl
