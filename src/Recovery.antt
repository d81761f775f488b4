-- ===== src/Recovery.antt =====
-- internal/store/recovery.go: the sweep that sends stranded runs back to the queue. The directory of
-- organizations is the sorted list of its identifiers; the cursor 0 stands before all of them.
pub mod Walk
pub mod Stranded
pub mod Picking
pub mod Reclaiming
use workforce_platform.Base.{
  ℕ, zero, suc, ◌+◌, Bool, true, false, not, ◌&&◌, ◌||◌, Option, none, some, List, [], ◌∷◌, ◌++◌,
  map, ◌==◌, ltb, leb, if◌then◌else◌,
}
use workforce_platform.Base.Rows.{length, select_where, exists_where, update_where}
use workforce_platform.Schema.{Ident, Time, Task, AgentRun, RunStatus, Job, agent_run_job, Db}
use workforce_platform.Errors.{ok}
use workforce_platform.Tx.{Tx}
use workforce_platform.Tasks.{is_terminal}
use workforce_platform.AgentRuns.{is_running, lease_over}

abbrev pub sweep_batch : ℕ
sweep_batch = 50

abbrev pub max_recover_per_org : ℕ
max_recover_per_org = 20

-- A limit of 0 or less means the default.
abbrev pub limit_or : ℕ → ℕ → ℕ
limit_or default limit = if limit == 0 then default else limit

unfoldable pub take {ℓ} : {A : Type ℓ} → ℕ → List A → List A
take zero xs = []
take (suc n) [] = []
take (suc n) (x ∷ xs) = x ∷ take n xs

-- orgsAfter: a page, and whether it is the last one.
unfoldable pub orgs_after : Ident → ℕ → List Ident → List Ident × Bool
orgs_after after limit orgs =
    let page = take (limit_or sweep_batch limit) (select_where (ltb after) orgs) in
    (page, ltb (length page) (limit_or sweep_batch limit))

unfoldable pub last : Ident → List Ident → Ident
last x [] = x
last x (y ∷ ys) = last y ys

-- The cursor that reclaimSweep hands on, with 0 where the walk wraps around.
unfoldable pub next_cursor : List Ident × Bool → Ident
next_cursor (page, true) = 0
next_cursor (page, false) = last 0 page

-- The organizations that the sweeps from a cursor on examine, until the walk wraps around.
unfoldable pub sweeps : ℕ → List Ident → ℕ → Ident → List Ident
sweeps limit orgs zero cursor = []
sweeps limit orgs (suc fuel) cursor =
    let found = orgs_after cursor limit orgs in
    let rest = sweeps limit orgs fuel (next_cursor found) in
    if next_cursor found == 0 then found.0 else found.0 ++ rest

abbrev pub is_live : Ident → List Task → Bool
is_live task tasks = exists_where (λ t. t.id == task && not (is_terminal t.status)) tasks

-- A run whose lease is over, of a task that is not closed.
abbrev pub is_stranded : Time → List Task → AgentRun → Bool
is_stranded now tasks r =
    is_running r.status && (lease_over now r.claim_expires_at && is_live r.task_id tasks)

-- order by claim_expires_at nulls first, id
abbrev pub before : Option Time → Option Time → Bool → Bool
before none none by_id = by_id
before none (some t) by_id = true
before (some s) none by_id = false
before (some s) (some t) by_id = ltb s t || (s == t && by_id)

abbrev pub comes_before : AgentRun → AgentRun → Bool
comes_before r s = before r.claim_expires_at s.claim_expires_at (leb r.id s.id)

unfoldable pub insert_ordered : AgentRun → List AgentRun → List AgentRun
insert_ordered r [] = r ∷ []
insert_ordered r (s ∷ rest) = if comes_before r s then r ∷ s ∷ rest else s ∷ insert_ordered r rest

unfoldable pub ordered : List AgentRun → List AgentRun
ordered [] = []
ordered (r ∷ rs) = insert_ordered r (ordered rs)

abbrev pub candidates : Time → ℕ → Db → List AgentRun
candidates now limit d =
    take (limit_or max_recover_per_org limit)
      (ordered (select_where (is_stranded now d.tasks) d.agent_runs))

abbrev pub reclaim_row : AgentRun → AgentRun
reclaim_row r = record r {
  status = RunStatus.queued;
  claim_token = 0;
  claim_expires_at = none;
  attempt = r.attempt + 1;
}

abbrev pub is_among : List AgentRun → AgentRun → Bool
is_among chosen r = exists_where (λ c. c.id == r.id) chosen

abbrev pub requeued : List AgentRun → Db → Db
requeued chosen d = record d {
  agent_runs = update_where (is_among chosen) reclaim_row d.agent_runs;
  jobs = d.jobs ++ map (λ r. agent_run_job r.id) chosen;
}

-- reclaimInOrg
unfoldable pub reclaim_in_org : Time → ℕ → Tx ℕ
reclaim_in_org now limit d =
    ok (length (candidates now limit d), requeued (candidates now limit d) d)
