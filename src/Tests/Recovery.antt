-- ===== src/Tests/Recovery.antt =====
-- The recovery sweep, run and witnessed.
use workforce_platform.Base.{true, some, [], ◌∷◌, ◌≡◌, ◌⊎◌, refl, arith}
use workforce_platform.Base.Rows.{find_row, find_where, exists_where, select_where}
use workforce_platform.Schema.{AgentRun}
use workforce_platform.Errors.{ok}
use workforce_platform.Recovery.{
  sweeps, take, reclaim_in_org, ordered, insert_ordered, requeued, limit_or, max_recover_per_org,
}
use workforce_platform.Recovery.Walk.{sweeps_all}
use workforce_platform.Recovery.Stranded.{IsStranded, IsRequeued}
use workforce_platform.Recovery.Picking.{is_job_of}
use workforce_platform.Recovery.Reclaiming.{reclaim_requeues}
use workforce_platform.Tests.AgentRuns.{running, stranded}

-- Five organizations, two to a page.
sweeps_all_example : sweeps 2 (3 ∷ 5 ∷ 8 ∷ 9 ∷ 12 ∷ []) 6 0 ≡ 3 ∷ 5 ∷ 8 ∷ 9 ∷ 12 ∷ []
sweeps_all_example =
    sweeps_all 2 (3 ∷ 5 ∷ 8 ∷ 9 ∷ 12 ∷ []) 6
      (omega arith, (omega arith, (omega arith, (omega arith, (omega arith, tt))))) (omega arith)

reclaims : reclaim_in_org 130 0 stranded ≡ ok (1, requeued (running ∷ []) stranded)
unfolding reclaim_in_org take ordered insert_ordered select_where exists_where
reclaims = refl

reclaim_requeues_example :
    (IsStranded 130 stranded running
      × (s : AgentRun) × (find_row (λ r. r.id) 40 (requeued (running ∷ []) stranded).agent_runs
          ≡ some s)
      × IsRequeued running s
      × (exists_where (is_job_of 40) (requeued (running ∷ []) stranded).jobs ≡ true))
    ⊎ ((find_row (λ r. r.id) 40 (requeued (running ∷ []) stranded).agent_runs ≡ some running)
        × ((¬ IsStranded 130 stranded running) ⊎ (1 ≡ limit_or max_recover_per_org 0)))
unfolding find_where
reclaim_requeues_example =
    reclaim_requeues 130 0 stranded 1 (requeued (running ∷ []) stranded) 40 running (refl, tt)
      reclaims refl
