-- ===== src/Recovery/Reclaiming.antt =====
-- reclaimInOrg of internal/store/recovery.go: what it does to each run, and how many it takes.
use mathlib.Core.Option
use workforce_platform.Base.{
  ℕ, ◌+◌, ◌≤◌, true, false, some, ◌==◌, ◌≡◌, ◌⊎◌, refl, sym, ap, ◌∙◌, subst, inl, inr, arith,
  Bool-cases,
}
use workforce_platform.Base.Rows.{
  All, length, find_row, exists_where, select_where, update_if, IsKeyed, find_row-map, find_row-key,
}
use workforce_platform.Schema.{Ident, Time, AgentRun, agent_run_job, Db}
use workforce_platform.Errors.{ok}
use workforce_platform.Recovery.Stranded.{
  IsStranded, IsRequeued, IsStranded-is_stranded, is_stranded-IsStranded,
}
use workforce_platform.Recovery.{
  limit_or, max_recover_per_org, is_stranded, ordered, candidates, reclaim_row, is_among, requeued,
  reclaim_in_org,
}
use workforce_platform.Recovery.Picking.{
  is_job_of, All-take, pick, All-select, All-ordered, All-found, exists_job, length-take-le_limit,
  length-append_map, exists_where-take, exists_where-ordered, exists_where-select,
}

module _ (now : Time) (limit : ℕ) (d : Db) where
  abbrev Chosen : AgentRun → Type 0
  Chosen c = (find_row (λ r. r.id) c.id d.agent_runs ≡ some c) × (is_stranded now d.tasks c ≡ true)

  All-Chosen : IsKeyed (λ r. r.id) d.agent_runs → All Chosen (candidates now limit d)
  All-Chosen u =
      All-take Chosen (limit_or max_recover_per_org limit)
        (ordered (select_where (is_stranded now d.tasks) d.agent_runs))
        (All-ordered Chosen (select_where (is_stranded now d.tasks) d.agent_runs) (
          All-select (λ c. find_row (λ r. r.id) c.id d.agent_runs ≡ some c)
            (is_stranded now d.tasks) d.agent_runs (All-found (λ r. r.id) d.agent_runs u)))

  -- After reclaimInOrg a run of the table is requeued, with a job for it in the queue, and then it was
  -- stranded: running, without a lease or under one that is over, for a task that is neither done nor
  -- cancelled. Or it is as it was, and then it was not stranded, or the call has requeued as many runs as
  -- its limit, which is maxRecoverPerOrg for a limit of 0. The identifiers of the runs are unique.
  pub reclaim_requeues :
      (n : ℕ) (e : Db) (k : Ident) (r : AgentRun)
      → IsKeyed (λ r. r.id) d.agent_runs
      → reclaim_in_org now limit d ≡ ok (n, e)
      → find_row (λ r. r.id) k d.agent_runs ≡ some r
      → (IsStranded now d r
          × (s : AgentRun) × (find_row (λ r. r.id) k e.agent_runs ≡ some s)
          × IsRequeued r s
          × (exists_where (is_job_of k) e.jobs ≡ true))
        ⊎ ((find_row (λ r. r.id) k e.agent_runs ≡ some r)
            × ((¬ IsStranded now d r) ⊎ (n ≡ limit_or max_recover_per_org limit)))
  unfolding reclaim_in_org
  reclaim_requeues n e k r u done found = elim (Bool-cases (is_among (candidates now limit d) r)) [
    | inl among ↦ inl (
      IsStranded-is_stranded now d r (stranded among),
      reclaim_row r,
      subst (λ e. find_row (λ r. r.id) k e.agent_runs ≡ some (reclaim_row r)) left_by
          (moved ∙ rw (found, among) refl),
      (
        refl, refl, refl, refl, refl, refl, refl, refl, refl, refl, refl, refl, refl, refl, refl,
        refl, refl,
      ),
      subst (λ e. exists_where (is_job_of k) e.jobs ≡ true) left_by
          (exists_job k (candidates now limit d) d.jobs
            (subst (λ i. exists_where (λ c. c.id == i) (candidates now limit d) ≡ true) key among)),
    )
    | inr kept ↦ inr (
      subst (λ e. find_row (λ r. r.id) k e.agent_runs ≡ some r) left_by
          (moved ∙ rw (found, kept) refl),
      passed_over kept,
    )
  ]
    where
      left_by : requeued (candidates now limit d) d ≡ e
      left_by = ground (arith, done)

      key : r.id ≡ k
      key = find_row-key (λ r. r.id) k d.agent_runs r found

      moved :
          find_row (λ r. r.id) k (requeued (candidates now limit d) d).agent_runs
          ≡ Option.map
              (update_if (is_among (candidates now limit d)) reclaim_row)
              (find_row (λ r. r.id) k d.agent_runs)
      moved =
          find_row-map (λ r. r.id) k (update_if (is_among (candidates now limit d)) reclaim_row)
            (λ x. ground arith) d.agent_runs

      stranded : is_among (candidates now limit d) r ≡ true → is_stranded now d.tasks r ≡ true
      stranded among =
          let (c, chosen, same) =
            pick Chosen (λ c. c.id == r.id) (candidates now limit d) (All-Chosen u) among in
          let at_k : find_row (λ r. r.id) k d.agent_runs ≡ some c =
            subst (λ i. find_row (λ r. r.id) i d.agent_runs ≡ some c) (ground (arith, same, key))
              chosen.0 in
          let is_r : c ≡ r = ground (arith, at_k, found) in
          subst (λ c. is_stranded now d.tasks c ≡ true) is_r chosen.1

      full : length (candidates now limit d) ≡ n
      full = ground (arith, done)

      passed_over :
          is_among (candidates now limit d) r ≡ false
          → (¬ IsStranded now d r) ⊎ (n ≡ limit_or max_recover_per_org limit)
      passed_over kept = elim (Bool-cases (is_stranded now d.tasks r)) [
        | inr not_so ↦ inl (λ s. ground (arith, not_so, is_stranded-IsStranded now d r s))
        | inl so ↦
            elim (exists_where-take (λ c. c.id == r.id) (limit_or max_recover_per_org limit)
              (ordered (select_where (is_stranded now d.tasks) d.agent_runs))
              (exists_where-ordered (λ c. c.id == r.id)
                  (select_where (is_stranded now d.tasks) d.agent_runs)
                ∙ exists_where-select (λ r. r.id) r.id (is_stranded now d.tasks) d.agent_runs r
                    (subst (λ i. find_row (λ r. r.id) i d.agent_runs ≡ some r) (sym key) found)
                    so)) [
                      | inl there ↦ absurd (ground (arith, kept, there))
                      | inr limited ↦ inr (sym full ∙ limited)
                    ]
      ]

  -- One call of reclaimInOrg reports as many runs as it adds jobs, and no more than its limit, which is
  -- maxRecoverPerOrg for a limit of 0.
  reclaim_bounded :
      (n : ℕ) (e : Db)
      → reclaim_in_org now limit d ≡ ok (n, e)
      → (n ≤ limit_or max_recover_per_org limit) × (length e.jobs ≡ length d.jobs + n)
  unfolding reclaim_in_org
  reclaim_bounded n e done =
      let is_n : length (candidates now limit d) ≡ n = ground (arith, done) in
      let is_e : requeued (candidates now limit d) d ≡ e = ground (arith, done) in
      (
        subst (λ n. n ≤ limit_or max_recover_per_org limit) is_n
            (length-take-le_limit (limit_or max_recover_per_org limit)
              (ordered (select_where (is_stranded now d.tasks) d.agent_runs))),
        ap (λ e. length e.jobs) (sym is_e)
            ∙ length-append_map (λ r. agent_run_job r.id) d.jobs (candidates now limit d)
            ∙ ap (λ n. length d.jobs + n) is_n,
      )
