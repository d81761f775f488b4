-- ===== src/Tests/Tasks.antt =====
-- Tasks and dependencies, run and witnessed.
use workforce_platform.Base.{
  true, false, ◌||◌, ◌&&◌, some, [], ◌∷◌, ◌≡◌, ℕ, List, ◌⊎◌, ◌↔◌, refl, arith, ◌==◌,
}
use workforce_platform.Base.Rows.{find_where, exists_where}
use workforce_platform.Schema.{Ident, Task, TaskStatus, Db}
use workforce_platform.Errors.{ok, err, dependency_cycle}
use workforce_platform.Tx.{◌>>=◌, with_org}
use workforce_platform.Graph.{Walk, IsAcyclic, has_edge, mem, reach, closure, new_parents}
use workforce_platform.Graph.Closure.{reach-Walk, reach_returns}
use workforce_platform.Graph.Acyclic.{no-Walk, nil-IsAcyclic, IsAcyclic-added}
use workforce_platform.Graph.Query.{query_reach}
use workforce_platform.Tasks.{
  edges, add_dependency, insert_dependency, cancel_task, cancel_row, is_done,
}
use workforce_platform.Tasks.Dependencies.{add_dependency-IsAcyclic, add_dependency_decides}
use workforce_platform.Tasks.Cancelling.{IsSettled, IsCancelled, cancel_task_settles}
use workforce_platform.Tests.Samples.{office, task_of}

-- 11 depends on 10, and now 12 on 11.
chained : (with_org (add_dependency 12 11) office).0 ≡ ok tt
unfolding with_org add_dependency query_reach reach closure new_parents mem exists_where ◌>>=◌
chained = refl

closes_a_cycle : (with_org (add_dependency 10 11) office).0 ≡ err dependency_cycle
unfolding with_org add_dependency query_reach reach closure new_parents mem exists_where ◌>>=◌
closes_a_cycle = refl

reach-Walk_example : Walk (edges office) 11 10 ↔ (mem 10 (10 ∷ []) ≡ true)
unfolding reach closure new_parents mem
reach-Walk_example = reach-Walk (edges office) 11 (10 ∷ []) 10 refl

reach_returns_example : (r : List ℕ) × (reach (edges office) 11 ≡ some r)
reach_returns_example = reach_returns (edges office) 11

office-IsAcyclic : IsAcyclic (edges office)
office-IsAcyclic = IsAcyclic-added [] 11 10 (λ e. omega arith) no-Walk nil-IsAcyclic

add_dependency-IsAcyclic_example : IsAcyclic (edges (with_org (add_dependency 12 11) office).1)
add_dependency-IsAcyclic_example = add_dependency-IsAcyclic 12 11 office office-IsAcyclic

add_dependency_decides_example :
    (Walk (edges office) 11 10 × (add_dependency 10 11 office ≡ err dependency_cycle))
    ⊎ ((¬ Walk (edges office) 11 10)
        × (add_dependency 10 11 office ≡ ok (tt, insert_dependency 10 11 office))
        × ((c p : Ident)
            → has_edge (edges (insert_dependency 10 11 office)) c p
              ≡ (has_edge (edges office) c p || (c == 10 && p == 11))))
unfolding exists_where
add_dependency_decides_example = add_dependency_decides 10 11 office (λ e. omega arith) refl refl

abbrev stopped : Db
stopped = record office {
  tasks =
      cancel_row (task_of 10 TaskStatus.ready)
      ∷ task_of 11 TaskStatus.ready
      ∷ task_of 12 TaskStatus.ready
      ∷ [];
}

cancel_task_settles_example :
    ((task_of 10 TaskStatus.ready).version ≡ 1)
    × (is_done TaskStatus.ready ≡ false)
    × (s : Task) × (find_where (λ t. t.id == 10) stopped.tasks ≡ some s)
    × IsCancelled (task_of 10 TaskStatus.ready) s
    × IsSettled 10 stopped
unfolding cancel_task exists_where find_where ◌>>=◌
cancel_task_settles_example =
    cancel_task_settles 9 10 1 office stopped (task_of 10 TaskStatus.ready)
      (refl, (refl, (refl, tt))) refl refl
