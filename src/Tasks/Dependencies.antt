-- ===== src/Tasks/Dependencies.antt =====
-- AddDependency keeps the dependencies free of cycles and refuses nothing else.
use workforce_platform.Base.{
  ◌||◌, ◌&&◌, ◌==◌, ◌⊎◌, ℕ, true, some, List, [], ◌∷◌, ◌++◌, map, ◌≡◌, ◌≢◌, refl, ap, inl, inr,
  arith, ◌∙◌, Bool-cases, if◌then◌else◌,
}
use workforce_platform.Schema.{Ident, Db, TaskDependency}
use workforce_platform.Errors.{ok, err, dependency_cycle}
use workforce_platform.Tx.{◌>>=◌, with_org}
use workforce_platform.Tx.Ensures.{Ensures, ensures-gets, ensures-refuse, with_org-keeps}
use workforce_platform.Graph.{Walk, IsAcyclic, mem, has_edge, reach}
use workforce_platform.Graph.Closure.{reach-Walk, reach_returns}
use workforce_platform.Tasks.{edge, edges, has_task, insert_dependency, add_dependency}
use workforce_platform.Graph.Query.{
  query_reach, insert_edge, has_edge-insert_edge, guarded-IsAcyclic,
}

edges-append :
    (xs : List TaskDependency) (x : TaskDependency)
    → map edge (xs ++ x ∷ []) ≡ map edge xs ++ edge x ∷ []
edges-append [] x = refl
edges-append (y ∷ xs) x = ap (λ zs. edge y ∷ zs) (edges-append xs x)

insert_dependency-edges :
    (task parent : Ident) (d : Db)
    → edges (insert_dependency task parent d) ≡ insert_edge (edges d) task parent
unfolding insert_dependency
insert_dependency-edges task parent d = elim (Bool-cases (has_edge (edges d) task parent)) [
  | inl there ↦ rw there refl
  | inr new ↦
      rw new (edges-append d.task_dependencies (record { task_id = task; parent_id = parent }))
]

add-IsAcyclic :
    (task parent : Ident) (d : Db)
    → IsAcyclic (edges d)
    → Ensures (add_dependency task parent) d (λ _ d'. IsAcyclic (edges d'))
unfolding add_dependency
add-IsAcyclic task parent d acyclic = ensures-refuse _ _ _ d λ differ. ensures-gets _ _ d (
    ensures-refuse _ _ _ d λ _.
      guarded-IsAcyclic edges task parent (insert_dependency task parent) d
        (insert_dependency-edges task parent) (λ e. ground arith) acyclic)

-- AddDependency, committed or rolled back, leaves dependencies without a cycle if there was none
-- before.
pub add_dependency-IsAcyclic :
    (task parent : Ident) (d : Db)
    → IsAcyclic (edges d)
    → IsAcyclic (edges (with_org (add_dependency task parent) d).1)
add_dependency-IsAcyclic task parent d acyclic =
    with_org-keeps (λ d. IsAcyclic (edges d)) (add_dependency task parent) d acyclic
      (add-IsAcyclic task parent d acyclic)

module _ (task parent : Ident) (d : Db) (differ : task ≢ parent)
    (child : has_task task d.tasks ≡ true) (known : has_task parent d.tasks ≡ true) where
  add_dependency_lem :
      (r : List ℕ)
      → reach (edges d) parent ≡ some r
      → add_dependency task parent d
        ≡ (if mem task r then err dependency_cycle else ok (tt, insert_dependency task parent d))
  unfolding add_dependency query_reach ◌>>=◌
  add_dependency_lem r e = ground arith

  -- Between two different tasks that exist, either the dependencies lead from the parent back to the
  -- task and AddDependency reports a cycle, or they do not and it records the dependency: the task then
  -- depends on the parent, and the other dependencies are as they were.
  pub add_dependency_decides :
      (Walk (edges d) parent task × (add_dependency task parent d ≡ err dependency_cycle))
      ⊎ ((¬ Walk (edges d) parent task)
          × (add_dependency task parent d ≡ ok (tt, insert_dependency task parent d))
          × ((c p : Ident)
              → has_edge (edges (insert_dependency task parent d)) c p
                ≡ (has_edge (edges d) c p || (c == task && p == parent))))
  add_dependency_decides =
      let (r, e) = reach_returns (edges d) parent in
      let (full, sound) = reach-Walk (edges d) parent r task e in
      elim (Bool-cases (mem task r)) [
        | inl back ↦ inl (sound back, add_dependency_lem r e ∙ rw back refl)
        | inr free ↦ inr (
          λ w. ground (arith, full w, free),
          add_dependency_lem r e ∙ rw free refl,
          λ c p.
              ap (λ es. has_edge es c p) (insert_dependency-edges task parent d)
              ∙ has_edge-insert_edge (edges d) task parent c p,
        )
      ]
