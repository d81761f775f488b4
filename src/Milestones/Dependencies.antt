-- ===== src/Milestones/Dependencies.antt =====
-- AddMilestoneDependency keeps the dependencies free of cycles.
use workforce_platform.Base.{List, [], ◌∷◌, ◌++◌, map, ◌≡◌, refl, ap, inl, inr, arith, Bool-cases}
use workforce_platform.Schema.{Ident, Db, MilestoneDependency}
use workforce_platform.Tx.{with_org}
use workforce_platform.Tx.Ensures.{Ensures, ensures-gets, ensures-refuse, with_org-keeps}
use workforce_platform.Graph.{IsAcyclic, has_edge}
use workforce_platform.Graph.Query.{insert_edge, guarded-IsAcyclic}
use workforce_platform.Milestones.{edge, edges, insert_dependency, add_milestone_dependency}

edges-append :
    (xs : List MilestoneDependency) (x : MilestoneDependency)
    → map edge (xs ++ x ∷ []) ≡ map edge xs ++ edge x ∷ []
edges-append [] x = refl
edges-append (y ∷ xs) x = ap (λ zs. edge y ∷ zs) (edges-append xs x)

insert_dependency-edges :
    (child parent : Ident) (d : Db)
    → edges (insert_dependency child parent d) ≡ insert_edge (edges d) child parent
unfolding insert_dependency
insert_dependency-edges child parent d = elim (Bool-cases (has_edge (edges d) child parent)) [
  | inl there ↦ rw there refl
  | inr new ↦
      rw new (
        edges-append d.milestone_dependencies (record { milestone_id = child; parent_id = parent }))
]

add-IsAcyclic :
    (child parent : Ident) (d : Db)
    → IsAcyclic (edges d)
    → Ensures (add_milestone_dependency child parent) d (λ _ e. IsAcyclic (edges e))
unfolding add_milestone_dependency
add-IsAcyclic child parent d acyclic = ensures-refuse _ _ _ d λ differ. ensures-gets _ _ d (
    ensures-refuse _ _ _ d λ _.
      guarded-IsAcyclic edges child parent (insert_dependency child parent) d
        (insert_dependency-edges child parent) (λ e. ground arith) acyclic)

-- AddMilestoneDependency, committed or rolled back, leaves the prerequisites without a cycle if there
-- was none before.
add_milestone_dependency-IsAcyclic :
    (child parent : Ident) (d : Db)
    → IsAcyclic (edges d)
    → IsAcyclic (edges (with_org (add_milestone_dependency child parent) d).1)
add_milestone_dependency-IsAcyclic child parent d acyclic =
    with_org-keeps (λ d. IsAcyclic (edges d)) (add_milestone_dependency child parent) d acyclic
      (add-IsAcyclic child parent d acyclic)
