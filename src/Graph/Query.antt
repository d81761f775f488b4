-- ===== src/Graph/Query.antt =====
-- The guard that AddDependency and AddMilestoneDependency put before their insert: the recursive query
-- from the parent, and a refusal if it reaches the child.
use workforce_platform.Base.{
  ℕ, true, none, some, List, [], ◌∷◌, ◌++◌, ◌≡◌, ◌≢◌, refl, sym, subst, inl, inr, if◌then◌else◌,
  Bool-cases, ◌||◌, ◌&&◌, ◌==◌, arith,
}
use workforce_platform.Schema.{Ident, Db}
use workforce_platform.Errors.{query_did_not_end, dependency_cycle}
use workforce_platform.Tx.{Tx, ◌>>=◌, pure, fail, exec, refuse_if}
use workforce_platform.Tx.Ensures.{Ensures, ensures-of, ensures-bind, ensures-refuse, ensures-exec}
use workforce_platform.Graph.{Edges, Walk, IsAcyclic, mem, has_edge, reach}
use workforce_platform.Graph.Closure.{reach-Walk, reach_returns}
use workforce_platform.Graph.Acyclic.{IsAcyclic-added}

-- on conflict do nothing
abbrev pub insert_edge : Edges → ℕ → ℕ → Edges
insert_edge es c p = if has_edge es c p then es else es ++ (c, p) ∷ []

has_edge-append :
    (es : Edges) (c p u v : ℕ)
    → has_edge (es ++ (c, p) ∷ []) u v ≡ (has_edge es u v || (u == c && v == p))
unfolding has_edge
has_edge-append [] c p u v = ground arith
has_edge-append ((x, y) ∷ es) c p u v = ground (arith, has_edge-append es c p u v)

pub has_edge-insert_edge :
    (es : Edges) (c p u v : ℕ)
    → has_edge (insert_edge es c p) u v ≡ (has_edge es u v || (u == c && v == p))
has_edge-insert_edge es c p u v = elim (Bool-cases (has_edge es c p)) [
  | inl there ↦ elim (Bool-cases (u == c && v == p)) [
    | inl same ↦
        let at_c : u ≡ c = ground (arith, same) in
        let at_p : v ≡ p = ground (arith, same) in
        let is_there : has_edge es u v ≡ true = rw (at_c, at_p) there in
        rw there (ground (arith, is_there))
    | inr other ↦ rw there (ground (arith, other))
  ]
  | inr new ↦ rw new (has_edge-append es c p u v)
]

insert_edge-IsAcyclic :
    (es : Edges) (c p : ℕ) → c ≢ p → ¬ Walk es p c → IsAcyclic es → IsAcyclic (insert_edge es c p)
insert_edge-IsAcyclic es c p differ no_way acyclic = elim (Bool-cases (has_edge es c p)) [
  | inl there ↦ rw there acyclic
  | inr new ↦ rw new (IsAcyclic-added es c p differ no_way acyclic)
]

module _ (edges : Db → Edges) where
  unfoldable pub query_reach : Ident → Tx (List Ident)
  query_reach parent d = elim (reach (edges d) parent) [
    | none ↦ fail query_did_not_end d
    | some r ↦ pure r d
  ]

  query_reach_lem :
      (parent : Ident) (d : Db)
      → Ensures (query_reach parent) d (λ r d'. (d' ≡ d) × (reach (edges d) parent ≡ some r))
  unfolding query_reach pure
  query_reach_lem parent d =
      let (r, e) = reach_returns (edges d) parent in
      ensures-of (query_reach parent) d (rw (e, query_reach) (refl, refl))

  -- What is inserted behind the guard closes no cycle.
  pub guarded-IsAcyclic :
      (child parent : Ident) (insert : Db → Db) (d : Db)
      → ((d : Db) → edges (insert d) ≡ insert_edge (edges d) child parent)
      → child ≢ parent
      → IsAcyclic (edges d)
      → Ensures
          (query_reach parent >>= λ reached.
            refuse_if (mem child reached) dependency_cycle >>= λ _. exec insert)
          d
          (λ _ e. IsAcyclic (edges e))
  guarded-IsAcyclic child parent insert d shape differ acyclic =
      ensures-bind _ (query_reach parent) _ d (query_reach_lem parent d) λ r e (same, is_r).
        ensures-refuse _ _ _ e λ unreached. ensures-exec _ _ e (
          subst (λ e. IsAcyclic (edges (insert e))) (sym same)
            (subst IsAcyclic (sym (shape d)) (
              insert_edge-IsAcyclic (edges d) child parent differ
                (λ w. cc ((reach-Walk (edges d) parent r child is_r).0 w, unreached)) acyclic)))
