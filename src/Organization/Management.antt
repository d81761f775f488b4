-- ===== src/Organization/Management.antt =====
-- At every instant the persons of internal/store/organization.go and their managers are a forest.
use workforce_platform.Base.{
  ℕ, Bool, true, false, ◌&&◌, ◌||◌, Option, none, some, List, [], ◌∷◌, ◌++◌, map, ◌==◌, leb, ◌≡◌,
  ◌≢◌, refl, sym, subst, arith, inl, inr, Bool-cases,
}
use workforce_platform.Base.Rows.{select_where}
use workforce_platform.Schema.{
  Ident, Time, Relationship, RelationshipKind, reports_to, member_of, covers_for, unsupported, Db,
}
use workforce_platform.Tx.{with_org}
use workforce_platform.Tx.Ensures.{
  Ensures, ensures-bind, ensures-gets, ensures-refuse, ensures-check, ensures-exec-then,
  ensures-pure, ensures-weaken, with_org-keeps,
}
use workforce_platform.Graph.{Edges, has_edge, Walk, IsAcyclic}
use workforce_platform.Graph.Acyclic.{IsAcyclic-added}
use workforce_platform.Principals.{ensures-active, require_lem}
use workforce_platform.Organization.{
  starts_before_end, in_effect, is_reports_to, edge, management_edges, in_chain, max_depth,
  detect_management_cycle, check_object, insert_relationship, create_relationship,
}
use workforce_platform.Organization.Walking.{steps, in_chain-Walk}

-- Who reports to whom at an instant.
abbrev pub edges_at : Time → Db → Edges
edges_at t d =
    map edge (select_where (λ r. is_reports_to r.kind && in_effect t r) d.org_relationships)

-- No way up has more edges than the walk of detectManagementCycle follows.
abbrev pub IsShallow : Edges → Type 0
IsShallow es = (u v : ℕ) (r : Walk es u v) → leb (steps r) max_depth ≡ true

has_edge-step :
    (p : Relationship → Bool) (r : Relationship) (rs : List Relationship) (u v : ℕ)
    → has_edge (map edge (select_where p (r ∷ rs))) u v ≡ (
        p r && (r.subject_id == u && r.object_id == v)
        || has_edge (map edge (select_where p rs)) u v)
unfolding select_where has_edge
has_edge-step p r rs u v = elim (Bool-cases (p r)) [
  | inl here ↦ rw here refl
  | inr other ↦ rw other refl
]

has_edge-select_where :
    (p q : Relationship → Bool) (rs : List Relationship) (u v : ℕ)
    → ((r : Relationship) → p r ≡ true → q r ≡ true)
    → has_edge (map edge (select_where p rs)) u v ≡ true
    → has_edge (map edge (select_where q rs)) u v ≡ true
unfolding select_where
has_edge-select_where p q [] u v k h = h
has_edge-select_where p q (r ∷ rs) u v k h = elim (Bool-cases (p r)) [
  | inl here ↦ ground (
    arith,
    h,
    k r here,
    has_edge-step p r rs u v,
    has_edge-step q r rs u v,
    has_edge-select_where p q rs u v k,
  )
  | inr other ↦ ground (
    arith,
    h,
    other,
    has_edge-step p r rs u v,
    has_edge-step q r rs u v,
    has_edge-select_where p q rs u v k,
  )
]

edges-kept :
    (p : Relationship → Bool) (rs : List Relationship) (r : Relationship)
    → p r ≡ false
    → map edge (select_where p (rs ++ r ∷ [])) ≡ map edge (select_where p rs)
unfolding select_where
edges-kept p [] r e = rw e refl
edges-kept p (x ∷ xs) r e = elim (Bool-cases (p x)) [
  | inl here ↦ rw (here, edges-kept p xs r e) refl
  | inr other ↦ rw (other, edges-kept p xs r e) refl
]

edges-added :
    (p : Relationship → Bool) (rs : List Relationship) (r : Relationship)
    → p r ≡ true
    → map edge (select_where p (rs ++ r ∷ [])) ≡ map edge (select_where p rs) ++ edge r ∷ []
unfolding select_where
edges-added p [] r e = rw e refl
edges-added p (x ∷ xs) r e = elim (Bool-cases (p x)) [
  | inl here ↦ rw (here, edges-added p xs r e) refl
  | inr other ↦ rw (other, edges-added p xs r e) refl
]

-- Two periods that are both in effect at an instant overlap.
both_in_effect :
    (t from since : Time) (to until : Option Time)
    → (leb from t && starts_before_end t to) ≡ true
    → (leb since t && starts_before_end t until) ≡ true
    → (starts_before_end from until && starts_before_end since to) ≡ true
both_in_effect t from since none none h k = refl
both_in_effect t from since none (some u) h k = ground (arith, h, k)
both_in_effect t from since (some e) none h k = ground (arith, h, k)
both_in_effect t from since (some e) (some u) h k = ground (arith, h, k)

module _ (id : Ident) (now : Time) (actor subject object : Ident) (from : Time) (to : Option Time)
    (t : Time) where
  abbrev row : RelationshipKind → Relationship
  row kind = record {
    id = id;
    subject_id = subject;
    kind = kind;
    object_id = object;
    valid_from = from;
    valid_to = to;
    created_by = actor;
    created_at = now;
  }

  abbrev with_row : Relationship → Db → Db
  with_row r d = record d { org_relationships = d.org_relationships ++ r ∷ [] }

  abbrev is_managed : Relationship → Bool
  is_managed r = is_reports_to r.kind && in_effect t r

  -- Without a cycle in the walk, a row of the window that has been checked keeps the graph acyclic.
  abbrev Checked : RelationshipKind → Db → Db → Type 0
  Checked kind d e =
      (e ≡ d)
      × (is_reports_to kind ≡ true
          → in_chain (management_edges from to d) max_depth (object ∷ []) subject ≡ false)

  check_object_lem :
      (kind : RelationshipKind) (d : Db)
      → Ensures (check_object kind subject object from to) d (λ _ e. Checked kind d e)
  unfolding detect_management_cycle
  check_object_lem member_of d = ensures-gets _ _ d (ensures-check _ _ _ d λ _. (refl, λ h. cc))
  check_object_lem reports_to d =
      ensures-active _ object _ d
        (ensures-gets _ _ d (ensures-check _ _ _ d λ free. (refl, λ h. free)))
  check_object_lem covers_for d =
      ensures-weaken _ _ _ d (λ _ e s. (s, λ h. cc)) (require_lem object d)
  check_object_lem (unsupported k) d =
      ensures-weaken _ _ _ d (λ _ e s. (s, λ h. cc)) (require_lem object d)

  module _ (d : Db) (differ : subject ≢ object) (shallow : IsShallow (edges_at t d))
      (acyclic : IsAcyclic (edges_at t d)) where
    -- While a period is in effect, so is every row of a way up, and the walk meets it.
    no_way_up :
        (leb from t && starts_before_end t to) ≡ true
        → in_chain (management_edges from to d) max_depth (object ∷ []) subject ≡ false
        → ¬ Walk (edges_at t d) object subject
    no_way_up at free r = cc (
      free,
      in_chain-Walk (edges_at t d) (management_edges from to d)
          (λ u v.
            has_edge-select_where is_managed _ d.org_relationships u v
              λ x h. ground (arith, h, both_in_effect t from x.valid_from to x.valid_to at))
          r max_depth (shallow object subject r),
    )

    row-IsAcyclic :
        (kind : RelationshipKind)
        → (is_reports_to kind ≡ true
            → in_chain (management_edges from to d) max_depth (object ∷ []) subject ≡ false)
        → IsAcyclic (edges_at t (with_row (row kind) d))
    row-IsAcyclic kind free =
        elim (Bool-cases (is_reports_to kind && (leb from t && starts_before_end t to))) [
          | inl at ↦
              subst IsAcyclic (sym (edges-added is_managed d.org_relationships (row kind) at)) (
                IsAcyclic-added (edges_at t d) subject object differ
                  (no_way_up (ground (arith, at)) (free (ground (arith, at)))) acyclic)
          | inr off ↦
              subst IsAcyclic (sym (edges-kept is_managed d.org_relationships (row kind) off))
                acyclic
        ]

    insert-IsAcyclic :
        (kind : RelationshipKind)
        → (is_reports_to kind ≡ true
            → in_chain (management_edges from to d) max_depth (object ∷ []) subject ≡ false)
        → Ensures (insert_relationship (row kind)) d (λ _ e. IsAcyclic (edges_at t e))
    unfolding insert_relationship
    insert-IsAcyclic kind free = ensures-gets _ _ d (
        ensures-refuse _ _ _ d λ _. ensures-gets _ _ d (
          ensures-refuse _ _ _ d
            λ _. ensures-exec-then _ _ d (ensures-pure _ _ (row-IsAcyclic kind free))))

    -- CreateRelationship between two different persons keeps the graph of who reports to whom at an
    -- instant acyclic, at every instant and for every kind and period, where the graph was acyclic at that
    -- instant and no way up in it had more than 64 edges.
    pub create_relationship-IsAcyclic :
        (kind : RelationshipKind)
        → IsAcyclic (
            edges_at t
              (with_org (create_relationship id now actor subject kind object from to) d).1)
    unfolding create_relationship
    create_relationship-IsAcyclic kind =
        with_org-keeps (λ e. IsAcyclic (edges_at t e))
          (create_relationship id now actor subject kind object from to) d acyclic
          (ensures-refuse _ _ _ d λ _. ensures-refuse _ _ _ d λ _. ensures-active _ actor _ d (
            ensures-active _ subject _ d (
              ensures-bind (λ _ e. Checked kind d e) _ _ d (check_object_lem kind d)
                λ _ e (same, free).
                  subst
                    (λ x.
                      Ensures (insert_relationship (row kind)) x (λ _ y. IsAcyclic (edges_at t y)))
                    (sym same) (insert-IsAcyclic kind free))))
