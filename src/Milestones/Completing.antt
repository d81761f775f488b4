-- ===== src/Milestones/Completing.antt =====
-- When a milestone is met.
use workforce_platform.Base.{
  ◌⊎◌, ℕ, suc, Bool, true, false, not, ◌&&◌, none, some, List, [], ◌∷◌, ◌≡◌, ◌↔◌, refl, inl, inr,
  arith, ◌==◌, ◌+◌, ◌≢◌, ◌∙◌, if◌then◌else◌,
}
use workforce_platform.Base.Rows.{
  update_if, find_row-map, find_row-key, All, count_where, select_where, set_row, find_where,
}
use workforce_platform.Base.Keys.{set_row_other}
use workforce_platform.Strings.{Str, is_blank}
use workforce_platform.Schema.{Ident, Time, Milestone, MilestoneStatus, Db}
use workforce_platform.Errors.{Error, Result-cases, ok, err}
use workforce_platform.Tx.{◌>>=◌}
use workforce_platform.Principals.{require_active_principal}
use workforce_platform.Milestones.{
  find_milestone, is_met, is_cancelled, is_unmet, unmet_prerequisites, meet_row, complete_milestone,
}

-- The rows that a count is of.
count-All :
    {A : Type 0}
    → (p q : A → Bool) (xs : List A)
    → (count_where (λ x. p x && q x) xs ≡ 0) ↔ All (λ x. q x ≡ false) (select_where p xs)
unfolding count_where select_where
count-All p q [] = (λ e. tt, λ a. refl)
count-All {A} p q (x ∷ xs) = by_tests (count-All p q xs) (p x) (q x) refl
  where
    by_tests :
        (count_where (λ x. p x && q x) xs ≡ 0) ↔ All (λ x. q x ≡ false) (select_where p xs)
        → (b c : Bool) → q x ≡ c
        → ((if b && c
              then suc (count_where (λ x. p x && q x) xs)
              else count_where (λ x. p x && q x) xs)
            ≡ 0)
          ↔ All (λ x. q x ≡ false) (if b then x ∷ select_where p xs else select_where p xs)
    by_tests rest true true h = (λ e. absurd (omega arith), λ a. absurd (ground (arith, a.0, h)))
    by_tests rest true false h = (λ e. (h, rest.0 e), λ a. rest.1 a.1)
    by_tests rest false c h = rest

abbrev pub met_now : Time → Ident → Str → Db → Db
met_now now id evidence d = record d {
  milestones = set_row (λ m. m.id) id (meet_row now evidence) d.milestones;
}

-- The row of a milestone after it was met: when, with what evidence, the next version, and all else as
-- it was.
abbrev pub IsMet : Time → Str → Milestone → Milestone → Type 0
IsMet now evidence m s =
    (s.status ≡ MilestoneStatus.met)
    × (s.met_at ≡ some now)
    × (s.met_evidence ≡ evidence)
    × (s.version ≡ m.version + 1)
    × (s.id ≡ m.id)
    × (s.project_id ≡ m.project_id)
    × (s.name ≡ m.name)
    × (s.acceptance_evidence ≡ m.acceptance_evidence)
    × (s.committed_date ≡ m.committed_date)
    × (s.forecast_date ≡ m.forecast_date)
    × (s.created_at ≡ m.created_at)

abbrev pub is_active : Ident → Db → Bool
is_active actor d = elim (find_where (λ p. p.id == actor) d.principals) [
  | none ↦ false
  | some p ↦ not (actor == 0) && p.active
]

-- The tests of CompleteMilestone on the milestone `m`.
abbrev may_complete : Ident → Ident → Str → ℕ → Db → Milestone → Bool
may_complete actor id evidence version d m =
    not (is_blank evidence)
    && (is_active actor d
        && (m.version == version
            && (not (is_met m.status)
                && (not (is_cancelled m.status) && unmet_prerequisites id d == 0))))

-- What must hold for the milestone `m` to be met.
abbrev pub IsDue : Ident → Ident → Str → ℕ → Db → Milestone → Type 0
IsDue actor id evidence version d m =
    (is_blank evidence ≡ false)
    × (is_active actor d ≡ true)
    × (m.version ≡ version)
    × (is_met m.status ≡ false)
    × (is_cancelled m.status ≡ false)
    × All (λ x. is_unmet (find_milestone x.parent_id d) ≡ false)
        (select_where (λ x. x.milestone_id == id) d.milestone_dependencies)

module _ (now : Time) (actor id : Ident) (evidence : Str) (version : ℕ) (d : Db) (m : Milestone)
    (found : find_milestone id d ≡ some m) where
  completes :
      may_complete actor id evidence version d m ≡ true
      → complete_milestone now actor id evidence version d ≡ ok (tt, met_now now id evidence d)
  unfolding complete_milestone require_active_principal ◌>>=◌
  completes t = ground (arith, found, t)

  completed_if :
      (e : Db)
      → complete_milestone now actor id evidence version d ≡ ok (tt, e)
      → may_complete actor id evidence version d m ≡ true
  unfolding complete_milestone require_active_principal ◌>>=◌
  completed_if e c = ground (arith, found, c)

  none_unmet :
      (unmet_prerequisites id d ≡ 0)
      ↔ All
          (λ x. is_unmet (find_milestone x.parent_id d) ≡ false)
          (select_where (λ x. x.milestone_id == id) d.milestone_dependencies)
  unfolding unmet_prerequisites
  none_unmet =
      count-All (λ x. x.milestone_id == id) (λ x. is_unmet (find_milestone x.parent_id d))
        d.milestone_dependencies

  tests-IsDue :
      (may_complete actor id evidence version d m ≡ true) ↔ IsDue actor id evidence version d m
  tests-IsDue = (
    λ t. (
      ground (arith, t),
      ground (arith, t),
      ground (arith, t),
      ground (arith, t),
      ground (arith, t),
      none_unmet.0 (ground (arith, t)),
    ),
    λ (shown, active, current, unmet, alive, all).
        let z = none_unmet.1 all in ground (arith, shown, active, current, unmet, alive, z),
  )

  find_met : find_milestone id (met_now now id evidence d) ≡ some (meet_row now evidence m)
  find_met =
      find_row-map (λ m. m.id) id (update_if (λ m. m.id == id) (meet_row now evidence))
        (λ y. ground arith) d.milestones
      ∙ ground (arith, found, find_row-key (λ m. m.id) id d.milestones m)

  -- CompleteMilestone on a milestone of the table: either there is evidence, the actor is an active
  -- principal, the version is the milestone's, it is neither met nor cancelled, and every milestone
  -- that it depends on is met, and then it commits the milestone as met now with that evidence, at the
  -- next version and otherwise as it was, and leaves the other milestones as they were; or one of these
  -- fails, and it reports an error.
  pub complete_milestone_decides :
      (IsDue actor id evidence version d m
        × (complete_milestone now actor id evidence version d ≡ ok (tt, met_now now id evidence d))
        × (s : Milestone) × (find_milestone id (met_now now id evidence d) ≡ some s)
        × IsMet now evidence m s
        × ((k : Ident)
            → k ≢ id
            → find_milestone k (met_now now id evidence d) ≡ find_milestone k d))
      ⊎ ((¬ IsDue actor id evidence version d m)
          × ((e : Error) × (complete_milestone now actor id evidence version d ≡ err e)))
  complete_milestone_decides =
      elim (Result-cases (complete_milestone now actor id evidence version d)) [
        | inl ((u, e), committed) ↦
            let t = completed_if e committed in
            inl (
              tests-IsDue.0 t,
              completes t,
              meet_row now evidence m,
              find_met,
              (refl, refl, refl, refl, refl, refl, refl, refl, refl, refl, refl),
              λ k other.
                  set_row_other (λ m. m.id) id k (meet_row now evidence) d.milestones (λ y. refl)
                    other,
            )
        | inr (e, refused) ↦
            inr (λ due. ground (arith, completes (tests-IsDue.1 due), refused), (e, refused))
      ]
