-- ===== src/Tests/Milestones.antt =====
-- Milestones, run and witnessed.
use workforce_platform.Base.{◌≢◌, ◌⊎◌, ℕ, none, some, List, [], ◌∷◌, ◌≡◌, refl}
use workforce_platform.Base.Rows.{find_where, count_where}
use workforce_platform.Strings.{trim_space, trim_left, trim_right}
use workforce_platform.Schema.{Ident, Milestone, MilestoneStatus, Db}
use workforce_platform.Errors.{Error, ok, err, prerequisites_not_met, completion_evidence_required}
use workforce_platform.Tx.{◌>>=◌, with_org}
use workforce_platform.Principals.{require_active_principal}
use workforce_platform.Milestones.{find_milestone, complete_milestone, unmet_prerequisites}
use workforce_platform.Milestones.Keeping.{Stands, begin, next_step, completes, promises_stand}
use workforce_platform.Milestones.Completing.{IsDue, IsMet, met_now, complete_milestone_decides}
use workforce_platform.Tests.Samples.{office}

abbrev pilot : Milestone
pilot = record {
  id = 70;
  project_id = 40;
  name = b'p' ∷ [];
  acceptance_evidence = b'e' ∷ [];
  committed_date = some 100;
  forecast_date = some 120;
  status = MilestoneStatus.planned;
  met_at = none;
  met_evidence = [];
  version = 1;
  created_at = 5;
}

abbrev rollout : Milestone
rollout = record pilot { id = 71; name = b'r' ∷ [] }

abbrev plan : Db
plan = record office { milestones = pilot ∷ rollout ∷ [] }

-- The rollout waits for the pilot.
abbrev waiting : Db
waiting = record plan { milestone_dependencies = record { milestone_id = 71; parent_id = 70 } ∷ [] }

-- A report with a space before it.
abbrev report : List ℕ
report = 32 ∷ b'r' ∷ []

too_early : complete_milestone 9 1 71 report 1 waiting ≡ err prerequisites_not_met
unfolding complete_milestone require_active_principal unmet_prerequisites find_where count_where
    trim_space trim_left trim_right ◌>>=◌
too_early = refl

by_assertion : complete_milestone 9 1 70 (32 ∷ 32 ∷ []) 1 waiting ≡ err completion_evidence_required
unfolding complete_milestone trim_space trim_left trim_right ◌>>=◌
by_assertion = refl

complete_milestone_decides_example :
    (IsDue 1 70 report 1 waiting pilot
      × (complete_milestone 9 1 70 report 1 waiting ≡ ok (tt, met_now 9 70 report waiting))
      × (s : Milestone) × (find_milestone 70 (met_now 9 70 report waiting) ≡ some s)
      × IsMet 9 report pilot s
      × ((k : Ident)
          → k ≢ 70
          → find_milestone k (met_now 9 70 report waiting) ≡ find_milestone k waiting))
    ⊎ ((¬ IsDue 1 70 report 1 waiting pilot)
        × ((e : Error) × (complete_milestone 9 1 70 report 1 waiting ≡ err e)))
unfolding find_where
complete_milestone_decides_example = complete_milestone_decides 9 1 70 report 1 waiting pilot refl

abbrev met_pilot : Db
met_pilot = (with_org (complete_milestone 9 1 70 report 1) waiting).1

promises_stand_example : (m : Milestone) × (find_milestone 70 met_pilot ≡ some m) × Stands pilot m
unfolding find_where
promises_stand_example =
    promises_stand waiting met_pilot 70 pilot
      (next_step waiting met_pilot begin (completes 9 1 70 report 1)) refl
