-- ===== src/Milestones/Keeping.antt =====
-- What no operation on milestones takes back: what was promised, and what was met.
use workforce_platform.Base.{
  ◌⊎◌, ℕ, false, Option, some, [], ◌∷◌, ◌++◌, ◌≡◌, refl, sym, ◌∙◌, subst, inl, inr, ◌==◌,
  Option-cases, Bool-cases,
}
use workforce_platform.Base.Rows.{find_where, set_row, find_row-append}
use workforce_platform.Base.Keys.{set_row_related}
use workforce_platform.Principals.{ensures-active}
use workforce_platform.Strings.{Str}
use workforce_platform.Schema.{Ident, Time, Milestone, Db}
use workforce_platform.Tx.{Tx, pure, fail, with_org}
use workforce_platform.Tx.Ensures.{
  Ensures, ensures-of, ensures-bind, ensures-query, ensures-refuse, ensures-exec, ensures-exec-then,
  ensures-pure, ensures-gets, with_org-keeps,
}
use workforce_platform.Graph.{has_edge, reach}
use workforce_platform.Graph.Query.{query_reach}
use workforce_platform.Milestones.{
  find_milestone, is_met, insert_milestone, create_milestone, forecast_row, set_milestone_forecast,
  insert_dependency, add_milestone_dependency, meet_row, complete_milestone, edges,
}

-- The promise is what it was; a milestone that was met still is, at the same time and on the same
-- evidence.
abbrev pub Stands : Milestone → Milestone → Type 0
Stands a b =
    (b.project_id ≡ a.project_id)
    × (b.name ≡ a.name)
    × (b.acceptance_evidence ≡ a.acceptance_evidence)
    × (b.committed_date ≡ a.committed_date)
    × ((is_met a.status ≡ false)
        ⊎ ((b.status ≡ a.status) × (b.met_at ≡ a.met_at) × (b.met_evidence ≡ a.met_evidence)))

Stands-refl : (m : Milestone) → Stands m m
Stands-refl m = (refl, refl, refl, refl, inr (refl, refl, refl))

Stands-trans : (a b c : Milestone) → Stands a b → Stands b c → Stands a c
Stands-trans a b c (p, n, e, d, s) (p', n', e', d', s') = (p' ∙ p, n' ∙ n, e' ∙ e, d' ∙ d, met s s')
  where
    met :
        (is_met a.status ≡ false)
          ⊎ ((b.status ≡ a.status) × (b.met_at ≡ a.met_at) × (b.met_evidence ≡ a.met_evidence))
        → (is_met b.status ≡ false)
          ⊎ ((c.status ≡ b.status) × (c.met_at ≡ b.met_at) × (c.met_evidence ≡ b.met_evidence))
        → (is_met a.status ≡ false)
          ⊎ ((c.status ≡ a.status) × (c.met_at ≡ a.met_at) × (c.met_evidence ≡ a.met_evidence))
    met (inl f) s' = inl f
    met (inr (st, t, ev)) (inl f) = inl (subst (λ s. is_met s ≡ false) st f)
    met (inr (st, t, ev)) (inr (st', t', ev')) = inr (st' ∙ st, t' ∙ t, ev' ∙ ev)

-- Every milestone of the first database stands in the second.
abbrev pub AllStand : Db → Db → Type 0
AllStand d e =
    (id : Ident) (m : Milestone)
    → find_milestone id d ≡ some m
    → (m' : Milestone) × (find_milestone id e ≡ some m') × Stands m m'

AllStand-refl : (d : Db) → AllStand d d
AllStand-refl d id m f = (m, f, Stands-refl m)

AllStand-trans : (d e f : Db) → AllStand d e → AllStand e f → AllStand d f
AllStand-trans d e f s t id m found =
    let (m', at_e, st) = s id m found in
    let (m'', at_f, st') = t id m' at_e in (m'', at_f, Stands-trans m m' m'' st st')

-- An update by key stands if the row of the key stands.
set_row-AllStand :
    (k : Ident) (g : Milestone → Milestone) (d : Db) (x : Milestone)
    → ((m : Milestone) → (g m).id ≡ m.id)
    → find_milestone k d ≡ some x
    → Stands x (g x)
    → AllStand d (record d { milestones = set_row (λ m. m.id) k g d.milestones })
set_row-AllStand k g d x keeps found st id m f =
    set_row_related (λ m. m.id) Stands k g d.milestones x Stands-refl keeps found st id m f

-- What a committed transaction does to the milestones that were there.
abbrev Keeps : {A : Type 0} → Tx A → Db → Type 0
Keeps m d = Ensures m d (λ _ e. AllStand d e)

insert_milestone-AllStand : (m : Milestone) (d : Db) → Keeps (insert_milestone m) d
unfolding insert_milestone pure fail
insert_milestone-AllStand m d =
    ensures-of (insert_milestone m) d (elim (Option-cases (find_milestone m.id d)) [
      | inl new ↦ rw (insert_milestone, new) added
      | inr (x, taken) ↦ rw (insert_milestone, taken) tt
    ])
  where
    added : AllStand d (record d { milestones = d.milestones ++ m ∷ [] })
    added id x f = (x, find_row-append (λ m. m.id) id d.milestones m ∙ rw f refl, Stands-refl x)

create_milestone-AllStand :
    (id : Ident) (now : Time) (actor project : Ident) (name evidence : Str)
    (committed forecast : Option ℕ) (d : Db)
    → Keeps (create_milestone id now actor project name evidence committed forecast) d
unfolding create_milestone
create_milestone-AllStand id now actor project name evidence committed forecast d =
    ensures-refuse _ _ _ d λ _. ensures-refuse _ _ _ d λ _.
      ensures-active _ actor _ d
        (ensures-gets _ _ d (ensures-refuse _ _ _ d λ _. insert_milestone-AllStand _ d))

set_milestone_forecast-AllStand :
    (actor id : Ident) (forecast : Option ℕ) (d : Db)
    → Keeps (set_milestone_forecast actor id forecast) d
unfolding set_milestone_forecast
set_milestone_forecast-AllStand actor id forecast d = ensures-active _ actor _ d (
    ensures-query _ _ d λ m found. ensures-refuse _ _ _ d λ _. ensures-exec-then _ _ d (
      ensures-pure _ _ (
        set_row-AllStand id (forecast_row forecast) d m (λ _. refl) found
          (refl, refl, refl, refl, inr (refl, refl, refl)))))

complete_milestone-AllStand :
    (now : Time) (actor id : Ident) (evidence : Str) (version : ℕ) (d : Db)
    → Keeps (complete_milestone now actor id evidence version) d
unfolding complete_milestone
complete_milestone-AllStand now actor id evidence version d = ensures-refuse _ _ _ d λ _.
    ensures-active _ actor _ d (
      ensures-query _ _ d λ m found. ensures-refuse _ _ _ d λ _. ensures-refuse _ _ _ d λ unmet.
        ensures-refuse _ _ _ d λ _. ensures-gets _ _ d (
          ensures-refuse _ _ _ d λ _. ensures-exec _ _ d (
            set_row-AllStand id (meet_row now evidence) d m (λ _. refl) found
              (refl, refl, refl, refl, inl unmet))))

query_reach-AllStand :
    (parent : Ident) (d : Db) → Ensures (query_reach edges parent) d (λ _ e. e ≡ d)
unfolding query_reach pure fail
query_reach-AllStand parent d =
    ensures-of (query_reach edges parent) d (elim (Option-cases (reach (edges d) parent)) [
      | inl n ↦ rw (query_reach, n) tt
      | inr (r, s) ↦ rw (query_reach, s) refl
    ])

insert_dependency-AllStand :
    (child parent : Ident) (d : Db) → AllStand d (insert_dependency child parent d)
unfolding insert_dependency
insert_dependency-AllStand child parent d = elim (Bool-cases (has_edge (edges d) child parent)) [
  | inl there ↦ rw there (AllStand-refl d)
  | inr new ↦ rw new (AllStand-refl d)
]

add_milestone_dependency-AllStand :
    (child parent : Ident) (d : Db) → Keeps (add_milestone_dependency child parent) d
unfolding add_milestone_dependency
add_milestone_dependency-AllStand child parent d = ensures-refuse _ _ _ d λ _. ensures-gets _ _ d (
    ensures-refuse _ _ _ d λ _.
      ensures-bind _ (query_reach edges parent) _ d (query_reach-AllStand parent d) λ r e same.
        ensures-refuse _ _ _ e λ _. ensures-exec _ _ e (
          subst (λ x. AllStand d (insert_dependency child parent x)) (sym same)
            (insert_dependency-AllStand child parent d)))

-- A transaction of the component; `elsewhere` is any that leaves the milestones as they are.
pub data Step (d : Db) : Db → Type 0 where
  creates :
      (id : Ident) (now : Time) (actor project : Ident) (name evidence : Str)
      (committed forecast : Option ℕ)
      → Step d
          (with_org (create_milestone id now actor project name evidence committed forecast) d).1
  forecasts :
      (actor id : Ident) (forecast : Option ℕ)
      → Step d (with_org (set_milestone_forecast actor id forecast) d).1
  depends : (child parent : Ident) → Step d (with_org (add_milestone_dependency child parent) d).1
  completes :
      (now : Time) (actor id : Ident) (evidence : Str) (version : ℕ)
      → Step d (with_org (complete_milestone now actor id evidence version) d).1
  elsewhere : (e : Db) → e.milestones ≡ d.milestones → Step d e

pub data Reaches (start : Db) : Db → Type 0 where
  begin : Reaches start start
  next_step : (d e : Db) → Reaches start d → Step d e → Reaches start e

Step-AllStand : (d e : Db) → Step d e → AllStand d e
Step-AllStand d e (creates id now actor project name evidence committed forecast) =
    with_org-keeps (AllStand d) _ d (AllStand-refl d)
      (create_milestone-AllStand id now actor project name evidence committed forecast d)
Step-AllStand d e (forecasts actor id forecast) =
    with_org-keeps (AllStand d) _ d (AllStand-refl d)
      (set_milestone_forecast-AllStand actor id forecast d)
Step-AllStand d e (depends child parent) =
    with_org-keeps (AllStand d) _ d (AllStand-refl d)
      (add_milestone_dependency-AllStand child parent d)
Step-AllStand d e (completes now actor id evidence version) =
    with_org-keeps (AllStand d) _ d (AllStand-refl d)
      (complete_milestone-AllStand now actor id evidence version d)
Step-AllStand d e (elsewhere e' same) = λ id m f.
    (m, subst (λ ms. find_where (λ m. m.id == id) ms ≡ some m) (sym same) f, Stands-refl m)

-- Whatever operations on milestones, and other transactions that leave them alone, follow one another:
-- a milestone that was there is still there, with the same project, name, acceptance evidence and
-- committed date, and if it was met, it is met at the same time and on the same evidence.
pub promises_stand :
    (d e : Db) (id : Ident) (m : Milestone)
    → Reaches d e
    → find_milestone id d ≡ some m
    → (m' : Milestone) × (find_milestone id e ≡ some m') × Stands m m'
promises_stand d e id m begin f = (m, f, Stands-refl m)
promises_stand d e id m (next_step c e' r s) f =
    let (m', at_c, st) = promises_stand d c id m r f in
    let (m'', at_e, st') = Step-AllStand c e' s id m' at_c in
    (m'', at_e, Stands-trans m m' m'' st st')
