-- ===== src/Organization/Periods.antt =====
-- EndRelationship of internal/store/organization.go closes a period and rewrites nothing before it.
use workforce_platform.Base.{
  Bool, not, ◌&&◌, Option, none, some, List, [], ◌∷◌, map, ◌==◌, ltb, leb, ◌≡◌, refl, arith, inl,
  inr, Bool-cases, if◌then◌else◌,
}
use workforce_platform.Base.Rows.{select_where, update_if}
use workforce_platform.Schema.{Ident, Time, Relationship, RelationshipKind, Db}
use workforce_platform.Errors.{ok}
use workforce_platform.Tx.Ensures.{ensures-query, ensures-refuse, ensures-exec, ensures-ok}
use workforce_platform.Principals.{ensures-active}
use workforce_platform.Organization.{starts_before_end, in_effect, close_row, end_relationship}

-- What a relationship says, without its period.
abbrev pub fact : Relationship → Ident × Ident × RelationshipKind × Ident
fact r = (r.id, r.subject_id, r.kind, r.object_id)

abbrev pub facts_at : Time → Db → List (Ident × Ident × RelationshipKind × Ident)
facts_at t d = map fact (select_where (in_effect t) d.org_relationships)

-- In effect at `t`, were `id` closed at `at`.
abbrev pub cut : Ident → Time → Time → Relationship → Bool
cut id at t r = in_effect t r && not (r.id == id && leb at t)

-- The end of a period that is closed at `at`, unless it ends earlier.
closed_end :
    (at t : Time) (to : Option Time)
    → (if starts_before_end at to then ltb t at else starts_before_end t to)
      ≡ (starts_before_end t to && not (leb at t))
closed_end at t none = ground arith
closed_end at t (some e) = ground arith

in_effect-close_row :
    (at t : Time) (r : Relationship)
    → in_effect t (close_row at r) ≡ (in_effect t r && not (leb at t))
in_effect-close_row at t r = elim (Bool-cases (starts_before_end at r.valid_to)) [
  | inl later ↦ rw later (ground (arith, later, closed_end at t r.valid_to))
  | inr earlier ↦ rw earlier (ground (arith, earlier, closed_end at t r.valid_to))
]

fact-close_row : (at : Time) (r : Relationship) → fact (close_row at r) ≡ fact r
fact-close_row at r = elim (Bool-cases (starts_before_end at r.valid_to)) [
  | inl later ↦ rw later refl
  | inr earlier ↦ rw earlier refl
]

-- A query for facts reads an updated table as it reads the old one with the test for the new row.
map-select_where :
    (p q : Relationship → Bool) (g : Relationship → Relationship)
    → ((r : Relationship) → p (g r) ≡ q r)
    → ((r : Relationship) → fact (g r) ≡ fact r)
    → (rs : List Relationship) → map fact (select_where p (map g rs)) ≡ map fact (select_where q rs)
unfolding select_where
map-select_where p q g test same [] = refl
map-select_where p q g test same (r ∷ rs) = elim (Bool-cases (q r)) [
  | inl here ↦ rw (test r, here, same r, map-select_where p q g test same rs) refl
  | inr gone ↦ rw (test r, gone, map-select_where p q g test same rs) refl
]

module _ (id : Ident) (at t : Time) where
  abbrev update_row : Relationship → Relationship
  update_row = update_if (λ r. r.id == id) (close_row at)

  in_effect-update_row : (r : Relationship) → in_effect t (update_row r) ≡ cut id at t r
  in_effect-update_row r = elim (Bool-cases (r.id == id)) [
    | inl here ↦ rw (here, in_effect-close_row at t r) refl
    | inr other ↦ rw other (ground (arith, other))
  ]

  fact-update_row : (r : Relationship) → fact (update_row r) ≡ fact r
  fact-update_row r = elim (Bool-cases (r.id == id)) [
    | inl here ↦ rw here (fact-close_row at r)
    | inr other ↦ rw other refl
  ]

  -- EndRelationship that commits takes the relationship out of effect from `at` on; at every instant `t`,
  -- all else that was in effect still is, and says the same: before `at` nothing has changed.
  pub end_relationship_cuts :
      (actor : Ident) (d e : Db)
      → end_relationship actor id at d ≡ ok (tt, e)
      → facts_at t e ≡ map fact (select_where (cut id at t) d.org_relationships)
  unfolding end_relationship
  end_relationship_cuts actor d e done =
      ensures-ok (λ _ x. facts_at t x ≡ map fact (select_where (cut id at t) d.org_relationships)) _
        d tt e
        (ensures-active _ actor _ d (
          ensures-query _ _ d λ r found. ensures-refuse _ _ _ d λ _. ensures-exec _ _ d (
            map-select_where _ _ update_row in_effect-update_row fact-update_row
              d.org_relationships)))
        done
