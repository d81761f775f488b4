-- ===== src/Registry/Lifecycle.antt =====
-- The registry keeps its promise: a release moves along the lifecycle, from quarantine, and what it was
-- granted is not taken away.
use workforce_platform.Base.{
  ℕ, Bool, true, false, Option, none, some, List, [], ◌∷◌, ◌++◌, ◌≡◌, refl, sym, subst, inl, inr,
  arith, ◌==◌, if◌then◌else◌, Option-cases,
}
use workforce_platform.Base.Rows.{find_where, set_row, update_if, find_row-map, find_row-append}
use workforce_platform.Strings.{Str}
use workforce_platform.Schema.{Ident, Time, Role, Release, ReleaseState, Db}
use workforce_platform.Tx.{with_org}
use workforce_platform.Tx.Ensures.{
  Ensures, ensures-query, ensures-refuse, ensures-exec, ensures-exec-then, ensures-gets,
  ensures-row, ensures-pure, ensures-bind, with_org-keeps,
}
use workforce_platform.Base.Keys.{set_row_related}
use workforce_platform.Registry.Grants.{Within-granted, move-Within}
use workforce_platform.Registry.{
  can_transition, find_release, RegistryCreate, submitted, insert_release, create_registry_release,
  move_row, move_to, transition_registry_release, grant_row, grant_registry_capabilities,
}
use workforce_platform.Registry.Promise.{
  Course, here, along, transitions-Lifecycle, Follows, Follows-refl, Track, Track-refl, Tracked,
  Tracked-trans,
}

set_row-Tracked :
    (k : Ident) (g : Release → Release) (d : Db) (x : Release)
    → ((r : Release) → (g r).id ≡ r.id)
    → find_release k d ≡ some x
    → Follows x (g x)
    → Tracked d (record d { registry_releases = set_row (λ r. r.id) k g d.registry_releases })
set_row-Tracked k g d x keeps found follows id = elim (Option-cases (find_release id d)) [
  | inl none_such ↦
      rw
        (
          none_such,
          find_row-map (λ r. r.id) id (update_if (λ r. r.id == k) g) (λ r. ground (arith, keeps r))
              d.registry_releases,
          none_such,
        )
        tt
  | inr (r, at) ↦
      let (r', at', f) =
        set_row_related (λ r. r.id) Follows k g d.registry_releases x Follows-refl keeps found
          follows id r at in
      rw (at, at') f
]

insert-Tracked :
    (r : Release) (d : Db)
    → r.state ≡ ReleaseState.quarantined
    → Tracked d (record d { registry_releases = d.registry_releases ++ r ∷ [] })
insert-Tracked r d new id = elim (Option-cases (find_release id d)) [
  | inl none_such ↦
      rw (none_such, find_row-append (λ r. r.id) id d.registry_releases r, none_such)
        (fresh (r.id == id))
  | inr (x, at) ↦ rw (at, find_row-append (λ r. r.id) id d.registry_releases r, at) (Follows-refl x)
]
  where
    fresh : (b : Bool) → Track none (if b then some r else none)
    fresh true = subst (Course ReleaseState.quarantined) (sym new) here
    fresh false = tt

Tracked-refl : (d : Db) → Tracked d d
Tracked-refl d id = Track-refl (find_release id d)

insert_release-Tracked :
    (r : Release) (d : Db)
    → r.state ≡ ReleaseState.quarantined
    → Ensures (insert_release r) d (λ _ e. Tracked d e)
unfolding insert_release
insert_release-Tracked r d new = ensures-refuse _ _ _ d λ _. ensures-gets _ _ d (
    ensures-refuse _ _ _ d λ _. ensures-gets _ _ d (
      ensures-refuse _ _ _ d
        λ _. ensures-exec-then _ _ d (ensures-pure _ _ (insert-Tracked r d new))))

create-Tracked :
    (id : Ident) (now : Time) (actor : Ident) (q : RegistryCreate) (d : Db)
    → Ensures (create_registry_release id now actor q) d (λ _ e. Tracked d e)
unfolding create_registry_release
create-Tracked id now actor q d = insert_release-Tracked (submitted id now actor q) d refl

move_to-Tracked :
    (now : Time) (id : Ident) (r : Release) (target : Option ReleaseState) (d : Db)
    → find_release id d ≡ some r
    → can_transition r.state target ≡ true
    → Ensures (move_to now id r target) d (λ _ e. Tracked d e)
unfolding move_to can_transition
move_to-Tracked now id r none d found can = absurd (ground (arith, can))
move_to-Tracked now id r (some to) d found can = ensures-gets _ _ d (
    ensures-refuse _ _ _ d λ _. ensures-exec _ _ d (
      set_row-Tracked id (move_row now to) d r (λ _. refl) found
        (refl, refl, refl, along here (transitions-Lifecycle r.state to can), move-Within to r)))

transition-Tracked :
    (now : Time) (id : Ident) (role : Role) (target : Option ReleaseState) (expected : ℕ) (d : Db)
    → Ensures (transition_registry_release now id role target expected) d (λ _ e. Tracked d e)
unfolding transition_registry_release
transition-Tracked now id role target expected d = ensures-query _ _ d λ r found.
    ensures-refuse _ _ _ d λ can. ensures-refuse _ _ _ d λ _. ensures-refuse _ _ _ d λ _.
      ensures-bind _ (move_to now id r target) _ d
        (move_to-Tracked now id r target d found (ground (arith, can)))
        λ _ e t. ensures-row (Tracked d) (find_release id) e t

grant-Tracked :
    (now : Time) (role : Role) (id : Ident) (caps : List Str) (expected : ℕ) (d : Db)
    → Ensures (grant_registry_capabilities now role id caps expected) d (λ _ e. Tracked d e)
unfolding grant_registry_capabilities
grant-Tracked now role id caps expected d = ensures-refuse _ _ _ d λ _. ensures-refuse _ _ _ d λ _.
    ensures-query _ _ d λ r found. ensures-refuse _ _ _ d λ _. ensures-exec-then _ _ d (
      ensures-pure _ _ (
        set_row-Tracked id (grant_row now caps) d r (λ _. refl) found
          (refl, refl, refl, here, Within-granted r.granted_capabilities caps)))

-- A transaction of the registry; `elsewhere` is any that leaves the releases as they are.
pub data Step (d : Db) : Db → Type 0 where
  submits :
      (id : Ident) (now : Time) (actor : Ident) (q : RegistryCreate)
      → Step d (with_org (create_registry_release id now actor q) d).1
  moves :
      (now : Time) (id : Ident) (role : Role) (target : Option ReleaseState) (expected : ℕ)
      → Step d (with_org (transition_registry_release now id role target expected) d).1
  grants :
      (now : Time) (role : Role) (id : Ident) (caps : List Str) (expected : ℕ)
      → Step d (with_org (grant_registry_capabilities now role id caps expected) d).1
  elsewhere : (e : Db) → e.registry_releases ≡ d.registry_releases → Step d e

pub data Reaches (start : Db) : Db → Type 0 where
  begin : Reaches start start
  next_step : (d e : Db) → Reaches start d → Step d e → Reaches start e

Step-Tracked : (d e : Db) → Step d e → Tracked d e
Step-Tracked d e (submits id now actor q) =
    with_org-keeps (Tracked d) _ d (Tracked-refl d) (create-Tracked id now actor q d)
Step-Tracked d e (moves now id role target expected) =
    with_org-keeps (Tracked d) _ d (Tracked-refl d)
      (transition-Tracked now id role target expected d)
Step-Tracked d e (grants now role id caps expected) =
    with_org-keeps (Tracked d) _ d (Tracked-refl d) (grant-Tracked now role id caps expected d)
Step-Tracked d e (elsewhere e' same) = λ id.
    subst (λ rs. Track (find_release id d) (find_where (λ r. r.id == id) rs)) (sym same)
      (Track-refl (find_release id d))

-- Whatever registry operations, and other transactions that leave the releases alone, follow one
-- another: a release stays, as the same artefact, its state moves along the edges of the lifecycle, and
-- it keeps each capability that it was granted; and a release that was not there before has come from
-- quarantine along those edges.
pub releases_follow_lifecycle :
    (d e : Db) (id : Ident) → Reaches d e → Track (find_release id d) (find_release id e)
releases_follow_lifecycle d e id r = all d e r id
  where
    all : (d e : Db) → Reaches d e → Tracked d e
    all d e begin = Tracked-refl d
    all d e (next_step c e' r s) = Tracked-trans d c e' (all d c r) (Step-Tracked c e' s)
