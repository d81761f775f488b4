-- ===== src/Registry.antt =====
-- internal/registry/registry.go and internal/store/registry.go: releases of connectors and harnesses
-- and the lifecycle that only an administrator moves them along; GrantRegistryCapabilities of
-- internal/store/capabilities.go.
pub mod Grants
pub mod Promise
pub mod Lifecycle
use workforce_platform.Base.{
  ℕ, suc, ◌+◌, Bool, true, false, not, ◌&&◌, ◌||◌, Option, none, some, List, [], ◌∷◌, ◌++◌, ◌==◌,
  if◌then◌else◌,
}
use workforce_platform.Base.Rows.{find_row, exists_where, set_row}
use workforce_platform.Strings.{Str, same, sort_strings}
use workforce_platform.Schema.{
  Ident, Text, Time, Role, Principal, Release, ReleaseState, ReleaseKind, Db,
}
use workforce_platform.Errors.{
  Error, not_found, unique_violation, foreign_key_violation, check_violation,
  invalid_lifecycle_transition, admin_required, registry_version_conflict, no_capabilities_supplied,
}
use workforce_platform.Tx.{Tx, ◌>>=◌, ◌>>◌, pure, fail, gets, query_row, exec, refuse_if}

-- The map `transitions`.
abbrev pub transitions : ReleaseState → ReleaseState → Bool
transitions ReleaseState.quarantined ReleaseState.verified = true
transitions ReleaseState.verified ReleaseState.approved = true
transitions ReleaseState.approved ReleaseState.installed = true
transitions ReleaseState.installed ReleaseState.active = true
transitions ReleaseState.active ReleaseState.draining = true
transitions ReleaseState.active ReleaseState.revoked = true
transitions ReleaseState.draining ReleaseState.disabled = true
transitions ReleaseState.disabled ReleaseState.active = true
transitions _ _ = false

-- A target is `none` if its text is no state.
unfoldable pub can_transition : ReleaseState → Option ReleaseState → Bool
can_transition from none = false
can_transition from (some to) = transitions from to

abbrev pub is_admin : Role → Bool
is_admin Role.admin = true
is_admin _ = false

-- The test of an empty target comes after can_transition, which refuses it.
unfoldable pub can_transition_as : Role → Option ReleaseState → Bool
can_transition_as role none = false
can_transition_as role (some to) = is_admin role

abbrev pub is_active_state : ReleaseState → Bool
is_active_state ReleaseState.active = true
is_active_state _ = false

abbrev pub is_listed : ReleaseKind → Bool
is_listed (ReleaseKind.unlisted k) = false
is_listed _ = true

abbrev pub find_release : Ident → Db → Option Release
find_release id d = find_row (λ r. r.id) id d.registry_releases

-- What the caller of CreateRegistryRelease supplies; a grant among it is ignored.
pub record RegistryCreate : Type 0 where
  pub family : Str
  pub kind : ReleaseKind
  pub version : Str
  pub digest : Text
  pub manifest_runner : Str
  pub details : Text
  pub requested_capabilities : List Str
  pub granted_capabilities : List Str
  pub compatibility_range : Text
  pub simulation : Bool

abbrev pub submitted : Ident → Time → Ident → RegistryCreate → Release
submitted id now actor q = record {
  id = id;
  family = q.family;
  kind = q.kind;
  version = q.version;
  digest = q.digest;
  state = ReleaseState.quarantined;
  manifest_runner = q.manifest_runner;
  details = q.details;
  requested_capabilities = q.requested_capabilities;
  granted_capabilities = [];
  compatibility_range = q.compatibility_range;
  simulation = q.simulation;
  created_by = actor;
  revision = 1;
  created_at = now;
  updated_at = now;
}

-- The constraints of the table.
abbrev pub is_taken : Release → Release → Bool
is_taken r x = x.id == r.id || same x.family r.family && same x.version r.version

unfoldable pub insert_release : Release → Tx Release
insert_release r = do
  refuse_if (not (is_listed r.kind)) check_violation
  taken ← gets (λ d. exists_where (is_taken r) d.registry_releases)
  refuse_if taken unique_violation
  known ← gets (λ d. exists_where (λ p. p.id == r.created_by) d.principals)
  refuse_if (not known) foreign_key_violation
  exec (λ d. record d { registry_releases = d.registry_releases ++ r ∷ [] })
  pure r

unfoldable pub create_registry_release : Ident → Time → Ident → RegistryCreate → Tx Release
create_registry_release id now actor q = insert_release (submitted id now actor q)

unfoldable pub list_registry_releases : Tx (List Release)
list_registry_releases = gets (λ d. d.registry_releases)

unfoldable pub get_registry_release : Ident → Tx Release
get_registry_release id = query_row (find_release id)

unfoldable pub contains_cap : List Str → Str → Bool
contains_cap [] want = false
contains_cap (c ∷ cs) want = same c want || contains_cap cs want

-- Each capability once: jsonb_agg(distinct v), whose order no reader relies on.
unfoldable pub distinct_caps : List Str → List Str
distinct_caps [] = []
distinct_caps (c ∷ cs) =
    let rest = distinct_caps cs in if contains_cap rest c then rest else c ∷ rest

-- An activation grants what the release asked for.
abbrev pub grants_of : ReleaseState → Release → List Str
grants_of ReleaseState.active r = distinct_caps (r.requested_capabilities ++ r.granted_capabilities)
grants_of _ r = r.granted_capabilities

abbrev pub move_row : Time → ReleaseState → Release → Release
move_row now to r = record r {
  state = to;
  revision = r.revision + 1;
  updated_at = now;
  granted_capabilities = grants_of to r;
}

abbrev pub move_release : Time → Ident → ReleaseState → Db → Db
move_release now id to d = record d {
  registry_releases = set_row (λ r. r.id) id (move_row now to) d.registry_releases;
}

-- A family has one active release: the index registry_active_family.
abbrev pub has_other_active : Ident → Str → Db → Bool
has_other_active id family d =
    exists_where (λ r. not (r.id == id) && (is_active_state r.state && same r.family family))
      d.registry_releases

unfoldable pub move_to : Time → Ident → Release → Option ReleaseState → Tx (Unit {0})
move_to now id r none = pure tt
move_to now id r (some to) = do
  other ← gets (has_other_active id r.family)
  refuse_if (is_active_state to && other) unique_violation
  exec (move_release now id to)

unfoldable pub transition_registry_release :
    Time → Ident → Role → Option ReleaseState → ℕ → Tx Release
transition_registry_release now id role target expected = do
  r ← query_row (find_release id)
  refuse_if (not (can_transition r.state target)) invalid_lifecycle_transition
  refuse_if (not (can_transition_as role target)) admin_required
  refuse_if (not (r.revision == expected)) registry_version_conflict
  move_to now id r target
  query_row (find_release id)

-- The loop of GrantRegistryCapabilities.
unfoldable pub merge_caps : List Str → List Str → List Str
merge_caps merged [] = merged
merge_caps merged (c ∷ cs) =
    merge_caps (if contains_cap merged c then merged else merged ++ c ∷ []) cs

abbrev pub grant_row : Time → List Str → Release → Release
grant_row now caps r = record r {
  granted_capabilities = sort_strings (merge_caps r.granted_capabilities caps);
  revision = r.revision + 1;
  updated_at = now;
}

abbrev pub is_nil : List Str → Bool
is_nil [] = true
is_nil (c ∷ cs) = false

unfoldable pub grant_registry_capabilities : Time → Role → Ident → List Str → ℕ → Tx Release
grant_registry_capabilities now role id caps expected = do
  refuse_if (not (is_admin role)) admin_required
  refuse_if (is_nil caps) no_capabilities_supplied
  r ← query_row (find_release id)
  refuse_if (not (r.revision == expected)) registry_version_conflict
  exec (λ d. record d {
    registry_releases = set_row (λ r. r.id) id (grant_row now caps) d.registry_releases;
  })
  pure (grant_row now caps r)
