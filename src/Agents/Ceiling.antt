-- ===== src/Agents/Ceiling.antt =====
-- internal/store/capabilities.go: the capabilities that an agent may use, seen before a run and enforced
-- when one is admitted.
use workforce_platform.Base.{
  Bool, true, false, ◌&&◌, Option, none, some, List, [], ◌∷◌, leb, if◌then◌else◌,
}
use workforce_platform.Strings.{Str, is_empty, same, sort_strings}
use workforce_platform.Schema.{Ident, Release, ReleaseKind, Db}
use workforce_platform.Tx.{Tx, ◌>>=◌, pure, gets, query_row}
use workforce_platform.Registry.{contains_cap, is_active_state, find_release}
use workforce_platform.Agents.{find_agent, outside}

-- coalesce(nullif(manifest->>'runner_id',''),family)
abbrev pub runner_of : Release → Str
runner_of r = if is_empty r.manifest_runner then r.family else r.manifest_runner

abbrev pub is_harness : ReleaseKind → Bool
is_harness ReleaseKind.harness = true
is_harness _ = false

abbrev pub serves : Str → Release → Bool
serves h r = is_harness r.kind && (is_active_state r.state && same (runner_of r) h)

abbrev pub later : Release → Option Release → Option Release
later r none = some r
later r (some x) = if leb x.updated_at r.updated_at then some r else some x

-- where ... order by updated_at desc limit 1
unfoldable pub latest_where : (Release → Bool) → List Release → Option Release
latest_where p [] = none
latest_where p (r ∷ rs) = let rest = latest_where p rs in if p r then later r rest else rest

abbrev pub active_release : Str → Db → Option Release
active_release h d = latest_where (serves h) d.registry_releases

abbrev pub granted_of : Option Release → List Str
granted_of none = []
granted_of (some r) = r.granted_capabilities

-- permittedCapabilities: without an active release, none.
unfoldable pub permitted_capabilities : Str → Tx (List Str)
permitted_capabilities h = gets (λ d. sort_strings (granted_of (active_release h d)))

unfoldable pub inside : List Str → List Str → List Str
inside allowed [] = []
inside allowed (c ∷ cs) =
    let rest = inside allowed cs in if contains_cap allowed c then c ∷ rest else rest

pub record CapabilityCheck : Type 0 where
  pub permitted : List Str
  pub denied : List Str

unfoldable pub check_capabilities : Str → List Str → Tx CapabilityCheck
check_capabilities h requested = do
  permitted ← permitted_capabilities h
  pure (record {
    permitted = sort_strings (inside permitted requested);
    denied = sort_strings (outside permitted requested);
  })

pub record AgentConfigurationView : Type 0 where
  pub agent_id : Ident
  pub harness : Str
  pub declared : List Str
  pub permitted : List Str
  pub denied : List Str
  pub available : List Str

unfoldable pub agent_configuration : Ident → Tx AgentConfigurationView
agent_configuration id = do
  a ← query_row (find_agent id)
  permitted ← permitted_capabilities a.harness
  pure (record {
    agent_id = id;
    harness = a.harness;
    declared = sort_strings a.capabilities;
    permitted = permitted;
    denied = outside permitted (sort_strings a.capabilities);
    available = outside (sort_strings a.capabilities) permitted;
  })

-- The gate of a run.
unfoldable pub admission_missing : Ident → Ident → Tx (List Str)
admission_missing agent release = do
  a ← query_row (find_agent agent)
  r ← query_row (find_release release)
  pure (sort_strings (outside r.granted_capabilities a.capabilities))
