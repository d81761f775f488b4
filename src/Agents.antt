-- ===== src/Agents.antt =====
-- internal/store/agents.go, templates.go and capabilities.go, and CreateAgent of internal/store/store.go:
-- what an agent declares, and the ceiling that the active release of its harness puts on it.
pub mod Ceiling
pub mod Admitting
use workforce_platform.Base.{
  ℕ, suc, ◌+◌, Bool, true, false, not, ◌&&◌, ◌||◌, Option, none, some, List, [], ◌∷◌, ◌++◌, map,
  ◌==◌, ltb, if◌then◌else◌,
}
use workforce_platform.Base.Rows.{
  order_by, find_row, find_where, exists_where, select_where, set_row,
}
use workforce_platform.Strings.{Str, is_empty, is_blank, same, precedes, sort_strings}
use workforce_platform.Schema.{
  Ident, Time, Principal, Release, ReleaseKind, Agent, AgentStatus, AgentTemplate, TemplateStatus,
  Db,
}
use workforce_platform.Errors.{
  Error, not_found, unique_violation, foreign_key_violation, template_name_required,
  template_version_required, harness_required, stale_template, only_draft_published,
  template_harness_unsupported, template_not_published, capabilities_beyond_template,
}
use workforce_platform.Tx.{Tx, ◌>>=◌, ◌>>◌, pure, fail, gets, query_row, exec, refuse_if}
use workforce_platform.Principals.{require_active_principal}
use workforce_platform.Registry.{contains_cap, is_nil}

abbrev pub find_agent : Ident → Db → Option Agent
find_agent id d = find_row (λ a. a.id) id d.agents

unfoldable pub insert_agent : Agent → Tx Agent
insert_agent a = do
  taken ← gets (λ d. exists_where (λ x. x.id == a.id) d.agents)
  refuse_if taken unique_violation
  known ← gets (λ d. exists_where (λ p. p.id == a.owner_id) d.principals)
  refuse_if (not known) foreign_key_violation
  exec (λ d. record d { agents = d.agents ++ a ∷ [] })
  pure a

-- CreateAgent: any capabilities may be declared.
unfoldable pub create_agent : Ident → Str → Str → Ident → List Str → Tx Agent
create_agent id name harness owner caps = insert_agent (record {
  id = id;
  name = name;
  harness = harness;
  status = AgentStatus.draft;
  owner_id = owner;
  capabilities = caps;
  template_id = 0;
  template_version = [];
  instructions = [];
})

-- GetAgent
unfoldable pub get_agent : Ident → Tx Agent
get_agent id = query_row (find_agent id)

abbrev pub strictly : Str → Str → Bool
strictly a b = precedes a b && not (same a b)

-- ListAgents, by name and identifier.
unfoldable pub list_agents : Tx (List Agent)
list_agents =
    gets (λ d.
      order_by (λ a b. strictly a.name b.name || same a.name b.name && ltb a.id b.id) d.agents)

abbrev pub find_template : Ident → Db → Option AgentTemplate
find_template id d = find_row (λ t. t.id) id d.agent_templates

abbrev pub sorted_caps : AgentTemplate → AgentTemplate
sorted_caps t = record t { capabilities = sort_strings t.capabilities }

unfoldable pub insert_template : AgentTemplate → Tx AgentTemplate
insert_template t = do
  taken ← gets (λ d.
      exists_where (λ x. x.id == t.id || same x.name t.name && same x.version t.version)
        d.agent_templates)
  refuse_if taken unique_violation
  exec (λ d. record d { agent_templates = d.agent_templates ++ t ∷ [] })
  pure (sorted_caps t)

unfoldable pub create_agent_template :
    Ident → Time → Ident → Str → Str → Str → Str → List Str → Str → Tx AgentTemplate
create_agent_template id now actor name version harness description caps instructions = do
  refuse_if (is_blank name) template_name_required
  refuse_if (is_blank version) template_version_required
  refuse_if (is_blank harness) harness_required
  require_active_principal actor
  insert_template (record {
    id = id;
    name = name;
    version = version;
    harness = harness;
    description = description;
    capabilities = caps;
    instructions = instructions;
    status = TemplateStatus.draft;
    created_by = actor;
    revision = 1;
    created_at = now;
  })

abbrev pub is_draft : TemplateStatus → Bool
is_draft TemplateStatus.draft = true
is_draft _ = false

abbrev pub is_published : TemplateStatus → Bool
is_published TemplateStatus.published = true
is_published _ = false

abbrev pub publish_row : AgentTemplate → AgentTemplate
publish_row t = record t { status = TemplateStatus.published; revision = t.revision + 1 }

-- `supported` is runner.Supported.
unfoldable pub publish_agent_template : (Str → Bool) → Ident → Ident → ℕ → Tx AgentTemplate
publish_agent_template supported actor id expected = do
  require_active_principal actor
  t ← query_row (find_template id)
  refuse_if (not (t.revision == expected)) stale_template
  refuse_if (not (is_draft t.status)) only_draft_published
  refuse_if (not (supported t.harness)) template_harness_unsupported
  exec (λ d. record d { agent_templates = set_row (λ t. t.id) id publish_row d.agent_templates })
  pure (sorted_caps (publish_row t))

unfoldable pub list_agent_templates : Tx (List AgentTemplate)
list_agent_templates = gets (λ d. map sorted_caps (
    order_by (λ a b. strictly a.name b.name || same a.name b.name && precedes a.version b.version)
      d.agent_templates))

unfoldable pub get_agent_template : Ident → Tx AgentTemplate
get_agent_template id = do t ← query_row (find_template id); pure (sorted_caps t)

-- The capabilities asked for that are not in the list.
unfoldable pub outside : List Str → List Str → List Str
outside allowed [] = []
outside allowed (c ∷ cs) =
    let rest = outside allowed cs in if contains_cap allowed c then rest else c ∷ rest

-- No list means the template's; a list must stay within it.
abbrev pub chosen_caps : AgentTemplate → Option (List Str) → Tx (List Str)
chosen_caps t none = pure t.capabilities
chosen_caps t (some caps) =
    refuse_if (not (is_nil (outside t.capabilities caps))) capabilities_beyond_template >> pure caps

unfoldable pub create_agent_from_template :
    Ident → Ident → Str → Ident → Option (List Str) → Str → Tx Agent
create_agent_from_template id actor name template caps instructions = do
  t ← query_row (find_template template)
  refuse_if (not (is_published t.status)) template_not_published
  chosen ← chosen_caps t caps
  a ← insert_agent (record {
    id = id;
    name = name;
    harness = t.harness;
    status = AgentStatus.draft;
    owner_id = actor;
    capabilities = chosen;
    template_id = template;
    template_version = t.version;
    instructions = if is_blank instructions then t.instructions else instructions;
  })
  pure (record a { capabilities = sort_strings a.capabilities })
