-- ===== src/Agents/Admitting.antt =====
-- The gate of a run against what the configuration of its agent shows.
use workforce_platform.Base.{
  true, some, List, [], ◌∷◌, ◌≡◌, refl, sym, ap, ◌∙◌, inl, inr, arith, if◌then◌else◌, Bool-cases,
}
use workforce_platform.Base.Rows.{All, All-mono}
use workforce_platform.Strings.{Str, precedes, insert_sorted, sort_strings}
use workforce_platform.Strings.Sets.{IsSorted, sort-IsSorted, insert_least, precedes_trans}
use workforce_platform.Schema.{Ident, Release, Agent, Db}
use workforce_platform.Errors.{ok}
use workforce_platform.Tx.{◌>>=◌}
use workforce_platform.Registry.{contains_cap, find_release}
use workforce_platform.Registry.Grants.{contains-sort}
use workforce_platform.Agents.{find_agent, outside}
use workforce_platform.Agents.Ceiling.{
  active_release, permitted_capabilities, AgentConfigurationView, agent_configuration,
  admission_missing,
}

-- Lists with the same members allow the same.
outside_same :
    (xs ys cs : List Str)
    → ((c : Str) → contains_cap xs c ≡ contains_cap ys c)
    → outside xs cs ≡ outside ys cs
unfolding outside
outside_same xs ys [] e = refl
outside_same xs ys (c ∷ cs) e = ground (arith, e c, outside_same xs ys cs e)

All-outside : (P : Str → Type 0) (xs cs : List Str) → All P cs → All P (outside xs cs)
unfolding outside
All-outside P xs [] h = tt
All-outside P xs (c ∷ cs) h = elim (Bool-cases (contains_cap xs c)) [
  | inl allowed ↦ rw allowed (All-outside P xs cs h.1)
  | inr denied ↦ rw denied (h.0, All-outside P xs cs h.1)
]

outside-insert :
    (xs : List Str) (s : Str) (cs : List Str)
    → IsSorted cs
    → outside xs (insert_sorted s cs)
      ≡ (if contains_cap xs s then outside xs cs else insert_sorted s (outside xs cs))
unfolding outside insert_sorted
outside-insert xs s [] h = ground arith
outside-insert xs s (c ∷ cs) h = elim (Bool-cases (precedes s c)) [
  | inl before ↦ ground (
    arith,
    before,
    insert_least s (outside xs (c ∷ cs)) (
        All-outside (λ y. precedes s y ≡ true) xs (c ∷ cs)
          (before, All-mono _ _ (λ y e. precedes_trans s c y before e) cs h.0)),
  )
  | inr after ↦ ground (arith, after, outside-insert xs s cs h.1)
]

-- To sort and to filter may be exchanged.
outside-sort : (xs cs : List Str) → outside xs (sort_strings cs) ≡ sort_strings (outside xs cs)
unfolding outside sort_strings
outside-sort xs [] = refl
outside-sort xs (c ∷ cs) =
    outside-insert xs c (sort_strings cs) (sort-IsSorted cs) ∙ ground (arith, outside-sort xs cs)

-- What the gate of a run under the release of the agent's harness misses is what the configuration of
-- the agent shows as denied, in the same order: the gate lets a run pass exactly if nothing is denied.
pub admission-denied :
    (agent : Ident) (a : Agent) (r : Release) (d : Db)
    → find_agent agent d ≡ some a
    → active_release a.harness d ≡ some r
    → find_release r.id d ≡ some r
    → (view : AgentConfigurationView) × (agent_configuration agent d ≡ ok (view, d))
      × (admission_missing agent r.id d ≡ ok (view.denied, d))
unfolding agent_configuration admission_missing permitted_capabilities ◌>>=◌
admission-denied agent a r d found active known = (
  record {
    agent_id = agent;
    harness = a.harness;
    declared = sort_strings a.capabilities;
    permitted = sort_strings r.granted_capabilities;
    denied = outside (sort_strings r.granted_capabilities) (sort_strings a.capabilities);
    available = outside (sort_strings a.capabilities) (sort_strings r.granted_capabilities);
  },
  rw (found, active) refl,
  rw (found, known)
      (ap (λ l. ok (l, d))
        (sym (outside-sort r.granted_capabilities a.capabilities)
          ∙ outside_same r.granted_capabilities (sort_strings r.granted_capabilities)
              (sort_strings a.capabilities) (λ c. sym (contains-sort r.granted_capabilities c)))),
)
