-- ===== src/Tests/Organization.antt =====
-- Reporting lines, run and witnessed.
use workforce_platform.Base.{ℕ, none, some, [], ◌∷◌, map, ◌≡◌, refl, arith}
use workforce_platform.Base.Rows.{find_where, select_where, exists_where}
use workforce_platform.Schema.{Relationship, reports_to, Db}
use workforce_platform.Errors.{ok, err, management_cycle}
use workforce_platform.Tx.{◌>>=◌, with_org}
use workforce_platform.Graph.{has_edge, mem, Walk, one, more, IsAcyclic}
use workforce_platform.Graph.Acyclic.{IsAcyclic-added, no-Walk, nil-IsAcyclic}
use workforce_platform.Principals.{require_active_principal}
use workforce_platform.Organization.{
  create_relationship, insert_relationship, detect_management_cycle, in_chain, next_level,
  end_relationship,
}
use workforce_platform.Organization.Walking.{steps}
use workforce_platform.Organization.Management.{edges_at, IsShallow, create_relationship-IsAcyclic}
use workforce_platform.Organization.Periods.{fact, facts_at, cut, end_relationship_cuts}
use workforce_platform.Tests.Samples.{office}

-- From 10 on Ada (1) reports to Bo (2).
abbrev first_line : Relationship
first_line = record {
  id = 80;
  subject_id = 1;
  kind = reports_to;
  object_id = 2;
  valid_from = 10;
  valid_to = none;
  created_by = 3;
  created_at = 9;
}

abbrev hierarchy : Db
hierarchy = record office { org_relationships = first_line ∷ [] }

-- Bo reports to Cy (3) from 20 on.
abbrev second_line : Relationship
second_line = record first_line {
  id = 81;
  subject_id = 2;
  object_id = 3;
  valid_from = 20;
  created_at = 15;
}

test_second_line :
    create_relationship 81 15 3 2 reports_to 3 20 none hierarchy
    ≡ ok (second_line, record hierarchy { org_relationships = first_line ∷ second_line ∷ [] })
unfolding create_relationship require_active_principal ◌>>=◌ detect_management_cycle in_chain
    next_level mem insert_relationship find_where select_where exists_where
test_second_line = refl

-- Bo does not report to Ada while Ada reports to Bo.
test_cycle : create_relationship 81 15 3 2 reports_to 1 20 none hierarchy ≡ err management_cycle
unfolding create_relationship require_active_principal ◌>>=◌ detect_management_cycle in_chain
    next_level mem insert_relationship find_where select_where exists_where
test_cycle = refl

-- Bo, who has no manager, is recorded as the manager of Bo.
abbrev own_line : Relationship
own_line = record second_line { object_id = 2 }

test_own_manager :
    create_relationship 81 15 3 2 reports_to 2 20 none hierarchy
    ≡ ok (own_line, record hierarchy { org_relationships = first_line ∷ own_line ∷ [] })
unfolding create_relationship require_active_principal ◌>>=◌ detect_management_cycle in_chain
    next_level mem insert_relationship find_where select_where exists_where
test_own_manager = refl

-- Every walk of the hierarchy at 25 is its one edge.
ends_at_bo : {u v : ℕ} → Walk ((1, 2) ∷ []) u v → v ≡ 2
unfolding has_edge
ends_at_bo (one h) = ground (arith, h)
ends_at_bo (more r h) = ground (arith, h)

shallow : IsShallow ((1, 2) ∷ [])
unfolding steps has_edge
shallow u v (one h) = refl
shallow u v (more r h) = ground (arith, h, ends_at_bo r)

one_line-IsAcyclic : IsAcyclic ((1, 2) ∷ [])
one_line-IsAcyclic = IsAcyclic-added [] 1 2 (λ e. ground (arith, e)) no-Walk nil-IsAcyclic

create_relationship-IsAcyclic_example :
    IsAcyclic
      (edges_at 25 (with_org (create_relationship 81 15 3 2 reports_to 3 20 none) hierarchy).1)
unfolding select_where
create_relationship-IsAcyclic_example =
    create_relationship-IsAcyclic 81 15 3 2 3 20 none 25 hierarchy (λ e. ground (arith, e)) shallow
      one_line-IsAcyclic reports_to

-- The line is closed at 30.
abbrev closed : Db
closed = record hierarchy { org_relationships = record first_line { valid_to = some 30 } ∷ [] }

end_relationship_cuts_example :
    facts_at 25 closed ≡ map fact (select_where (cut 80 30 25) hierarchy.org_relationships)
unfolding end_relationship require_active_principal ◌>>=◌ find_where
end_relationship_cuts_example = end_relationship_cuts 80 30 25 3 hierarchy closed refl
