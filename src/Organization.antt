-- ===== src/Organization.antt =====
-- internal/store/organization.go: positions, and relationships that are in effect for a period.
pub mod Walking
pub mod Management
pub mod Periods
use workforce_platform.Base.{
  ℕ, zero, suc, ◌+◌, Bool, true, false, not, ◌&&◌, ◌||◌, Option, none, some, List, [], ◌∷◌, ◌++◌,
  map, ◌==◌, ltb, leb, if◌then◌else◌,
}
use workforce_platform.Base.Rows.{find_row, exists_where, select_where, set_row, order_by}
use workforce_platform.Strings.{Str, same, precedes}
use workforce_platform.Schema.{
  Ident, Text, Time, Principal, Position, Relationship, RelationshipKind, reports_to, member_of,
  covers_for, unsupported, Db,
}
use workforce_platform.Errors.{
  Error, not_found, unique_violation, exclusion_violation, parent_position_not_found,
  unsupported_relationship_kind, relationship_ends_before_start, position_not_found,
  management_cycle, relationship_must_end_after_it_began,
}
use workforce_platform.Tx.{Tx, ◌>>=◌, ◌>>◌, pure, fail, gets, query_row, exec, refuse_if}
use workforce_platform.Graph.{Edges, mem}
use workforce_platform.Principals.{require_active_principal}

abbrev pub has_position : Ident → Db → Bool
has_position id d = exists_where (λ p. p.id == id) d.positions

unfoldable pub insert_position : Position → Tx Position
insert_position p = do
  taken ← gets (has_position p.id)
  refuse_if taken unique_violation
  exec (λ d. record d { positions = d.positions ++ p ∷ [] })
  pure p

unfoldable pub create_position : Ident → Time → Ident → Str → Ident → Tx Position
create_position id now actor name parent = do
  require_active_principal actor
  known ← gets (has_position parent)
  refuse_if (not (parent == 0) && not known) parent_position_not_found
  insert_position
      (record { id = id; name = name; parent_id = parent; version = 1; created_at = now })

-- The order of two columns: a name, and an identifier, whose texts `before` orders.
abbrev pub by_name : (Ident → Ident → Bool) → Str → Ident → Str → Ident → Bool
by_name before n i m j = precedes n m && not (same n m) || same n m && before i j

unfoldable pub list_positions : (Ident → Ident → Bool) → Tx (List Position)
list_positions before =
    gets (λ d. order_by (λ a b. by_name before a.name a.id b.name b.id) d.positions)

-- ListPeople; a Person is a principal's row.
unfoldable pub list_people : (Ident → Ident → Bool) → Tx (List Principal)
list_people before =
    gets (λ d. order_by (λ a b. by_name before a.name a.id b.name b.id) d.principals)

abbrev pub starts_before_end : Time → Option Time → Bool
starts_before_end t none = true
starts_before_end t (some to) = ltb t to

-- valid && tstzrange(from, to, '[)')
abbrev pub overlaps : Time → Option Time → Relationship → Bool
overlaps from to r = starts_before_end from r.valid_to && starts_before_end r.valid_from to

-- valid @> t
abbrev pub in_effect : Time → Relationship → Bool
in_effect t r = leb r.valid_from t && starts_before_end t r.valid_to

abbrev pub is_reports_to : RelationshipKind → Bool
is_reports_to reports_to = true
is_reports_to _ = false

abbrev pub edge : Relationship → ℕ × ℕ
edge r = (r.subject_id, r.object_id)

-- The rows that the walk of detectManagementCycle joins, as edges from a person to the manager.
abbrev pub management_edges : Time → Option Time → Db → Edges
management_edges from to d =
    map edge (select_where (λ r. is_reports_to r.kind && overlaps from to r) d.org_relationships)

unfoldable pub next_level : Edges → List Ident → List Ident
next_level [] level = []
next_level ((c, p) ∷ es) level =
    let rest = next_level es level in if mem c level then p ∷ rest else rest

-- Whether `subject` is on one of the next `n` levels above `level`. UNION ALL keeps a person that is
-- reached twice twice, which EXISTS does not tell.
unfoldable pub in_chain : Edges → ℕ → List Ident → Ident → Bool
in_chain es zero level subject = false
in_chain es (suc n) level subject =
    let next = next_level es level in mem subject next || in_chain es n next subject

-- c.depth < 64
abbrev pub max_depth : ℕ
max_depth = 64

unfoldable pub detect_management_cycle : Ident → Ident → Time → Option Time → Tx (Unit {0})
detect_management_cycle subject manager from to = do
  cycles ← gets (λ d. in_chain (management_edges from to d) max_depth (manager ∷ []) subject)
  refuse_if cycles management_cycle

abbrev pub is_unsupported : RelationshipKind → Bool
is_unsupported (unsupported k) = true
is_unsupported _ = false

-- The switch on the kind, with the test for a cycle after it.
abbrev pub check_object : RelationshipKind → Ident → Ident → Time → Option Time → Tx (Unit {0})
check_object member_of subject object from to =
    gets (has_position object) >>= λ exists. refuse_if (not exists) position_not_found
check_object reports_to subject object from to =
    require_active_principal object >> detect_management_cycle subject object from to
check_object _ subject object from to = require_active_principal object

-- The exclusion constraint: one manager at a time.
abbrev pub is_second_manager : Relationship → Relationship → Bool
is_second_manager new r =
    is_reports_to new.kind
    && (is_reports_to r.kind
        && (r.subject_id == new.subject_id && overlaps new.valid_from new.valid_to r))

unfoldable pub insert_relationship : Relationship → Tx Relationship
insert_relationship r = do
  taken ← gets (λ d. exists_where (λ x. x.id == r.id) d.org_relationships)
  refuse_if taken unique_violation
  second ← gets (λ d. exists_where (is_second_manager r) d.org_relationships)
  refuse_if second exclusion_violation
  exec (λ d. record d { org_relationships = d.org_relationships ++ r ∷ [] })
  pure r

unfoldable pub create_relationship :
    Ident → Time → Ident → Ident → RelationshipKind → Ident → Time → Option Time → Tx Relationship
create_relationship id now actor subject kind object from to = do
  refuse_if (is_unsupported kind) unsupported_relationship_kind
  refuse_if (not (starts_before_end from to)) relationship_ends_before_start
  require_active_principal actor
  require_active_principal subject
  check_object kind subject object from to
  insert_relationship (record {
    id = id;
    subject_id = subject;
    kind = kind;
    object_id = object;
    valid_from = from;
    valid_to = to;
    created_by = actor;
    created_at = now;
  })

-- A period that is already closed earlier is left as it is.
abbrev pub close_row : Time → Relationship → Relationship
close_row at r = if starts_before_end at r.valid_to then record r { valid_to = some at } else r

unfoldable pub end_relationship : Ident → Ident → Time → Tx (Unit {0})
end_relationship actor id at = do
  require_active_principal actor
  r ← query_row (λ d. find_row (λ r. r.id) id d.org_relationships)
  refuse_if (not (ltb r.valid_from at)) relationship_must_end_after_it_began
  exec (λ d. record d {
    org_relationships = set_row (λ r. r.id) id (close_row at) d.org_relationships;
  })

-- The texts of the kinds in their order.
abbrev pub kind_rank : RelationshipKind → ℕ
kind_rank covers_for = 0
kind_rank member_of = 1
kind_rank _ = 2

abbrev pub listed_before : (Ident → Ident → Bool) → Relationship → Relationship → Bool
listed_before before a b =
    ltb (kind_rank a.kind) (kind_rank b.kind)
    || kind_rank a.kind == kind_rank b.kind
      && (before a.subject_id b.subject_id
          || a.subject_id == b.subject_id && ltb a.valid_from b.valid_from)

unfoldable pub relationships_as_of : (Ident → Ident → Bool) → Time → Tx (List Relationship)
relationships_as_of before t =
    gets (λ d. order_by (listed_before before) (select_where (in_effect t) d.org_relationships))
