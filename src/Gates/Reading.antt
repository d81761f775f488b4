-- ===== src/Gates/Reading.antt =====
-- Whom ReadGate shows a gate to.
use workforce_platform.Base.{
  Bool, true, false, ◌&&◌, ◌||◌, Option, none, some, ◌==◌, ◌≡◌, ◌⊎◌, refl, inl, inr, Bool-cases,
  Option-cases,
}
use workforce_platform.Schema.{Ident, Principal, Task, Gate, Db}
use workforce_platform.Errors.{ok, err, gate_not_found}
use workforce_platform.Tx.{◌>>=◌}
use workforce_platform.Tasks.{find_task}
use workforce_platform.Gates.{find_gate, find_principal, is_admin, read_gate}

abbrev is_owner : Ident → Option Task → Bool
is_owner actor none = false
is_owner actor (some t) = t.owner_id == actor

abbrev may_see : Option Principal → Bool → Bool
may_see none owns = false
may_see (some p) owns = p.active && (is_admin p.role || owns)

-- The respondent, the owner of the gate's task if he is active, and an active admin.
abbrev pub is_entitled : Ident → Gate → Db → Bool
is_entitled actor g d =
    g.respondent_id == actor
    || may_see (find_principal actor d) (is_owner actor (find_task g.task_id d.tasks))

module _ (id actor : Ident) (d : Db) where
  read_found :
      (g : Gate)
      → find_gate id d ≡ some g
      → ((read_gate id actor d ≡ ok (g, d)) × (is_entitled actor g d ≡ true))
        ⊎ (read_gate id actor d ≡ err gate_not_found)
  unfolding read_gate ◌>>=◌
  read_found g found = elim (Bool-cases (g.respondent_id == actor)) [
    | inl own ↦ inl (rw (found, own) refl, rw own refl)
    | inr other ↦ elim (Option-cases (find_principal actor d)) [
      | inl nobody ↦ inr (rw (found, other, nobody) refl)
      | inr (p, is_p) ↦ elim (Option-cases (find_task g.task_id d.tasks)) [
        | inl no_task ↦ inr (rw (found, other, is_p, no_task) refl)
        | inr (t, is_t) ↦ elim (Bool-cases (p.active && (is_admin p.role || t.owner_id == actor))) [
          | inl shown ↦
              inl (rw (found, other, is_p, is_t, shown) refl, rw (other, is_p, is_t) shown)
          | inr hidden ↦ inr (rw (found, other, is_p, is_t, hidden) refl)
        ]
      ]
    ]
  ]

  -- ReadGate returns the gate of the identifier to its respondent, to an active owner of its task or to
  -- an active admin, and writes nothing; or it reports that there is no such gate, and never anything
  -- else.
  read_gate_hides :
      ((g : Gate) × (find_gate id d ≡ some g)
        × (read_gate id actor d ≡ ok (g, d))
        × (is_entitled actor g d ≡ true))
      ⊎ (read_gate id actor d ≡ err gate_not_found)
  unfolding read_gate ◌>>=◌
  read_gate_hides = elim (Option-cases (find_gate id d)) [
    | inl missing ↦ inr (rw missing refl)
    | inr (g, found) ↦ elim (read_found g found) [
      | inl (read, entitled) ↦ inl (g, found, read, entitled)
      | inr hidden ↦ inr hidden
    ]
  ]
