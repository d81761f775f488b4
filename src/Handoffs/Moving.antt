-- ===== src/Handoffs/Moving.antt =====
-- What AcceptHandoff writes into the rows of the task and of the offer.
use workforce_platform.Base.{◌+◌, some, ◌≡◌, ◌≢◌, refl}
use workforce_platform.Schema.{Ident, Time, Task, Handoff, HandoffRole, HandoffState}
use workforce_platform.Handoffs.{set_holder}

-- The task after a transfer: the actor in the role of the offer, the next version, and all else as it was.
abbrev pub IsMoved : HandoffRole → Ident → Task → Task → Type 0
IsMoved role actor t s =
    ((role ≡ HandoffRole.owner → (s.owner_id ≡ actor) × (s.assignee_id ≡ t.assignee_id)))
    × ((role ≢ HandoffRole.owner → (s.assignee_id ≡ actor) × (s.owner_id ≡ t.owner_id)))
    × (s.version ≡ t.version + 1)
    × (s.id ≡ t.id)
    × (s.title ≡ t.title)
    × (s.description ≡ t.description)
    × (s.status ≡ t.status)
    × (s.project_id ≡ t.project_id)
    × (s.created_at ≡ t.created_at)

-- The offer after it, accepted and resolved now, and all else as it was.
abbrev pub IsAccepted : Time → Handoff → Handoff → Type 0
IsAccepted now h s =
    (s.state ≡ HandoffState.accepted)
    × (s.accepted_at ≡ some now)
    × (s.resolved_at ≡ some now)
    × (s.id ≡ h.id)
    × (s.task_id ≡ h.task_id)
    × (s.recipient_id ≡ h.recipient_id)
    × (s.role ≡ h.role)
    × (s.created_by ≡ h.created_by)
    × (s.expires_at ≡ h.expires_at)
    × (s.offered_task_version ≡ h.offered_task_version)
    × (s.summary ≡ h.summary)
    × (s.reason ≡ h.reason)
    × (s.created_at ≡ h.created_at)
    × (s.hop_depth ≡ h.hop_depth)

pub set_holder-IsMoved :
    (role : HandoffRole) (actor : Ident) (t : Task) → IsMoved role actor t (set_holder role actor t)
unfolding set_holder
set_holder-IsMoved HandoffRole.owner actor t =
    (λ e. (refl, refl), λ e. absurd (e refl), refl, refl, refl, refl, refl, refl, refl)
set_holder-IsMoved HandoffRole.assignee actor t =
    (λ e. cc, λ e. (refl, refl), refl, refl, refl, refl, refl, refl, refl)
set_holder-IsMoved (HandoffRole.other x) actor t =
    (λ e. cc, λ e. (refl, refl), refl, refl, refl, refl, refl, refl, refl)
