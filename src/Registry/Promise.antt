-- ===== src/Registry/Promise.antt =====
-- What the registry promises of its releases: the lifecycle that internal/registry/registry.go draws as
-- the map `transitions`, and how a release of one database relates to that of another.
use workforce_platform.Base.{true, Option, none, some, ◌≡◌, refl, ◌∙◌, arith}
use workforce_platform.Schema.{Ident, Release, ReleaseState, Db}
use workforce_platform.Registry.Grants.{Within, Within-refl, Within-trans}
use workforce_platform.Registry.{transitions, find_release}

-- The lifecycle: vetted in three steps, active until it is drained or revoked, and active again only
-- from disabled.
pub data Lifecycle : ReleaseState → ReleaseState → Type 0 where
  verify : Lifecycle ReleaseState.quarantined ReleaseState.verified
  approve : Lifecycle ReleaseState.verified ReleaseState.approved
  install : Lifecycle ReleaseState.approved ReleaseState.installed
  activate : Lifecycle ReleaseState.installed ReleaseState.active
  drain : Lifecycle ReleaseState.active ReleaseState.draining
  revoke : Lifecycle ReleaseState.active ReleaseState.revoked
  disable : Lifecycle ReleaseState.draining ReleaseState.disabled
  reactivate : Lifecycle ReleaseState.disabled ReleaseState.active

pub data Course (s : ReleaseState) : ReleaseState → Type 0 where
  here : Course s s
  along : {t u : ReleaseState} → Course s t → Lifecycle t u → Course s u

pub Course-join : {s t u : ReleaseState} → Course s t → Course t u → Course s u
Course-join p here = p
Course-join p (along q l) = along (Course-join p q) l

pub transitions-Lifecycle : (s t : ReleaseState) → transitions s t ≡ true → Lifecycle s t
transitions-Lifecycle ReleaseState.quarantined ReleaseState.verified e = verify
transitions-Lifecycle ReleaseState.verified ReleaseState.approved e = approve
transitions-Lifecycle ReleaseState.approved ReleaseState.installed e = install
transitions-Lifecycle ReleaseState.installed ReleaseState.active e = activate
transitions-Lifecycle ReleaseState.active ReleaseState.draining e = drain
transitions-Lifecycle ReleaseState.active ReleaseState.revoked e = revoke
transitions-Lifecycle ReleaseState.draining ReleaseState.disabled e = disable
transitions-Lifecycle ReleaseState.disabled ReleaseState.active e = reactivate
transitions-Lifecycle s t e = absurd (ground (arith, e))

-- The same artefact, further along the lifecycle or where it was, with every grant that it had.
abbrev pub Follows : Release → Release → Type 0
Follows a b =
    (b.family ≡ a.family)
    × (b.version ≡ a.version)
    × (b.digest ≡ a.digest)
    × Course a.state b.state
    × Within a.granted_capabilities b.granted_capabilities

pub Follows-refl : (r : Release) → Follows r r
Follows-refl r = (refl, refl, refl, here, Within-refl r.granted_capabilities)

Follows-trans : (a b c : Release) → Follows a b → Follows b c → Follows a c
Follows-trans a b c (f, v, d, p, w) (f', v', d', p', w') = (
  f' ∙ f,
  v' ∙ v,
  d' ∙ d,
  Course-join p p',
  Within-trans a.granted_capabilities b.granted_capabilities c.granted_capabilities w w',
)

-- What became of the release of an identifier; a new one comes out of quarantine.
abbrev pub Track : Option Release → Option Release → Type 0
Track none none = Unit
Track none (some b) = Course ReleaseState.quarantined b.state
Track (some a) none = ⊥
Track (some a) (some b) = Follows a b

pub Track-refl : (o : Option Release) → Track o o
Track-refl none = tt
Track-refl (some r) = Follows-refl r

Track-trans : (o p q : Option Release) → Track o p → Track p q → Track o q
Track-trans none none q t u = u
Track-trans none (some b) none t u = absurd u
Track-trans none (some b) (some c) t u = Course-join t u.3
Track-trans (some a) none q t u = absurd t
Track-trans (some a) (some b) none t u = absurd u
Track-trans (some a) (some b) (some c) t u = Follows-trans a b c t u

abbrev pub Tracked : Db → Db → Type 0
Tracked d e = (id : Ident) → Track (find_release id d) (find_release id e)

pub Tracked-trans : (d e f : Db) → Tracked d e → Tracked e f → Tracked d f
Tracked-trans d e f t u id =
    Track-trans (find_release id d) (find_release id e) (find_release id f) (t id) (u id)
