-- ===== src/Sessions.antt =====
-- internal/store/sessions.go: login transactions and browser sessions, in tables that no organization
-- owns. `hash` is platform.HashToken, SHA-256 over the cookie's value, a parameter.
pub mod Authority
pub mod Reading
use workforce_platform.Base.{
  ℕ, ◌+◌, Bool, true, false, not, ◌&&◌, ◌||◌, Option, none, some, List, [], ◌∷◌, ◌++◌, ◌==◌, ltb,
  if◌then◌else◌,
}
use workforce_platform.Base.Rows.{find_where, exists_where, count_where, select_where, update_where}
use workforce_platform.Schema.{Ident, Text, Time, Role}
use workforce_platform.Errors.{
  Error, Result, ok, err, unique_violation, login_transaction_unusable, session_invalid,
  missing_argument, positive_ttl_required,
}

pub record LoginRow : Type 0 where
  pub state_hash : Text
  pub verifier : Text
  pub nonce : Text
  pub return_to : Text
  pub expires_at : Time
  pub consumed_at : Option Time

pub record SessionRow : Type 0 where
  pub id_hash : Text
  pub org_id : Ident
  pub principal_id : Ident
  pub issuer : Text
  pub subject : Text
  pub csrf_token : Text
  pub expires_at : Time
  pub revoked_at : Option Time

pub record LinkRow : Type 0 where
  pub issuer : Text
  pub subject : Text
  pub org_id : Ident
  pub principal_id : Ident
  pub created_at : Time
  pub created_by : Ident
  pub active : Bool

-- A row of principals, with its organization.
pub record Member : Type 0 where
  pub org_id : Ident
  pub id : Ident
  pub name : Text
  pub role : Role
  pub active : Bool

pub record Organization : Type 0 where
  pub id : Ident
  pub name : Text

-- The payload of an event of internal/store/identity_admin.go, by its kind.
pub data AuditPayload : Type 0 where
  link_created : (issuer subject : Text) (principal : Ident) → AuditPayload
  link_revoked : (issuer subject : Text) (principal : Ident) (sessions : ℕ) → AuditPayload
  bootstrapped :
      (org principal : Ident) (issuer subject : Text) (org_created principal_created : Bool)
      → AuditPayload

-- A row of domain_events.
pub record AuditEvent : Type 0 where
  pub org_id : Ident
  pub aggregate_id : Ident
  pub aggregate_version : ℕ
  pub actor_id : Ident
  pub payload : AuditPayload

pub record AuthDb : Type 0 where
  pub login_transactions : List LoginRow
  pub sessions : List SessionRow
  pub identity_links : List LinkRow
  pub organizations : List Organization
  pub principals : List Member
  pub domain_events : List AuditEvent

abbrev pub is_unset : Option Time → Bool
is_unset none = true
is_unset (some t) = false

-- The text "/".
abbrev pub home : Text
home = b'/'

abbrev pub login_row : Time → Text → Text → Text → Text → ℕ → LoginRow
login_row now state verifier nonce return_to ttl = record {
  state_hash = state;
  verifier = verifier;
  nonce = nonce;
  return_to = if return_to == 0 then home else return_to;
  expires_at = now + ttl;
  consumed_at = none;
}

-- CreateLoginTransaction; a ttl of 0 or less is refused.
unfoldable pub create_login_transaction :
    Time → Text → Text → Text → Text → ℕ → AuthDb → Result (Unit {0} × AuthDb)
create_login_transaction now state verifier nonce return_to ttl d =
    if state == 0 || (verifier == 0 || nonce == 0)
    then err missing_argument
    else if ttl == 0
    then err positive_ttl_required
    else if exists_where (λ l. l.state_hash == state) d.login_transactions
    then err unique_violation
    else ok (
      tt,
      record d {
        login_transactions =
            d.login_transactions ++ login_row now state verifier nonce return_to ttl ∷ [];
      },
    )

abbrev pub is_usable : Time → Text → LoginRow → Bool
is_usable now state l = l.state_hash == state && (is_unset l.consumed_at && ltb now l.expires_at)

abbrev pub consume_row : Time → LoginRow → LoginRow
consume_row now l = record l { consumed_at = some now }

abbrev pub consumed : Time → Text → AuthDb → AuthDb
consumed now state d = record d {
  login_transactions = update_where (is_usable now state) (consume_row now) d.login_transactions;
}

abbrev pub if_found : Option LoginRow → AuthDb → Result (LoginRow × AuthDb)
if_found none d = err login_transaction_unusable
if_found (some l) d = ok (l, d)

-- ConsumeLoginTransaction: one statement.
unfoldable pub consume_login_transaction : Time → Text → AuthDb → Result (LoginRow × AuthDb)
consume_login_transaction now state d =
    if_found (find_where (is_usable now state) d.login_transactions) (consumed now state d)

-- A row that expired, or was consumed, more than an hour ago.
abbrev pub is_spent : ℕ → Time → LoginRow → Bool
is_spent hour now l =
    ltb (l.expires_at + hour) now
    || elim l.consumed_at [ none ↦ false | some c ↦ ltb (c + hour) now ]

-- PurgeExpiredLoginTransactions, with how many rows it deletes.
unfoldable pub purge_expired_login_transactions : ℕ → Time → AuthDb → ℕ × AuthDb
purge_expired_login_transactions hour now d = (
  count_where (is_spent hour now) d.login_transactions,
  record d {
    login_transactions = select_where (λ l. not (is_spent hour now l)) d.login_transactions;
  },
)

abbrev pub is_active_member : Ident → Ident → AuthDb → Bool
is_active_member org principal d =
    exists_where (λ m. m.org_id == org && (m.id == principal && m.active)) d.principals

abbrev pub link_of : SessionRow → AuthDb → Option LinkRow
link_of s d = find_where (λ l. l.issuer == s.issuer && l.subject == s.subject) d.identity_links

abbrev pub links_to : SessionRow → Option LinkRow → Bool
links_to s none = false
links_to s (some l) = l.active && (l.org_id == s.org_id && l.principal_id == s.principal_id)

abbrev pub linked : SessionRow → AuthDb → Result SessionRow
linked s d = if links_to s (link_of s d) then ok s else err session_invalid

-- The queries after the first: ResolveIdentity, and the link. `between` is what other transactions do
-- before each of them.
abbrev pub authorized : (ℕ → AuthDb → AuthDb) → Option SessionRow → AuthDb → Result SessionRow
authorized between none d = err session_invalid
authorized between (some s) d =
    if is_active_member s.org_id s.principal_id d
    then linked s (between 2 d)
    else err session_invalid

abbrev pub revoke_row : Time → SessionRow → SessionRow
revoke_row now s = record s { revoked_at = some now }

abbrev pub revoke_where : (SessionRow → Bool) → Time → AuthDb → AuthDb
revoke_where q now d = record d {
  sessions = update_where (λ s. q s && is_unset s.revoked_at) (revoke_row now) d.sessions;
}

module _ (hash : Text → Text) where
  abbrev pub session_row : Time → Text → Ident → Ident → Text → Text → Text → ℕ → SessionRow
  session_row now token org principal issuer subject csrf ttl = record {
    id_hash = hash token;
    org_id = org;
    principal_id = principal;
    issuer = issuer;
    subject = subject;
    csrf_token = csrf;
    expires_at = now + ttl;
    revoked_at = none;
  }

  -- CreateSession; `token` is what platform.NewOpaqueToken returns.
  unfoldable pub create_session :
      Time → Text → Ident → Ident → Text → Text → Text → ℕ → AuthDb → Result (Text × AuthDb)
  create_session now token org principal issuer subject csrf ttl d =
      if org == 0 || (principal == 0 || (issuer == 0 || (subject == 0 || csrf == 0)))
      then err missing_argument
      else if ttl == 0
      then err positive_ttl_required
      else if exists_where (λ s. s.id_hash == hash token) d.sessions
      then err unique_violation
      else ok (
        token,
        record d {
          sessions = d.sessions ++ session_row now token org principal issuer subject csrf ttl ∷ [];
        },
      )

  abbrev pub is_open_session : Time → Text → SessionRow → Bool
  is_open_session now token s =
      s.id_hash == hash token && (is_unset s.revoked_at && ltb now s.expires_at)

  -- ReadSession, without its stamp of when the session was last seen: three queries on their own.
  unfoldable pub read_session : (ℕ → AuthDb → AuthDb) → Time → Text → AuthDb → Result SessionRow
  read_session between now token d =
      if token == 0
      then err session_invalid
      else authorized between (find_where (is_open_session now token) d.sessions) (between 1 d)

  -- RevokeSession succeeds whatever it finds.
  unfoldable pub revoke_session : Time → Text → AuthDb → AuthDb
  revoke_session now token d = revoke_where (λ s. s.id_hash == hash token) now d

-- RevokeSessionsForIdentity
unfoldable pub revoke_sessions_for_identity : Time → Text → Text → AuthDb → Result (ℕ × AuthDb)
revoke_sessions_for_identity now issuer subject d =
    let q : SessionRow → Bool = λ s. s.issuer == issuer && s.subject == subject in
    if issuer == 0 || subject == 0
    then err missing_argument
    else ok (count_where (λ s. q s && is_unset s.revoked_at) d.sessions, revoke_where q now d)

-- RevokeSessionsForPrincipal
unfoldable pub revoke_sessions_for_principal : Time → Ident → Ident → AuthDb → Result (ℕ × AuthDb)
revoke_sessions_for_principal now org principal d =
    let q : SessionRow → Bool = λ s. s.org_id == org && s.principal_id == principal in
    if org == 0 || principal == 0
    then err missing_argument
    else ok (count_where (λ s. q s && is_unset s.revoked_at) d.sessions, revoke_where q now d)
