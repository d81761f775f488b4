-- ===== src/Identities.antt =====
-- internal/store/identity_admin.go: external accounts, named by issuer and subject, and the principals
-- that they are linked to. The tables are those of Sessions, over all
-- organizations.
pub mod External
pub mod Bootstrap
pub mod Linking
pub mod Unlinking
pub mod Standing
use workforce_platform.Base.{
  ℕ, zero, suc, ◌+◌, Bool, true, false, not, ◌&&◌, ◌||◌, Option, none, some, List, [], ◌∷◌, ◌++◌,
  ◌==◌, ltb, leb, if◌then◌else◌,
}
use workforce_platform.Base.Rows.{find_where, exists_where, count_where, select_where, update_where}
use workforce_platform.Schema.{Ident, Text, Time, Role}
use workforce_platform.Errors.{
  Error, Result, ok, err, unique_violation, missing_argument, principal_not_in_organization,
  account_linked_elsewhere, no_active_link, last_account_of_administrator, no_linked_identity,
  invalid_role,
}
use workforce_platform.Tx.{TxOn, ◌>>=◌, ◌>>◌, pure, fail, gets, query_row, exec, refuse_if}
use workforce_platform.Registry.{is_admin}
use workforce_platform.Sessions.{
  LinkRow, Member, Organization, SessionRow, AuditEvent, AuditPayload, link_created, link_revoked,
  bootstrapped, AuthDb, is_unset, revoke_where,
}

-- What one transaction does to the tables of identities.
abbrev pub AuthTx : Type 0 → Type 0
AuthTx = TxOn AuthDb

abbrev pub is_account : Text → Text → LinkRow → Bool
is_account issuer subject l = l.issuer == issuer && l.subject == subject

abbrev pub find_link : Text → Text → AuthDb → Option LinkRow
find_link issuer subject d = find_where (is_account issuer subject) d.identity_links

abbrev pub is_member : Ident → Ident → Member → Bool
is_member org id m = m.id == id && m.org_id == org

abbrev pub is_active_as : Ident → Ident → Member → Bool
is_active_as org id m = m.id == id && (m.org_id == org && m.active)

-- The version of the next event about a subject.
unfoldable pub last_version : Ident → Ident → List AuditEvent → ℕ
last_version org aggregate [] = 0
last_version org aggregate (e ∷ es) =
    let rest = last_version org aggregate es in
    if e.org_id == org && (e.aggregate_id == aggregate && ltb rest e.aggregate_version)
    then e.aggregate_version
    else rest

-- The next version is not yet taken, so the row is not refused.
abbrev pub recorded : Ident → Ident → Ident → AuditPayload → AuthDb → AuthDb
recorded org aggregate actor payload d = record d {
  domain_events =
      d.domain_events
      ++ record {
        org_id = org;
        aggregate_id = aggregate;
        aggregate_version = last_version org aggregate d.domain_events + 1;
        actor_id = actor;
        payload = payload;
      }
        ∷ [];
}

-- auditTx
unfoldable pub audit : Ident → Ident → Ident → AuditPayload → AuthTx (Unit {0})
audit org aggregate actor payload = exec (recorded org aggregate actor payload)

abbrev pub newer : (Text → Text → Bool) → LinkRow → LinkRow → Bool
newer before a b =
    ltb b.created_at a.created_at || a.created_at == b.created_at && before a.subject b.subject

unfoldable pub insert_newest : (Text → Text → Bool) → LinkRow → List LinkRow → List LinkRow
insert_newest before l [] = l ∷ []
insert_newest before l (x ∷ xs) =
    if newer before l x then l ∷ x ∷ xs else x ∷ insert_newest before l xs

unfoldable pub newest_first : (Text → Text → Bool) → List LinkRow → List LinkRow
newest_first before [] = []
newest_first before (l ∷ ls) = insert_newest before l (newest_first before ls)

-- ListIdentityLinks; `before` is the order of the texts of subjects.
unfoldable pub list_identity_links : (Text → Text → Bool) → Ident → AuthTx (List LinkRow)
list_identity_links before org =
    refuse_if (org == 0) missing_argument
    >> gets (λ d. newest_first before (select_where (λ l. l.org_id == org) d.identity_links))

abbrev pub activate_row : LinkRow → LinkRow
activate_row l = record l { active = true }

abbrev pub activate : Text → Text → AuthDb → AuthDb
activate issuer subject d = record d {
  identity_links =
      update_where (λ l. is_account issuer subject l && not l.active) activate_row d.identity_links;
}

abbrev pub link_row : Time → Ident → Text → Text → Ident → Ident → LinkRow
link_row now org issuer subject principal by = record {
  issuer = issuer;
  subject = subject;
  org_id = org;
  principal_id = principal;
  created_at = now;
  created_by = by;
  active = true;
}

abbrev pub add_link : LinkRow → AuthDb → AuthDb
add_link l d = record d { identity_links = d.identity_links ++ l ∷ [] }

-- A link to the same principal is activated again; one to another principal is an error.
abbrev pub bind_account :
    Time → Ident → Text → Text → Ident → Ident → Option LinkRow → AuthTx (Unit {0})
bind_account now org issuer subject principal by none =
    exec (add_link (link_row now org issuer subject principal by))
bind_account now org issuer subject principal by (some l) =
    if l.principal_id == principal
    then exec (activate issuer subject)
    else fail account_linked_elsewhere

unfoldable pub link_identity_in_tx : Time → Ident → Text → Text → Ident → Ident → AuthTx (Unit {0})
link_identity_in_tx now org issuer subject principal by = do
  exists ← gets (λ d. exists_where (is_member org principal) d.principals)
  refuse_if (not exists) principal_not_in_organization
  existing ← gets (find_link issuer subject)
  bind_account now org issuer subject principal by existing

unfoldable pub principal_in_tx : Ident → Ident → AuthTx Member
principal_in_tx org principal =
    query_row (λ d. find_where (is_active_as org principal) d.principals)

abbrev pub is_active_link_of : Ident → Ident → LinkRow → Bool
is_active_link_of org principal l = l.org_id == org && (l.principal_id == principal && l.active)

unfoldable pub count_active_links : Ident → Ident → AuthDb → ℕ
count_active_links org principal d = count_where (is_active_link_of org principal) d.identity_links

unfoldable pub link_identity_by_admin :
    Time → Ident → Text → Text → Ident → Ident → AuthTx (Unit {0})
link_identity_by_admin now org issuer subject principal actor = do
  refuse_if (org == 0 || (issuer == 0 || (subject == 0 || (principal == 0 || actor == 0))))
      missing_argument
  link_identity_in_tx now org issuer subject principal actor
  audit org principal actor (link_created issuer subject principal)

abbrev pub is_live_account : Ident → Text → Text → LinkRow → Bool
is_live_account org issuer subject l = is_account issuer subject l && (l.org_id == org && l.active)

abbrev pub deactivate_row : LinkRow → LinkRow
deactivate_row l = record l { active = false }

abbrev pub deactivate : Ident → Text → Text → AuthDb → AuthDb
deactivate org issuer subject d = record d {
  identity_links =
      update_where (is_live_account org issuer subject) deactivate_row d.identity_links;
}

abbrev pub is_session_of : Text → Text → SessionRow → Bool
is_session_of issuer subject s = s.issuer == issuer && s.subject == subject

abbrev pub is_live_session_of : Text → Text → SessionRow → Bool
is_live_session_of issuer subject s = is_session_of issuer subject s && is_unset s.revoked_at

-- The row that a query found, or the error that the code gives for none.
abbrev pub found_or : {A : Type 0} → Error → Option A → AuthTx A
found_or e none = fail e
found_or e (some a) = pure a

unfoldable pub unlink_identity_by_admin : Time → Ident → Text → Text → Ident → AuthTx ℕ
unlink_identity_by_admin now org issuer subject actor = do
  refuse_if (org == 0 || (issuer == 0 || (subject == 0 || actor == 0))) missing_argument
  linked ← gets (λ d. find_where (is_live_account org issuer subject) d.identity_links)
  l ← found_or no_active_link linked
  p ← principal_in_tx org l.principal_id
  n ← gets (count_active_links org l.principal_id)
  refuse_if (is_admin p.role && leb n 1) last_account_of_administrator
  exec (deactivate org issuer subject)
  revoked ← gets (λ d. count_where (is_live_session_of issuer subject) d.sessions)
  exec (revoke_where (is_session_of issuer subject) now)
  audit org l.principal_id actor (link_revoked issuer subject l.principal_id revoked)
  pure revoked
