-- ===== src/Identities/Bootstrap.antt =====
-- BootstrapIdentity in internal/store/identity_admin.go: an organization's first administrator.
use workforce_platform.Base.{
  Bool, true, false, not, ◌||◌, Option, none, some, [], ◌∷◌, ◌++◌, ◌==◌, if◌then◌else◌,
}
use workforce_platform.Base.Rows.{exists_where, update_where}
use workforce_platform.Schema.{Ident, Text, Time, Role}
use workforce_platform.Errors.{unique_violation, missing_argument, invalid_role}
use workforce_platform.Tx.{◌>>=◌, ◌>>◌, pure, fail, gets, exec, refuse_if}
use workforce_platform.Sessions.{Member, AuthDb, bootstrapped}
use workforce_platform.Identities.{AuthTx, is_member, link_identity_in_tx, audit}

-- `none` is any other text in the place of a role.
pub record BootstrapRequest : Type 0 where
  pub org_id : Ident
  pub org_name : Text
  pub principal_id : Ident
  pub principal_name : Text
  pub role : Option Role
  pub issuer : Text
  pub subject : Text
  pub actor : Ident

pub record BootstrapResult : Type 0 where
  pub org_created : Bool
  pub principal_created : Bool
  pub linked : Bool

-- strings.TrimSpace on the texts that identifiers stand for, and the default names.
abbrev pub normalize : (Ident → Ident) → BootstrapRequest → BootstrapRequest
normalize trim q = record q {
  org_id = trim q.org_id;
  org_name = if q.org_name == 0 then trim q.org_id else q.org_name;
  principal_id = trim q.principal_id;
  principal_name = if q.principal_name == 0 then trim q.principal_id else q.principal_name;
  issuer = trim q.issuer;
  subject = trim q.subject;
  actor = trim q.actor;
}

abbrev pub is_incomplete : BootstrapRequest → Bool
is_incomplete q =
    q.org_id == 0 || (q.principal_id == 0 || (q.issuer == 0 || (q.subject == 0 || q.actor == 0)))

unfoldable pub create_organization : BootstrapRequest → Bool → AuthTx (Unit {0})
create_organization q true = pure tt
create_organization q false = exec (λ d. record d {
  organizations = d.organizations ++ record { id = q.org_id; name = q.org_name } ∷ [];
})

abbrev pub reactivate : BootstrapRequest → AuthDb → AuthDb
reactivate q d = record d {
  principals =
      update_where (is_member q.org_id q.principal_id) (λ m. record m { active = true })
        d.principals;
}

abbrev pub first_member : BootstrapRequest → Role → Member
first_member q role = record {
  org_id = q.org_id;
  id = q.principal_id;
  name = q.principal_name;
  role = role;
  active = true;
}

-- A principal that is there becomes active and keeps its role; the identifiers of principals are
-- unique over all organizations.
unfoldable pub create_principal : BootstrapRequest → Role → Bool → AuthTx (Unit {0})
create_principal q role true = exec (reactivate q)
create_principal q role false =
    gets (λ d. exists_where (λ m. m.id == q.principal_id) d.principals) >>= λ taken.
    refuse_if taken unique_violation
    >> exec (λ d. record d { principals = d.principals ++ first_member q role ∷ [] })

unfoldable pub establish : Time → BootstrapRequest → Option Role → AuthTx BootstrapResult
establish now q none = fail invalid_role
establish now q (some role) = do
  org_seen ← gets (λ d. exists_where (λ o. o.id == q.org_id) d.organizations)
  create_organization q org_seen
  principal_seen ← gets (λ d. exists_where (is_member q.org_id q.principal_id) d.principals)
  create_principal q role principal_seen
  link_identity_in_tx now q.org_id q.issuer q.subject q.principal_id q.actor
  audit q.org_id q.principal_id q.actor
      (bootstrapped q.org_id q.principal_id q.issuer q.subject (not org_seen) (not principal_seen))
  pure
      (record { org_created = not org_seen; principal_created = not principal_seen; linked = true })

unfoldable pub bootstrap_identity :
    (Ident → Ident) → Time → BootstrapRequest → AuthTx BootstrapResult
bootstrap_identity trim now q =
    let q' = normalize trim q in
    refuse_if (is_incomplete q') missing_argument >> establish now q' q.role
