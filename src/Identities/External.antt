-- ===== src/Identities/External.antt =====
-- internal/store/oidc_identity.go and identity.go: from a verified external account to a principal, and
-- the links without a record in the audit trail.
use workforce_platform.Base.{not, ◌&&◌, ◌||◌, Option, none, some, ◌==◌, if◌then◌else◌}
use workforce_platform.Base.Rows.{find_where, exists_where}
use workforce_platform.Schema.{Ident, Text, Time}
use workforce_platform.Errors.{
  Result, ok, err, missing_argument, principal_not_in_organization, account_linked_elsewhere,
  no_active_link, no_linked_identity,
}
use workforce_platform.Tx.{◌>>=◌, ◌>>◌, fail, gets, exec, refuse_if}
use workforce_platform.Sessions.{LinkRow, Member, AuthDb}
use workforce_platform.Identities.{
  AuthTx, is_account, find_link, is_member, is_active_as, is_live_account, activate, add_link,
  link_row, deactivate,
}

-- ResolveIdentity
unfoldable pub resolve_identity : Ident → Ident → AuthDb → Option Member
resolve_identity org id d = find_where (is_active_as org id) d.principals

abbrev pub resolved : Option Member → Result Member
resolved none = err no_linked_identity
resolved (some m) = ok m

abbrev pub resolve_link : Option LinkRow → AuthDb → Result Member
resolve_link none d = err no_linked_identity
resolve_link (some l) d = resolved (resolve_identity l.org_id l.principal_id d)

-- ResolveOIDCIdentity, which writes nothing.
unfoldable pub resolve_oidc_identity : Text → Text → AuthDb → Result Member
resolve_oidc_identity issuer subject d =
    if issuer == 0 || subject == 0
    then err no_linked_identity
    else resolve_link (find_where (λ l. is_account issuer subject l && l.active) d.identity_links) d

abbrev pub rebind : Time → Ident → Text → Text → Ident → Ident → Option LinkRow → AuthTx (Unit {0})
rebind now org issuer subject principal by none =
    exec (add_link (link_row now org issuer subject principal by))
rebind now org issuer subject principal by (some l) =
    if l.principal_id == principal
    then exec (activate issuer subject)
    else fail account_linked_elsewhere

unfoldable pub link_oidc_identity : Time → Ident → Text → Text → Ident → Ident → AuthTx (Unit {0})
link_oidc_identity now org issuer subject principal by = do
  refuse_if (org == 0 || (issuer == 0 || (subject == 0 || (principal == 0 || by == 0))))
      missing_argument
  exists ← gets (λ d. exists_where (is_member org principal) d.principals)
  refuse_if (not exists) principal_not_in_organization
  existing ← gets (find_link issuer subject)
  rebind now org issuer subject principal by existing

unfoldable pub unlink_oidc_identity : Ident → Text → Text → AuthTx (Unit {0})
unlink_oidc_identity org issuer subject = do
  affected ← gets (λ d. exists_where (is_live_account org issuer subject) d.identity_links)
  exec (deactivate org issuer subject)
  refuse_if (not affected) no_active_link
