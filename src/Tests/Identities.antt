-- ===== src/Tests/Identities.antt =====
-- Accounts linked and unlinked, run and witnessed. Of the portal's two principals, 2 approves and 9
-- administers.
use workforce_platform.Base.{◌⊎◌, ◌≤◌, true, false, some, ◌≡◌, refl}
use workforce_platform.Base.Rows.{find_where, exists_where, count_where}
use workforce_platform.Schema.{Role}
use workforce_platform.Errors.{
  Error, ok, err, no_linked_identity, last_account_of_administrator, account_linked_elsewhere,
}
use workforce_platform.Tx.{◌>>=◌, with_org}
use workforce_platform.Sessions.{
  LinkRow, Member, SessionRow, AuthDb, read_session, link_created, link_revoked, revoke_where,
}
use workforce_platform.Registry.{is_admin}
use workforce_platform.Identities.{
  find_link, link_identity_in_tx, link_identity_by_admin, last_version, audit, add_link, link_row,
  recorded, deactivate, is_session_of, is_live_account, is_active_as, count_active_links,
  principal_in_tx, unlink_identity_by_admin,
}
use workforce_platform.Identities.External.{resolve_oidc_identity}
use workforce_platform.Identities.Linking.{link_resolves}
use workforce_platform.Identities.Unlinking.{unlink_ends_access}
use workforce_platform.Identities.Standing.{never_repointed, begin, next_step, links}
use workforce_platform.Tests.Sessions.{portal, hash}

abbrev approver : Member
approver = record { org_id = 1; id = 2; name = 11; role = Role.approver; active = true }

-- A second account, 8, of principal 2.
abbrev linked : AuthDb
linked = recorded 1 2 9 (link_created 3 8 2) (add_link (link_row 20 1 3 8 2 9) portal)

links_second : link_identity_by_admin 20 1 3 8 2 9 portal ≡ ok (tt, linked)
unfolding link_identity_by_admin link_identity_in_tx find_where exists_where last_version audit
    ◌>>=◌
links_second = refl

refuses_other : link_identity_by_admin 20 1 3 4 9 9 portal ≡ err account_linked_elsewhere
unfolding link_identity_by_admin link_identity_in_tx find_where exists_where last_version audit
    ◌>>=◌
refuses_other = refl

refuses_last : unlink_identity_by_admin 20 1 3 6 9 portal ≡ err last_account_of_administrator
unfolding unlink_identity_by_admin find_where count_where count_active_links principal_in_tx ◌>>=◌
refuses_last = refl

link_resolves_example : resolve_oidc_identity 3 8 linked ≡ ok approver
unfolding exists_where find_where
link_resolves_example =
    link_resolves 20 1 3 8 2 9 portal linked links_second approver (refl, (refl, tt))
      (refl, (refl, tt)) refl refl

abbrev unlinked : AuthDb
unlinked =
    recorded 1 2 9 (link_revoked 3 4 2 1)
      (revoke_where (is_session_of 3 4) 20 (deactivate 1 3 4 portal))

unlinks_first : unlink_identity_by_admin 20 1 3 4 9 portal ≡ ok (1, unlinked)
unfolding unlink_identity_by_admin find_where count_where count_active_links principal_in_tx
    last_version audit ◌>>=◌
unlinks_first = refl

unlink_ends_access_example :
    (resolve_oidc_identity 3 4 unlinked ≡ err no_linked_identity)
    × (((f : Error) × (read_session hash (λ n d. d) 30 71 unlinked ≡ err f))
        ⊎ ((s : SessionRow) × (read_session hash (λ n d. d) 30 71 unlinked ≡ ok s)
            × (is_session_of 3 4 s ≡ false)))
    × ((l : LinkRow) × (p : Member) × (find_where (is_live_account 1 3 4) portal.identity_links
          ≡ some l)
        × (find_where (is_active_as 1 l.principal_id) portal.principals ≡ some p)
        × ((is_admin p.role ≡ false) ⊎ (1 ≤ count_active_links 1 l.principal_id unlinked)))
unfolding find_where
unlink_ends_access_example =
    unlink_ends_access 20 1 3 4 9 1 portal unlinked unlinks_first hash (λ n d. d) 30 71
      (refl, (refl, tt))

abbrev first : LinkRow
first = record {
  issuer = 3;
  subject = 4;
  org_id = 1;
  principal_id = 2;
  created_at = 1;
  created_by = 9;
  active = true;
}

never_repointed_example :
    (l : LinkRow) × (find_link 3 4 (with_org (link_identity_by_admin 20 1 3 4 9 9) portal).1
      ≡ some l)
    × (l.org_id ≡ 1)
    × (l.principal_id ≡ 2)
unfolding find_where
never_repointed_example =
    never_repointed portal (with_org (link_identity_by_admin 20 1 3 4 9 9) portal).1 3 4 first
      (next_step portal _ begin (links 20 1 3 4 9 9)) refl
