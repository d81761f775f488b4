-- ===== src/Identities/Unlinking.antt =====
-- What is left of an account's access once it is unlinked, and what is left to an administrator.
use workforce_platform.Base.{
  ◌⊎◌, ℕ, ◌+◌, ◌≤◌, true, false, ◌&&◌, none, some, List, [], ◌∷◌, ◌≡◌, refl, sym, ap, subst, inl,
  inr, arith, leb, Bool-cases, Option-cases,
}
use workforce_platform.Base.Rows.{find_where, count_where, update_where}
use workforce_platform.Schema.{Ident, Text, Time}
use workforce_platform.Errors.{Error, Result-cases, ok, err, no_linked_identity}
use workforce_platform.Tx.{◌>>=◌}
use workforce_platform.Sessions.{
  LinkRow, Member, SessionRow, AuthDb, link_revoked, revoke_where, read_session,
}
use workforce_platform.Sessions.Authority.{revoke_where_lem}
use workforce_platform.Registry.{is_admin}
use workforce_platform.Identities.{
  is_account, is_active_as, is_active_link_of, count_active_links, is_live_account, is_session_of,
  deactivate_row, deactivate, audit, recorded, principal_in_tx, unlink_identity_by_admin,
}
use workforce_platform.Identities.External.{resolve_oidc_identity}
use workforce_platform.Identities.Linking.{is_open_account}

-- An account has one row.
abbrev pub AccountsKeyed : List LinkRow → Type 0
AccountsKeyed [] = Unit
AccountsKeyed (l ∷ ls) = (find_where (is_account l.issuer l.subject) ls ≡ none) × AccountsKeyed ls

module _ (org : Ident) (issuer subject : Text) where
  none_left :
      (ls : List LinkRow)
      → find_where (is_account issuer subject) ls ≡ none
      → find_where
          (is_open_account issuer subject)
          (update_where (is_live_account org issuer subject) deactivate_row ls)
        ≡ none
  unfolding find_where
  none_left [] e = refl
  none_left (x ∷ xs) e = ground (arith, none_left xs, e)

  not_live :
      (ls : List LinkRow)
      → find_where (is_account issuer subject) ls ≡ none
      → find_where (is_live_account org issuer subject) ls ≡ none
  unfolding find_where
  not_live [] e = refl
  not_live (x ∷ xs) e = ground (arith, not_live xs, e)

  at_account :
      (x : LinkRow) (xs : List LinkRow)
      → is_account issuer subject x ≡ true
      → find_where (is_account x.issuer x.subject) xs ≡ none
      → find_where (is_account issuer subject) xs ≡ none
  at_account x xs t e =
      subst (λ i. find_where (is_account i subject) xs ≡ none) (ground arith)
        (subst (λ s. find_where (is_account x.issuer s) xs ≡ none) (ground arith) e)

  -- The account has no active link when its only one is deactivated.
  closed :
      (ls : List LinkRow) (l : LinkRow)
      → AccountsKeyed ls
      → find_where (is_live_account org issuer subject) ls ≡ some l
      → find_where
          (is_open_account issuer subject)
          (update_where (is_live_account org issuer subject) deactivate_row ls)
        ≡ none
  unfolding find_where
  closed [] l u e = ground arith
  closed (x ∷ xs) l u e = elim (Bool-cases (is_account issuer subject x)) [
    | inl here ↦ ground (
      arith,
      here,
      e,
      none_left xs (at_account x xs here u.0),
      not_live xs (at_account x xs here u.0),
    )
    | inr other ↦ ground (arith, other, closed xs l u.1, e)
  ]

  -- No active link of an account that has no row is taken away.
  same_count :
      (p : Ident) (ls : List LinkRow)
      → find_where (is_account issuer subject) ls ≡ none
      → count_where
          (is_active_link_of org p)
          (update_where (is_live_account org issuer subject) deactivate_row ls)
        ≡ count_where (is_active_link_of org p) ls
  unfolding find_where count_where
  same_count p [] e = refl
  same_count p (x ∷ xs) e = ground (arith, same_count p xs, e)

  one_fewer :
      (ls : List LinkRow) (l : LinkRow)
      → AccountsKeyed ls
      → find_where (is_live_account org issuer subject) ls ≡ some l
      → count_where
            (is_active_link_of org l.principal_id)
            (update_where (is_live_account org issuer subject) deactivate_row ls)
          + 1
        ≡ count_where (is_active_link_of org l.principal_id) ls
  unfolding find_where count_where
  one_fewer [] l u e = ground arith
  one_fewer (x ∷ xs) l u e = elim (Bool-cases (is_account issuer subject x)) [
    | inl here ↦ elim (Bool-cases (is_live_account org issuer subject x)) [
      | inl live ↦
          let same : x ≡ l = ground (arith, live, e) in
          ground (
            arith,
            live,
            ap (λ r. r.principal_id) same,
            same_count l.principal_id xs (at_account x xs here u.0),
          )
      | inr dead ↦ absurd (ground (arith, dead, e, not_live xs (at_account x xs here u.0)))
    ]
    | inr other ↦ ground (arith, other, one_fewer xs l u.1, e)
  ]

-- What UnlinkIdentityByAdmin found, and what it left, when it committed.
module _ (now : Time) (org : Ident) (issuer subject : Text) (actor : Ident) (n : ℕ) (d e : AuthDb)
    (committed : unlink_identity_by_admin now org issuer subject actor d ≡ ok (n, e)) where
  abbrev log : Ident → ℕ → AuthDb → AuthDb
  log principal revoked d =
      recorded org principal actor (link_revoked issuer subject principal revoked)
        (revoke_where (is_session_of issuer subject) now d)

  linked :
      (l : LinkRow) × (find_where (is_live_account org issuer subject) d.identity_links ≡ some l)
  unfolding unlink_identity_by_admin ◌>>=◌
  linked = elim (Option-cases (find_where (is_live_account org issuer subject) d.identity_links)) [
    | inl none_such ↦ absurd (ground (arith, none_such, committed))
    | inr found ↦ found
  ]

  member :
      (l : LinkRow)
      → find_where (is_live_account org issuer subject) d.identity_links ≡ some l
      → (p : Member) × (find_where (is_active_as org l.principal_id) d.principals ≡ some p)
  unfolding unlink_identity_by_admin principal_in_tx ◌>>=◌
  member l found = elim (Option-cases (find_where (is_active_as org l.principal_id) d.principals)) [
    | inl none_such ↦ absurd (ground (arith, none_such, found, committed))
    | inr at ↦ at
  ]

  left :
      (l : LinkRow) (p : Member)
      → find_where (is_live_account org issuer subject) d.identity_links ≡ some l
      → find_where (is_active_as org l.principal_id) d.principals ≡ some p
      → (log l.principal_id n (deactivate org issuer subject d) ≡ e)
        × ((is_admin p.role && leb (count_active_links org l.principal_id d) 1) ≡ false)
  unfolding unlink_identity_by_admin principal_in_tx audit ◌>>=◌
  left l p found at = (ground (arith, found, at, committed), ground (arith, found, at, committed))

  unresolved :
      (l : LinkRow)
      → AccountsKeyed d.identity_links
      → find_where (is_live_account org issuer subject) d.identity_links ≡ some l
      → log l.principal_id n (deactivate org issuer subject d) ≡ e
      → resolve_oidc_identity issuer subject e ≡ err no_linked_identity
  unfolding resolve_oidc_identity
  unresolved l u found is_e =
      subst (λ e. resolve_oidc_identity issuer subject e ≡ err no_linked_identity) is_e
        (ground (arith, closed org issuer subject d.identity_links l u found))

  others_only :
      (hash : Text → Text) (between : ℕ → AuthDb → AuthDb) (l : LinkRow) (later : Time)
      (token : Text)
      → log l.principal_id n (deactivate org issuer subject d) ≡ e
      → ((f : Error) × (read_session hash between later token e ≡ err f))
        ⊎ ((s : SessionRow) × (read_session hash between later token e ≡ ok s)
            × (is_session_of issuer subject s ≡ false))
  others_only hash between l later token is_e =
      elim (Result-cases (read_session hash between later token e)) [
        | inl (s, r) ↦ inr (
          s,
          r,
          revoke_where_lem hash between (is_session_of issuer subject) now later token
              (recorded org l.principal_id actor (link_revoked issuer subject l.principal_id n)
                (deactivate org issuer subject d))
              s (subst (λ e. read_session hash between later token e ≡ ok s) (sym is_e) r),
        )
        | inr refused ↦ inl refused
      ]

  keeps_one :
      (l : LinkRow) (p : Member)
      → AccountsKeyed d.identity_links
      → find_where (is_live_account org issuer subject) d.identity_links ≡ some l
      → log l.principal_id n (deactivate org issuer subject d) ≡ e
      → (is_admin p.role && leb (count_active_links org l.principal_id d) 1) ≡ false
      → (is_admin p.role ≡ false) ⊎ (1 ≤ count_active_links org l.principal_id e)
  unfolding count_active_links
  keeps_one l p u found is_e guard =
      subst (λ e. (is_admin p.role ≡ false) ⊎ (1 ≤ count_active_links org l.principal_id e)) is_e
        (elim (Bool-cases (is_admin p.role)) [
          | inl admin ↦ inr (
              ground (arith, admin, guard, one_fewer org issuer subject d.identity_links l u found))
          | inr other ↦ inl other
        ])

  -- After UnlinkIdentityByAdmin the account, which has one row, resolves to nobody, and no cookie gives
  -- a session of it, at any time and whatever happens between the queries of the read; and the principal
  -- that it was linked to, which was active, is no administrator or has another active account left.
  pub unlink_ends_access :
      (hash : Text → Text) (between : ℕ → AuthDb → AuthDb) (later : Time) (token : Text)
      → AccountsKeyed d.identity_links
      → (resolve_oidc_identity issuer subject e ≡ err no_linked_identity)
        × (((f : Error) × (read_session hash between later token e ≡ err f))
            ⊎ ((s : SessionRow) × (read_session hash between later token e ≡ ok s)
                × (is_session_of issuer subject s ≡ false)))
        × ((l : LinkRow) × (p : Member) × (find_where
                (is_live_account org issuer subject)
                d.identity_links
              ≡ some l)
            × (find_where (is_active_as org l.principal_id) d.principals ≡ some p)
            × ((is_admin p.role ≡ false) ⊎ (1 ≤ count_active_links org l.principal_id e)))
  unlink_ends_access hash between later token u =
      let (l, found) = linked in
      let (p, at) = member l found in
      let (is_e, guard) = left l p found at in
      (
        unresolved l u found is_e,
        others_only hash between l later token is_e,
        (l, p, found, at, keeps_one l p u found is_e guard),
      )
