-- ===== src/Identities/Linking.antt =====
-- What a link that was made is good for.
use workforce_platform.Base.{
  Bool, true, false, not, ◌&&◌, none, some, List, [], ◌∷◌, ◌++◌, ◌≡◌, refl, sym, ap, subst, inl,
  inr, arith, ◌==◌, Option-cases, ==-refl,
}
use workforce_platform.Base.Rows.{
  All, IsKeyed, find_row, find_where, exists_where, update_where, All-find, find_where-append,
}
use workforce_platform.Base.Keys.{find_where_key, exists_where_key}
use workforce_platform.Schema.{Ident, Text, Time}
use workforce_platform.Errors.{ok}
use workforce_platform.Tx.{◌>>=◌}
use workforce_platform.Sessions.{LinkRow, Member, AuthDb, link_created}
use workforce_platform.Identities.{
  is_account, find_link, is_member, audit, recorded, activate_row, activate, link_row, add_link,
  link_identity_in_tx, link_identity_by_admin,
}
use workforce_platform.Identities.External.{resolve_identity, resolve_oidc_identity}

abbrev pub is_open_account : Text → Text → LinkRow → Bool
is_open_account issuer subject l = is_account issuer subject l && l.active

no_account :
    (issuer subject : Text) (ls : List LinkRow)
    → find_where (is_account issuer subject) ls ≡ none
    → find_where (is_open_account issuer subject) ls ≡ none
unfolding find_where
no_account issuer subject [] e = refl
no_account issuer subject (l ∷ ls) e = ground (arith, no_account issuer subject ls, e)

already_active : (l : LinkRow) → l.active ≡ true → activate_row l ≡ l
already_active l e = ap (λ b. record l { active = b }) (sym e)

activated :
    (issuer subject : Text) (ls : List LinkRow) (l : LinkRow)
    → find_where (is_account issuer subject) ls ≡ some l
    → find_where
        (is_open_account issuer subject)
        (update_where (λ l. is_account issuer subject l && not l.active) activate_row ls)
      ≡ some (activate_row l)
unfolding find_where
activated issuer subject [] l e = ground arith
activated issuer subject (x ∷ xs) l e =
    ground (arith, activated issuer subject xs l, e, already_active x)

-- A foreign key: the principal of every link is there.
abbrev pub LinksRefer : AuthDb → Type 0
LinksRefer d =
    All (λ l. exists_where (is_member l.org_id l.principal_id) d.principals ≡ true) d.identity_links

-- The identifiers of principals are unique over all organizations.
abbrev pub MembersKeyed : AuthDb → Type 0
MembersKeyed d = IsKeyed (λ m. m.id) d.principals

resolve_lem :
    (org id : Ident) (d : AuthDb) (m : Member)
    → MembersKeyed d
    → find_row (λ m. m.id) id d.principals ≡ some m
    → m.active ≡ true
    → exists_where (is_member org id) d.principals ≡ true
    → resolve_identity org id d ≡ some m
unfolding resolve_identity
resolve_lem org id d m u found active known = ground (
  arith,
  find_where_key (λ m. m.id) id (λ m. m.org_id == org && m.active) d.principals m u found,
  exists_where_key (λ m. m.id) id (λ m. m.org_id == org) d.principals m u found,
  active,
  known,
)

-- The account resolves once its link is active and leads to the principal.
resolves :
    (issuer subject : Text) (d : AuthDb) (l : LinkRow) (m : Member)
    → (issuer == 0) ≡ false
    → (subject == 0) ≡ false
    → find_where (is_open_account issuer subject) d.identity_links ≡ some l
    → resolve_identity l.org_id l.principal_id d ≡ some m
    → resolve_oidc_identity issuer subject d ≡ ok m
unfolding resolve_oidc_identity
resolves issuer subject d l m i s found r = ground (arith, i, s, found, r)

module _ (now : Time) (org : Ident) (issuer subject : Text) (principal actor : Ident) (d e : AuthDb)
    (committed : link_identity_by_admin now org issuer subject principal actor d ≡ ok (tt, e)) where
  abbrev row : LinkRow
  row = link_row now org issuer subject principal actor

  abbrev log : AuthDb → AuthDb
  log = recorded org principal actor (link_created issuer subject principal)

  checked :
      ((issuer == 0) ≡ false)
      × ((subject == 0) ≡ false)
      × (exists_where (is_member org principal) d.principals ≡ true)
  unfolding link_identity_by_admin link_identity_in_tx ◌>>=◌
  checked = (ground (arith, committed), ground (arith, committed), ground (arith, committed))

  made : find_link issuer subject d ≡ none → log (add_link row d) ≡ e
  unfolding link_identity_by_admin link_identity_in_tx audit ◌>>=◌
  made new = ground (arith, committed, new)

  kept :
      (l : LinkRow)
      → find_link issuer subject d ≡ some l
      → (l.principal_id ≡ principal) × (log (activate issuer subject d) ≡ e)
  unfolding link_identity_by_admin link_identity_in_tx audit ◌>>=◌
  kept l old = (ground (arith, committed, old), ground (arith, committed, old))

  -- An account that an administrator has linked resolves to the principal that it was linked to, if the
  -- principal is active, where the identifiers of principals are unique and the links that were there
  -- name principals that are there.
  pub link_resolves :
      (m : Member)
      → MembersKeyed d
      → LinksRefer d
      → find_row (λ m. m.id) principal d.principals ≡ some m
      → m.active ≡ true
      → resolve_oidc_identity issuer subject e ≡ ok m
  unfolding resolve_identity
  link_resolves m u refer found active = elim (Option-cases (find_link issuer subject d)) [
    | inl new ↦
        let (i, s, known) = checked in
        subst (λ e. resolve_oidc_identity issuer subject e ≡ ok m) (made new)
          (resolves issuer subject (log (add_link row d)) row m i s (at_new new)
            (resolve_lem org principal d m u found active known))
    | inr (l, old) ↦
        let (i, s, known) = checked in
        let (same, is_e) = kept l old in
        subst (λ e. resolve_oidc_identity issuer subject e ≡ ok m) is_e
          (resolves issuer subject (log (activate issuer subject d)) (activate_row l) m i s
            (activated issuer subject d.identity_links l old)
            (subst (λ p. resolve_identity l.org_id p d ≡ some m) (sym same)
              (resolve_lem l.org_id principal d m u found active (
                subst (λ p. exists_where (is_member l.org_id p) d.principals ≡ true) same
                  (All-find _ (is_account issuer subject) d.identity_links l refer old)))))
  ]
    where
      at_new :
          find_link issuer subject d ≡ none
          → find_where (is_open_account issuer subject) (d.identity_links ++ row ∷ []) ≡ some row
      at_new new = ground (
        arith,
        find_where-append (is_open_account issuer subject) d.identity_links row,
        no_account issuer subject d.identity_links new,
        ==-refl issuer,
        ==-refl subject,
      )
