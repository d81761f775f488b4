-- ===== src/Identities/Standing.antt =====
-- An account is never linked to another principal than the first.
use mathlib.Core.Option
use workforce_platform.Base.{
  Bool, true, false, not, ◌&&◌, Option, none, some, map, ◌≡◌, refl, sym, ap, ◌∙◌, subst, arith,
  ◌==◌,
}
use workforce_platform.Base.Rows.{find_where, update_if, find_where-map, find_where-append}
use workforce_platform.Schema.{Ident, Text, Time, Role}
use workforce_platform.Errors.{Error}
use workforce_platform.Tx.{exec, with_org}
use workforce_platform.Tx.Keeps.{
  Keeps, Keeps-pure, Keeps-fail, Keeps-gets, Keeps-row, Keeps-if, Keeps-exec, Keeps-refuse,
  Keeps-bind, Keeps-with_org,
}
use workforce_platform.Sessions.{LinkRow, AuthDb, AuditPayload}
use workforce_platform.Identities.{
  AuthTx, is_account, find_link, activate_row, activate, link_row, add_link, bind_account,
  link_identity_in_tx, link_identity_by_admin, is_live_account, deactivate_row, deactivate,
  found_or, principal_in_tx, unlink_identity_by_admin, audit, recorded,
}
use workforce_platform.Identities.External.{rebind, link_oidc_identity, unlink_oidc_identity}
use workforce_platform.Identities.Bootstrap.{
  BootstrapRequest, create_organization, create_principal, establish, bootstrap_identity,
}

-- Every account of the first database is an account of the same principal in the second.
abbrev pub Unmoved : AuthDb → AuthDb → Type 0
Unmoved d e =
    (issuer subject : Text) (l : LinkRow)
    → find_link issuer subject d ≡ some l
    → (l' : LinkRow) × (find_link issuer subject e ≡ some l')
      × (l'.org_id ≡ l.org_id)
      × (l'.principal_id ≡ l.principal_id)

Unmoved-refl : (d : AuthDb) → Unmoved d d
Unmoved-refl d issuer subject l f = (l, f, refl, refl)

Unmoved-trans : (d e f : AuthDb) → Unmoved d e → Unmoved e f → Unmoved d f
Unmoved-trans d e f s t issuer subject l found =
    let (l', at_e, o, p) = s issuer subject l found in
    let (l'', at_f, o', p') = t issuer subject l' at_e in (l'', at_f, o' ∙ o, p' ∙ p)

-- A change of rows that keeps accounts and principals.
map-Unmoved :
    (g : LinkRow → LinkRow) (d : AuthDb)
    → ((l : LinkRow)
        → ((g l).issuer ≡ l.issuer)
          × ((g l).subject ≡ l.subject)
          × ((g l).org_id ≡ l.org_id)
          × ((g l).principal_id ≡ l.principal_id))
    → Unmoved d (record d { identity_links = map g d.identity_links })
map-Unmoved g d keeps issuer subject l f =
    let (i, s, o, p) = keeps l in
    (
      g l,
      find_where-map (is_account issuer subject) g
            (λ x. let (i, s, _, _) = keeps x in rw (i, s) refl) d.identity_links
          ∙ ap (Option.map g) f,
      o,
      p,
    )

-- A new row changes no account that was there.
add-Unmoved : (l : LinkRow) (d : AuthDb) → Unmoved d (add_link l d)
add-Unmoved l d issuer subject x f =
    (x, find_where-append (is_account issuer subject) d.identity_links l ∙ rw f refl, refl, refl)

activate-Unmoved : (issuer subject : Text) (d : AuthDb) → Unmoved d (activate issuer subject d)
activate-Unmoved issuer subject d =
    map-Unmoved (update_if (λ l. is_account issuer subject l && not l.active) activate_row) d
      λ l. (ground arith, ground arith, ground arith, ground arith)

deactivate-Unmoved :
    (org : Ident) (issuer subject : Text) (d : AuthDb) → Unmoved d (deactivate org issuer subject d)
deactivate-Unmoved org issuer subject d =
    map-Unmoved (update_if (is_live_account org issuer subject) deactivate_row) d
      λ l. (ground arith, ground arith, ground arith, ground arith)

module _ (start : AuthDb) where
  abbrev Stands : {A : Type 0} → AuthTx A → Type 0
  Stands m = Keeps (Unmoved start) m

  -- An update that moves no account.
  exec-Stands : (f : AuthDb → AuthDb) → ((d : AuthDb) → Unmoved d (f d)) → Stands (exec f)
  exec-Stands f h = Keeps-exec f (λ d u. Unmoved-trans start d (f d) u (h d))

  -- An update of the other tables.
  aside-Stands :
      (f : AuthDb → AuthDb)
      → ((d : AuthDb) → (f d).identity_links ≡ d.identity_links)
      → Stands (exec f)
  aside-Stands f same = exec-Stands f λ d issuer subject l found. (
    l,
    subst (λ ls. find_where (is_account issuer subject) ls ≡ some l) (sym (same d)) found,
    refl,
    refl,
  )

  audit-Stands :
      (org aggregate actor : Ident) (payload : AuditPayload)
      → Stands (audit org aggregate actor payload)
  unfolding audit
  audit-Stands org aggregate actor payload =
      aside-Stands (recorded org aggregate actor payload) (λ d. refl)

  bind-Stands :
      (now : Time) (org : Ident) (issuer subject : Text) (principal by : Ident)
      (existing : Option LinkRow)
      → Stands (bind_account now org issuer subject principal by existing)
  bind-Stands now org issuer subject principal by none =
      exec-Stands _ (add-Unmoved (link_row now org issuer subject principal by))
  bind-Stands now org issuer subject principal by (some l) =
      Keeps-if (l.principal_id == principal) _ _ (exec-Stands _ (activate-Unmoved issuer subject))
        (Keeps-fail _)

  rebind-Stands :
      (now : Time) (org : Ident) (issuer subject : Text) (principal by : Ident)
      (existing : Option LinkRow)
      → Stands (rebind now org issuer subject principal by existing)
  rebind-Stands now org issuer subject principal by none =
      bind-Stands now org issuer subject principal by none
  rebind-Stands now org issuer subject principal by (some l) =
      bind-Stands now org issuer subject principal by (some l)

  link-Stands :
      (now : Time) (org : Ident) (issuer subject : Text) (principal by : Ident)
      → Stands (link_identity_in_tx now org issuer subject principal by)
  unfolding link_identity_in_tx
  link-Stands now org issuer subject principal by = Keeps-bind _ _ (Keeps-gets _) λ exists.
      Keeps-bind _ _ (Keeps-refuse _ _) λ _.
        Keeps-bind _ _ (Keeps-gets _)
          λ existing. bind-Stands now org issuer subject principal by existing

  link_by_admin-Stands :
      (now : Time) (org : Ident) (issuer subject : Text) (principal actor : Ident)
      → Stands (link_identity_by_admin now org issuer subject principal actor)
  unfolding link_identity_by_admin
  link_by_admin-Stands now org issuer subject principal actor =
      Keeps-bind _ _ (Keeps-refuse _ _) λ _.
        Keeps-bind _ _ (link-Stands now org issuer subject principal actor)
          λ _. audit-Stands _ _ _ _

  found_or-Stands : (e : Error) (l : Option LinkRow) → Stands (found_or e l)
  found_or-Stands e none = Keeps-fail e
  found_or-Stands e (some l) = Keeps-pure l

  unlink-Stands :
      (now : Time) (org : Ident) (issuer subject : Text) (actor : Ident)
      → Stands (unlink_identity_by_admin now org issuer subject actor)
  unfolding unlink_identity_by_admin principal_in_tx
  unlink-Stands now org issuer subject actor = Keeps-bind _ _ (Keeps-refuse _ _) λ _.
      Keeps-bind _ _ (Keeps-gets _) λ linked. Keeps-bind _ _ (found_or-Stands _ linked) λ l.
        Keeps-bind _ _ (Keeps-row _) λ p. Keeps-bind _ _ (Keeps-gets _) λ n.
          Keeps-bind _ _ (Keeps-refuse _ _) λ _.
            Keeps-bind _ _ (exec-Stands _ (deactivate-Unmoved org issuer subject)) λ _.
              Keeps-bind _ _ (Keeps-gets _) λ revoked.
                Keeps-bind _ _ (aside-Stands _ (λ d. refl))
                  λ _. Keeps-bind _ _ (audit-Stands _ _ _ _) λ _. Keeps-pure _

  organization-Stands : (q : BootstrapRequest) (seen : Bool) → Stands (create_organization q seen)
  unfolding create_organization
  organization-Stands q true = Keeps-pure tt
  organization-Stands q false = aside-Stands _ (λ d. refl)

  principal-Stands :
      (q : BootstrapRequest) (role : Role) (seen : Bool) → Stands (create_principal q role seen)
  unfolding create_principal
  principal-Stands q role true = aside-Stands _ (λ d. refl)
  principal-Stands q role false =
      Keeps-bind _ _ (Keeps-gets _)
        λ taken. Keeps-bind _ _ (Keeps-refuse _ _) λ _. aside-Stands _ (λ d. refl)

  establish-Stands :
      (now : Time) (q : BootstrapRequest) (role : Option Role) → Stands (establish now q role)
  unfolding establish
  establish-Stands now q none = Keeps-fail _
  establish-Stands now q (some role) = Keeps-bind _ _ (Keeps-gets _) λ org_seen.
      Keeps-bind _ _ (organization-Stands q org_seen) λ _. Keeps-bind _ _ (Keeps-gets _) λ seen.
        Keeps-bind _ _ (principal-Stands q role seen) λ _.
          Keeps-bind _ _ (link-Stands now q.org_id q.issuer q.subject q.principal_id q.actor)
            λ _. Keeps-bind _ _ (audit-Stands _ _ _ _) λ _. Keeps-pure _

  bootstrap-Stands :
      (trim : Ident → Ident) (now : Time) (q : BootstrapRequest)
      → Stands (bootstrap_identity trim now q)
  unfolding bootstrap_identity
  bootstrap-Stands trim now q = Keeps-bind _ _ (Keeps-refuse _ _) λ _. establish-Stands now _ q.role

  link_oidc-Stands :
      (now : Time) (org : Ident) (issuer subject : Text) (principal by : Ident)
      → Stands (link_oidc_identity now org issuer subject principal by)
  unfolding link_oidc_identity
  link_oidc-Stands now org issuer subject principal by = Keeps-bind _ _ (Keeps-refuse _ _) λ _.
      Keeps-bind _ _ (Keeps-gets _) λ exists. Keeps-bind _ _ (Keeps-refuse _ _) λ _.
        Keeps-bind _ _ (Keeps-gets _)
          λ existing. rebind-Stands now org issuer subject principal by existing

  unlink_oidc-Stands :
      (org : Ident) (issuer subject : Text) → Stands (unlink_oidc_identity org issuer subject)
  unfolding unlink_oidc_identity
  unlink_oidc-Stands org issuer subject = Keeps-bind _ _ (Keeps-gets _) λ affected.
      Keeps-bind _ _ (exec-Stands _ (deactivate-Unmoved org issuer subject)) λ _. Keeps-refuse _ _

-- A transaction on the links; `elsewhere` is any that leaves them as they are.
pub data Step (d : AuthDb) : AuthDb → Type 0 where
  links :
      (now : Time) (org : Ident) (issuer subject : Text) (principal actor : Ident)
      → Step d (with_org (link_identity_by_admin now org issuer subject principal actor) d).1
  unlinks :
      (now : Time) (org : Ident) (issuer subject : Text) (actor : Ident)
      → Step d (with_org (unlink_identity_by_admin now org issuer subject actor) d).1
  bootstraps :
      (trim : Ident → Ident) (now : Time) (q : BootstrapRequest)
      → Step d (with_org (bootstrap_identity trim now q) d).1
  links_oidc :
      (now : Time) (org : Ident) (issuer subject : Text) (principal by : Ident)
      → Step d (with_org (link_oidc_identity now org issuer subject principal by) d).1
  unlinks_oidc :
      (org : Ident) (issuer subject : Text)
      → Step d (with_org (unlink_oidc_identity org issuer subject) d).1
  elsewhere : (e : AuthDb) → e.identity_links ≡ d.identity_links → Step d e

pub data Reaches (start : AuthDb) : AuthDb → Type 0 where
  begin : Reaches start start
  next_step : (d e : AuthDb) → Reaches start d → Step d e → Reaches start e

Step-Unmoved : (start d e : AuthDb) → Unmoved start d → Step d e → Unmoved start e
Step-Unmoved start d e u (links now org issuer subject principal actor) =
    Keeps-with_org _ d (link_by_admin-Stands start now org issuer subject principal actor) u
Step-Unmoved start d e u (unlinks now org issuer subject actor) =
    Keeps-with_org _ d (unlink-Stands start now org issuer subject actor) u
Step-Unmoved start d e u (bootstraps trim now q) =
    Keeps-with_org _ d (bootstrap-Stands start trim now q) u
Step-Unmoved start d e u (links_oidc now org issuer subject principal by) =
    Keeps-with_org _ d (link_oidc-Stands start now org issuer subject principal by) u
Step-Unmoved start d e u (unlinks_oidc org issuer subject) =
    Keeps-with_org _ d (unlink_oidc-Stands start org issuer subject) u
Step-Unmoved start d e u (elsewhere e' same) = Unmoved-trans start d e u λ issuer subject l found. (
  l,
  subst (λ ls. find_where (is_account issuer subject) ls ≡ some l) (sym same) found,
  refl,
  refl,
)

-- Whatever onboarding operations follow one another, an account that was linked, actively or not, is
-- still on record, for the same principal of the same organization.
pub never_repointed :
    (d e : AuthDb) (issuer subject : Text) (l : LinkRow)
    → Reaches d e
    → find_link issuer subject d ≡ some l
    → (l' : LinkRow) × (find_link issuer subject e ≡ some l')
      × (l'.org_id ≡ l.org_id)
      × (l'.principal_id ≡ l.principal_id)
never_repointed d e issuer subject l r found = all d e r issuer subject l found
  where
    all : (d e : AuthDb) → Reaches d e → Unmoved d e
    all d e begin = Unmoved-refl d
    all d e (next_step c e' r s) = Step-Unmoved d c e' (all d c r) s
