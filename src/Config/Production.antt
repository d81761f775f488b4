-- ===== src/Config/Production.antt =====
-- What LoadConfig of internal/platform/config.go asks of a production deployment.
use workforce_platform.Base.{
  Bool, true, false, not, ◌&&◌, Option, none, some, [], ◌≡◌, refl, ap, subst, arith, if◌then◌else◌,
}
use workforce_platform.Strings.{Str, same, trim_space, has_prefix}
use workforce_platform.Errors.{Error, Result, ok, err}
use workforce_platform.Config.{
  Variable, OidcConfig, BrowserConfig, Config, Url, refuse, then_do, oidc_mode, https, http_origin,
  mode, is_production, check_scheme, check_issuer_scheme, new_oidc_verifier, oidc_config,
  browser_config, load_config,
}

refuse-ok :
    {A : Type 0} (b : Bool) (e : Error) (r : Result A) (a : A)
    → refuse b e r ≡ ok a
    → (b ≡ false) × (r ≡ ok a)
unfolding refuse
refuse-ok true e r a h = cc
refuse-ok false e r a h = (refl, h)

then_do-ok :
    {A B : Type 0} (m : Result A) (f : A → Result B) (b : B)
    → then_do m f ≡ ok b
    → (a : A) × (m ≡ ok a) × (f a ≡ ok b)
unfolding then_do
then_do-ok (ok a) f b h = (a, refl, h)
then_do-ok (err e) f b h = cc

if-ok :
    {A : Type 0} (b : Bool) (x y : Result A) (a : A)
    → b ≡ true
    → (if b then x else y) ≡ ok a
    → x ≡ ok a
if-ok true x y a e h = h
if-ok false x y a e h = cc

abbrev given : Config → Result Config → Config
given c (ok x) = x
given c (err e) = c

module _ (getenv : Variable → Str) (parse_url : Str → Option Url) where
  -- Authentication by OIDC alone, at an issuer reached by https; session cookies that are secure, and an
  -- interface, if there is one, that is not reached by plain http.
  abbrev pub IsHardened : Config → Type 0
  IsHardened c =
      (same c.auth_mode oidc_mode ≡ true)
      × (c.tokens ≡ [])
      × (o : OidcConfig) × (b : BrowserConfig) × (u : Url) × (c.oidc ≡ some o)
      × (c.browser ≡ some b)
      × (b.cookie_secure ≡ true)
      × (has_prefix b.ui_origin http_origin ≡ false)
      × (parse_url (trim_space o.issuer) ≡ some u)
      × (same u.scheme https ≡ true)

  scheme_checked :
      (o : Option Url)
      → check_scheme getenv parse_url false o ≡ ok tt
      → (u : Url) × (o ≡ some u) × (same u.scheme https ≡ true)
  scheme_checked none h = cc
  scheme_checked (some u) h =
      let (host, rest) = refuse-ok _ _ _ tt h in (u, refl, ground (arith, rest))

  issuer_checked :
      new_oidc_verifier getenv parse_url (oidc_config getenv parse_url) ≡ ok tt
      → (u : Url) × (parse_url (trim_space (oidc_config getenv parse_url).issuer) ≡ some u)
        × (same u.scheme https ≡ true)
  unfolding new_oidc_verifier check_issuer_scheme
  issuer_checked h =
      let (_, h1) = refuse-ok _ _ _ tt h in
      let (_, h2) = refuse-ok _ _ _ tt h1 in scheme_checked _ h2

  -- Where APP_ENV names production, LoadConfig gives a configuration only with OIDC as the sole
  -- authentication, at an issuer reached by https, with secure session cookies, and without an interface
  -- reached by plain http.
  pub production-IsHardened :
      (c : Config)
      → is_production getenv parse_url ≡ true
      → load_config getenv parse_url ≡ ok c
      → IsHardened c
  unfolding load_config
  production-IsHardened c live h =
      let (_, h1) = refuse-ok _ _ _ c h in
      let (oidc, h2) = refuse-ok _ _ _ c h1 in
      let (_, h3) = refuse-ok _ _ _ c h2 in
      let by_oidc = is_oidc oidc in
      let (_, verified, h4) = then_do-ok _ _ c (if-ok _ _ _ c by_oidc h3) in
      let (_, h5) = refuse-ok _ _ _ c h4 in
      let (plain, h6) = refuse-ok _ _ _ c h5 in
      let (cookies, h7) = refuse-ok _ _ _ c h6 in
      let (u, parsed, scheme) = issuer_checked verified in
      subst IsHardened (ap (given c) h7) (
        by_oidc,
        refl,
        oidc_config getenv parse_url,
        browser_config getenv parse_url,
        u,
        refl,
        refl,
        ground (arith, live, cookies),
        ground (arith, live, plain),
        parsed,
        scheme,
      )
    where
      is_oidc :
          (is_production getenv parse_url && not (same (mode getenv parse_url) oidc_mode)) ≡ false
          → same (mode getenv parse_url) oidc_mode ≡ true
      is_oidc e = ground (arith, live, e)
