-- ===== src/Config.antt =====
-- internal/platform/config.go, and the checks of NewOIDCVerifier in internal/platform/oidc.go that it
-- runs. The environment is a function from the variables that the code reads, and url.Parse a parameter.
pub mod Production
use workforce_platform.Base.{
  ℕ, Bool, true, false, not, ◌&&◌, ◌||◌, Option, none, some, List, [], ◌∷◌, ◌++◌, ◌==◌,
  if◌then◌else◌,
}
use workforce_platform.Base.Rows.{exists_where}
use workforce_platform.Strings.{Str, is_empty, same, trim_space, to_lower, has_prefix}
use workforce_platform.Errors.{
  Error, Result, ok, err, auth_mode_required, production_requires_oidc, unsupported_auth_mode,
  issuer_required, audience_required, issuer_not_absolute, issuer_not_https, ui_origin_not_absolute,
  production_requires_https, production_requires_secure_cookies, local_tokens_required,
  malformed_local_entry, invalid_local_identity, invalid_local_role, duplicate_local_token,
}

pub data Variable : Type 0 where
  auth_mode app_env database_url http_addr ui_dir oidc_issuer oidc_audience access_client_id
        access_client_secret client_id client_secret redirect_url post_logout_url ui_origin
        cookie_secure local_auth_tokens :
      Variable

-- Identity, by the names of its columns.
pub record LocalIdentity : Type 0 where
  pub id : Str
  pub org_id : Str
  pub role : Str
  pub name : Str

-- OIDCConfig, with the default for the rest.
pub record OidcConfig : Type 0 where
  pub issuer : Str
  pub audience : Str
  pub access_client_id : Str
  pub access_client_secret : Str

pub record BrowserConfig : Type 0 where
  pub client_id : Str
  pub client_secret : Str
  pub redirect_url : Str
  pub ui_origin : Str
  pub post_logout_url : Str
  pub access_client_id : Str
  pub access_client_secret : Str
  pub cookie_secure : Bool

-- `oidc` and `browser` are `none` in local mode. Tokens is a list of tokens with their identities.
pub record Config : Type 0 where
  pub auth_mode : Str
  pub tokens : List (Str × LocalIdentity)
  pub database_url : Str
  pub address : Str
  pub oidc : Option OidcConfig
  pub browser : Option BrowserConfig
  pub ui_dir : Str

-- What the code reads of a parsed URL.
pub record Url : Type 0 where
  pub scheme : Str
  pub host : Str
  pub hostname : Str

-- An early return.
unfoldable pub refuse : {A : Type 0} → Bool → Error → Result A → Result A
refuse true e r = err e
refuse false e r = r

unfoldable pub then_do : {A B : Type 0} → Result A → (A → Result B) → Result B
then_do (ok a) f = f a
then_do (err e) f = err e

abbrev pub oidc_mode : Str
oidc_mode = b'o' ∷ b'i' ∷ b'd' ∷ b'c' ∷ []

abbrev pub local_mode : Str
local_mode = b'l' ∷ b'o' ∷ b'c' ∷ b'a' ∷ b'l' ∷ []

abbrev pub production : Str
production = b'p' ∷ b'r' ∷ b'o' ∷ b'd' ∷ b'u' ∷ b'c' ∷ b't' ∷ b'i' ∷ b'o' ∷ b'n' ∷ []

abbrev pub https : Str
https = b'h' ∷ b't' ∷ b't' ∷ b'p' ∷ b's' ∷ []

abbrev pub http_origin : Str
http_origin = b'h' ∷ b't' ∷ b't' ∷ b'p' ∷ b':' ∷ b'/' ∷ b'/' ∷ []

abbrev pub https_origin : Str
https_origin = https ++ b':' ∷ b'/' ∷ b'/' ∷ []

abbrev pub default_address : Str
default_address = b':' ∷ b'8' ∷ b'0' ∷ b'8' ∷ b'0' ∷ []

-- strings.TrimRight(s, "/")
unfoldable pub trim_slashes : Str → Str
trim_slashes [] = []
trim_slashes (c ∷ cs) =
    let rest = trim_slashes cs in if is_empty rest && c == b'/' then [] else c ∷ rest

-- strings.Split at a character, with the part that is being read.
unfoldable pub split_at : ℕ → Str → Str → List Str
split_at sep part [] = part ∷ []
split_at sep part (c ∷ cs) =
    let next = split_at sep (if c == sep then [] else part ++ c ∷ []) cs in
    if c == sep then part ∷ next else next

-- strings.SplitN(s, "=", 2), `none` for one part.
unfoldable pub cut_at : ℕ → Str → Str → Option (Str × Str)
cut_at sep part [] = none
cut_at sep part (c ∷ cs) =
    let next = cut_at sep (part ++ c ∷ []) cs in if c == sep then some (part, cs) else next

abbrev pub is_one_of : Str → List Str → Bool
is_one_of s = exists_where (same s)

abbrev pub local_roles : List Str
local_roles =
    (b'r' ∷ b'e' ∷ b'q' ∷ b'u' ∷ b'e' ∷ b's' ∷ b't' ∷ b'e' ∷ b'r' ∷ [])
    ∷ (b'a' ∷ b'p' ∷ b'p' ∷ b'r' ∷ b'o' ∷ b'v' ∷ b'e' ∷ b'r' ∷ [])
    ∷ (b'a' ∷ b'd' ∷ b'm' ∷ b'i' ∷ b'n' ∷ [])
    ∷ []

abbrev pub identity_of : List Str → Result LocalIdentity
identity_of (org ∷ name ∷ role ∷ more) =
    refuse (is_empty org || is_empty name) invalid_local_identity (
      refuse (not (is_one_of role local_roles)) invalid_local_role
        (ok (record { id = name; org_id = org; role = role; name = name })))
identity_of _ = err invalid_local_identity

abbrev pub entry_of : Option (Str × Str) → Result (Str × LocalIdentity)
entry_of none = err malformed_local_entry
entry_of (some (token, rest)) =
    refuse (is_empty token) malformed_local_entry
      (then_do (identity_of (split_at b':' [] rest)) λ i. ok (token, i))

unfoldable pub local_tokens :
    List Str → List (Str × LocalIdentity) → Result (List (Str × LocalIdentity))
local_tokens [] tokens = ok tokens
local_tokens (entry ∷ entries) tokens = then_do (entry_of (cut_at b'=' [] entry)) λ x.
    refuse (exists_where (λ y. same y.0 x.0) tokens) duplicate_local_token
      (local_tokens entries (tokens ++ x ∷ []))

module _ (getenv : Variable → Str) (parse_url : Str → Option Url) where
  abbrev pub trimmed : Variable → Str
  trimmed v = trim_space (getenv v)

  abbrev pub mode : Str
  mode = to_lower (trimmed auth_mode)

  abbrev pub is_production : Bool
  is_production = same (to_lower (trimmed app_env)) production

  abbrev pub is_off : Str → Bool
  is_off v =
      is_one_of v ((b'f' ∷ b'a' ∷ b'l' ∷ b's' ∷ b'e' ∷ []) ∷ (b'0' ∷ []) ∷ (b'n' ∷ b'o' ∷ []) ∷ [])

  unfoldable pub cookie_secure_from_env : Bool
  cookie_secure_from_env = not (is_off (to_lower (trimmed cookie_secure)))

  -- The host may be loopback where `allow_insecure` permits it.
  abbrev pub is_loopback : Str → Bool
  is_loopback host = is_one_of host (
      (b'l' ∷ b'o' ∷ b'c' ∷ b'a' ∷ b'l' ∷ b'h' ∷ b'o' ∷ b's' ∷ b't' ∷ [])
      ∷ (b'1' ∷ b'2' ∷ b'7' ∷ b'.' ∷ b'0' ∷ b'.' ∷ b'0' ∷ b'.' ∷ b'1' ∷ [])
      ∷ (b':' ∷ b':' ∷ b'1' ∷ [])
      ∷ [])

  abbrev pub check_scheme : Bool → Option Url → Result (Unit {0})
  check_scheme allow none = err issuer_not_absolute
  check_scheme allow (some u) = refuse (is_empty u.host) issuer_not_absolute (
      if same u.scheme https
      then ok tt
      else if allow && is_loopback u.hostname
      then ok tt
      else err issuer_not_https)

  unfoldable pub check_issuer_scheme : Str → Bool → Result (Unit {0})
  check_issuer_scheme issuer allow = check_scheme allow (parse_url issuer)

  -- NewOIDCVerifier on the configuration of LoadConfig, which permits no insecure issuer and names no
  -- algorithms; what it makes is left out.
  unfoldable pub new_oidc_verifier : OidcConfig → Result (Unit {0})
  new_oidc_verifier c = refuse (is_empty (trim_space c.issuer)) issuer_required (
      refuse (is_empty (trim_space c.audience)) audience_required
        (check_issuer_scheme (trim_space c.issuer) false))

  abbrev pub oidc_config : OidcConfig
  oidc_config = record {
    issuer = trimmed oidc_issuer;
    audience = trimmed oidc_audience;
    access_client_id = trimmed Variable.access_client_id;
    access_client_secret = trimmed Variable.access_client_secret;
  }

  abbrev pub browser_config : BrowserConfig
  browser_config = record {
    client_id = trimmed Variable.client_id;
    client_secret = trimmed Variable.client_secret;
    redirect_url = trimmed Variable.redirect_url;
    ui_origin = trim_slashes (trimmed Variable.ui_origin);
    post_logout_url = trimmed Variable.post_logout_url;
    access_client_id = trimmed Variable.access_client_id;
    access_client_secret = trimmed Variable.access_client_secret;
    cookie_secure = cookie_secure_from_env;
  }

  abbrev pub config_of :
      List (Str × LocalIdentity) → Option OidcConfig → Option BrowserConfig → Config
  config_of tokens oidc browser = record {
    auth_mode = mode;
    tokens = tokens;
    database_url = getenv Variable.database_url;
    address = if is_empty (getenv http_addr) then default_address else getenv http_addr;
    oidc = oidc;
    browser = browser;
    ui_dir = trimmed Variable.ui_dir;
  }

  abbrev pub load_browser : BrowserConfig → Result Config
  load_browser b =
      refuse
        (not (is_empty b.ui_origin)
          && (not (has_prefix b.ui_origin http_origin)
              && not (has_prefix b.ui_origin https_origin)))
        ui_origin_not_absolute
        (refuse (is_production && has_prefix b.ui_origin http_origin) production_requires_https (
          refuse (is_production && not b.cookie_secure) production_requires_secure_cookies
            (ok (config_of [] (some oidc_config) (some b)))))

  abbrev pub load_local : Str → Result Config
  load_local raw =
      refuse (is_empty raw) local_tokens_required
        (then_do (local_tokens (split_at b',' [] raw) []) λ tokens. ok (config_of tokens none none))

  unfoldable pub load_config : Result Config
  load_config = refuse (is_empty mode) auth_mode_required (
      refuse (is_production && not (same mode oidc_mode)) production_requires_oidc (
        refuse (not (same mode local_mode) && not (same mode oidc_mode)) unsupported_auth_mode (
          if same mode oidc_mode
          then then_do (new_oidc_verifier oidc_config) (λ _. load_browser browser_config)
          else load_local (trimmed local_auth_tokens))))
