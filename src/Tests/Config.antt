-- ===== src/Tests/Config.antt =====
-- A production configuration, run and witnessed.
use workforce_platform.Base.{true, Option, some, [], ◌∷◌, ◌≡◌, refl}
use workforce_platform.Base.Rows.{exists_where}
use workforce_platform.Strings.{Str, same, trim_space, trim_left, trim_right, to_lower, has_prefix}
use workforce_platform.Errors.{ok}
use workforce_platform.Config.{
  Variable, Config, Url, oidc_mode, production, https, is_production, oidc_config, browser_config,
  config_of, load_config, new_oidc_verifier, check_issuer_scheme, cookie_secure_from_env,
  trim_slashes, refuse, then_do,
}
use workforce_platform.Config.Production.{IsHardened, production-IsHardened}

abbrev environment : Variable → Str
environment Variable.auth_mode = oidc_mode
environment Variable.app_env = production
environment Variable.oidc_issuer = b'i' ∷ []
environment Variable.oidc_audience = b'a' ∷ []
environment _ = []

abbrev parse_url : Str → Option Url
parse_url s = some (record { scheme = https; host = s; hostname = s })

abbrev deployed : Config
deployed =
    config_of environment parse_url [] (some (oidc_config environment parse_url))
      (some (browser_config environment parse_url))

is_live : is_production environment parse_url ≡ true
unfolding trim_space trim_left trim_right to_lower same
is_live = refl

loads : load_config environment parse_url ≡ ok deployed
unfolding load_config new_oidc_verifier check_issuer_scheme cookie_secure_from_env trim_slashes
    refuse then_do trim_space trim_left trim_right to_lower same has_prefix exists_where
loads = refl

production-IsHardened_example : IsHardened environment parse_url deployed
production-IsHardened_example = production-IsHardened environment parse_url deployed is_live loads
