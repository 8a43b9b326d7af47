-- ===== src/Models.antt =====
-- src/nanoidp/models.py: users, OAuth clients, and the settings that the modelled parts read. Fields
-- for display, branding, SAML and the server are left out.
use nanoidp.Prelude.{
  ℕ, String, Bool, true, false, not, ◌&&◌, ◌||◌, Option, List, [], ◌∷◌, ◌==◌, elem,
}
use nanoidp.Dict.{Dict}
use nanoidp.Json.{Json}

pub record User : Type 0 where
  pub username : String
  pub password : Option String
  pub email : String
  pub identity_class : Option String
  pub entitlements : List String
  pub roles : List String
  pub groups : List String
  pub tenant : String
  pub source_acl : List String
  pub attributes : Dict Json

-- `token_endpoint_auth_method`; the value "none" is `public_client`.
pub data AuthMethod : Type 0 where
  client_secret_basic client_secret_post public_client : AuthMethod

pub record OAuthClient : Type 0 where
  pub client_id : String
  pub client_secret : Option String
  pub token_endpoint_auth_method : AuthMethod
  pub additional_audiences : List String
  pub redirect_uris : List String
  pub allowed_scopes : List String
  pub allowed_resources : List String

abbrev is_none_method : AuthMethod → Bool
is_none_method public_client = true
is_none_method client_secret_basic = false
is_none_method client_secret_post = false

abbrev pub is_public : OAuthClient → Bool
is_public c = is_none_method c.token_endpoint_auth_method

pub record Settings : Type 0 where
  pub issuer : String
  pub issuer_from_request : Bool
  pub issuer_allowlist : List String
  pub device_verification_base_url : Option String
  pub audience : String
  pub token_expiry_minutes : ℕ
  pub refresh_token_rotation : Bool
  pub clients : List OAuthClient
  pub scopes_supported : List String
  pub scope_enforcement : Bool
  pub security_profile : String
  pub require_pkce : Bool
  pub login_mode : String
  pub auto_login : Bool
  pub two_step : Bool
  pub password_hashing : Bool
  pub enforce_password_check : Bool
  pub authority_prefixes : Dict String

module _ (s : Settings) where
  unfoldable pub pkce_required : Bool
  pkce_required = s.require_pkce || s.security_profile == "oauth21"

  unfoldable pub pkce_plain_allowed : Bool
  pkce_plain_allowed = not (elem s.security_profile ("stricter-dev" ∷ "oauth21" ∷ []))

  unfoldable pub rotation_enabled : Bool
  rotation_enabled = s.refresh_token_rotation || s.security_profile == "oauth21"

  unfoldable pub password_grant_enabled : Bool
  password_grant_enabled = not (s.security_profile == "oauth21")

  unfoldable pub persona_mode_enabled : Bool
  persona_mode_enabled = s.login_mode == "persona"

  unfoldable pub auto_login_enabled : Bool
  unfolding persona_mode_enabled
  auto_login_enabled = persona_mode_enabled && s.auto_login

  unfoldable pub two_step_login_active : Bool
  unfolding persona_mode_enabled
  two_step_login_active = s.two_step && not persona_mode_enabled

  unfoldable pub scope_enforcement_active : Bool
  scope_enforcement_active = s.scope_enforcement || not (s.security_profile == "dev")
