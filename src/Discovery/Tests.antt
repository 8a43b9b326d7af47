-- ===== src/Discovery/Tests.antt =====
-- The discovery document of a concrete configuration, under the oauth21 profile.
use nanoidp.Prelude.{String, Bool, true, false, ◌≡◌, ◌↔◌, refl, Option, none, some, [], ◌∷◌}
use nanoidp.Models.{password_grant_enabled, pkce_plain_allowed}
use nanoidp.Samples.{sample_config, sample_settings}
use nanoidp.AuthCode
use nanoidp.DeviceCode
use nanoidp.Revocation
use nanoidp.AuditLog.{new_log}
use nanoidp.ClientAuth.{Request}
use nanoidp.RedirectUri.{ParsedUrl, no_port, issuer_qualifies_for_iss_parameter}
use nanoidp.Grants.Monad.{IdpState}
use nanoidp.Grants.Defs.{GrantContext, Verified, invalid}
use nanoidp.TokenEndpoint.{Platform, dispatch}
use nanoidp.Authorize.{AuthorizeRequest, AuthorizeParams, WebState, cleared}
use nanoidp.Discovery.{build_discovery_document}
use nanoidp.Discovery.Laws.{IsUnsupported, unadvertised_refused}
use nanoidp.Discovery.Pkce.{PassesProfile, is_advertised, profile_pkce_iff}

abbrev parsed : String → Option ParsedUrl
parsed uri = some (record {
  scheme = "https";
  netloc = "idp";
  path = "";
  fragment = "";
  hostname = some "idp";
  port = no_port;
})

abbrev any_text : String → Bool
any_text value = true

abbrev same : String → String
same s = s

abbrev no_token : String → String → Verified
no_token jwt audience = invalid "unread"

abbrev platform : Platform
platform = record {
  parse_int = λ text. none;
  loads = λ text. none;
  is_valid_uri = any_text;
  repr = same;
  checkpw = λ given stored. none;
  s256 = same;
  verify_jwt = no_token;
  upper = same;
  show = λ j. "x";
  sign = λ claims. some "jwt";
  at_hash = same;
}

abbrev posted : Request
posted = record {
  transport = record { now = 10; method = "POST"; remote_addr = none; user_agent = none };
  form = ("grant_type", "password") ∷ ("username", "alice") ∷ ("password", "secret") ∷ [];
  authorization = none;
  authorization_header = "";
}

abbrev asking : GrantContext
asking = record {
  config = sample_config;
  client_id = "web";
  grant_type = "password";
  request = posted;
}

abbrev fresh : IdpState
fresh = record {
  codes = AuthCode.empty;
  devices = DeviceCode.empty;
  revocations = Revocation.empty;
  audit = new_log 10;
}

advertised :
    (build_discovery_document parsed sample_settings none).grant_types_supported
    ≡ "authorization_code" ∷ "client_credentials" ∷ "refresh_token"
      ∷ "urn:ietf:params:oauth:grant-type:device_code" ∷ []
unfolding build_discovery_document password_grant_enabled
advertised = refl

announces_iss :
    let document = build_discovery_document parsed sample_settings (some "https://idp") in
    document.authorization_response_iss_parameter_supported ≡ true
unfolding build_discovery_document issuer_qualifies_for_iss_parameter
announces_iss = refl

unadvertised_refused_example : IsUnsupported fresh (dispatch platform asking fresh)
unadvertised_refused_example =
    unadvertised_refused platform asking fresh parsed none
      (unfold build_discovery_document password_grant_enabled in refl)

abbrev authorizing : AuthorizeRequest
authorizing = record { is_post = false; args = []; request = posted; candidate = "http://idp" }

abbrev challenged : AuthorizeParams
challenged = record {
  response_type = "code";
  client_id = "web";
  redirect_uri = "https://app/cb";
  scope = "openid";
  state = "";
  code_challenge = "c";
  code_challenge_method = "S256";
  nonce = "";
  claims_param = "";
  resources = [];
  login_hint = "";
}

abbrev browsing : WebState
browsing = record { idp = fresh; session = cleared }

profile_pkce_iff_example :
    PassesProfile parsed sample_config authorizing any_text same challenged browsing
    ↔ (is_advertised parsed sample_config authorizing any_text same none challenged ≡ true)
profile_pkce_iff_example =
    profile_pkce_iff parsed sample_config authorizing any_text same challenged browsing none
      (λ e. cc)

plain_unadvertised :
    is_advertised parsed sample_config authorizing any_text same none
      (record challenged { code_challenge_method = "plain" })
    ≡ false
unfolding build_discovery_document pkce_plain_allowed
plain_unadvertised = refl
