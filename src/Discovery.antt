-- ===== src/Discovery.antt =====
-- src/nanoidp/services/discovery.py: the discovery document. `urlparse` is an argument.
pub mod Laws
pub mod Pkce
mod Tests
use Prim.Native.String
use nanoidp.Prelude.{
  String, Bool, true, not, ◌||◌, Option, none, some, List, [], ◌∷◌, ◌==◌, if◌then◌else◌, keep,
}
use nanoidp.Models.{Settings, pkce_plain_allowed, password_grant_enabled}
use nanoidp.RedirectUri.{ParsedUrl, issuer_qualifies_for_iss_parameter}

pub record DiscoveryDocument : Type 0 where
  pub issuer : String
  pub authorization_endpoint : String
  pub token_endpoint : String
  pub userinfo_endpoint : String
  pub introspection_endpoint : String
  pub revocation_endpoint : String
  pub end_session_endpoint : String
  pub device_authorization_endpoint : String
  pub jwks_uri : String
  pub token_endpoint_auth_methods_supported : List String
  pub introspection_endpoint_auth_methods_supported : List String
  pub revocation_endpoint_auth_methods_supported : List String
  pub response_types_supported : List String
  pub id_token_signing_alg_values_supported : List String
  pub scopes_supported : List String
  pub claims_supported : List String
  pub claims_parameter_supported : Bool
  pub grant_types_supported : List String
  pub code_challenge_methods_supported : List String
  pub authorization_response_iss_parameter_supported : Bool

-- `issuer or settings.issuer`
abbrev advertised_issuer : Settings → Option String → String
advertised_issuer settings none = settings.issuer
advertised_issuer settings (some issuer) = if issuer == "" then settings.issuer else issuer

abbrev pub advertised_grants : Settings → List String
advertised_grants settings =
    keep (λ grant. not (grant == "password") || password_grant_enabled settings)
      ("authorization_code" ∷ "client_credentials" ∷ "password" ∷ "refresh_token"
        ∷ "urn:ietf:params:oauth:grant-type:device_code" ∷ [])

module _ (urlparse : String → Option ParsedUrl) where
  abbrev document : Settings → String → DiscoveryDocument
  document settings issuer = record {
    issuer = issuer;
    authorization_endpoint = String.◌++◌ issuer "/authorize";
    token_endpoint = String.◌++◌ issuer "/token";
    userinfo_endpoint = String.◌++◌ issuer "/userinfo";
    introspection_endpoint = String.◌++◌ issuer "/introspect";
    revocation_endpoint = String.◌++◌ issuer "/revoke";
    end_session_endpoint = String.◌++◌ issuer "/logout";
    device_authorization_endpoint = String.◌++◌ issuer "/device_authorization";
    jwks_uri = String.◌++◌ issuer "/.well-known/jwks.json";
    token_endpoint_auth_methods_supported =
        "client_secret_basic" ∷ "client_secret_post" ∷ "none" ∷ [];
    introspection_endpoint_auth_methods_supported =
        "client_secret_basic" ∷ "client_secret_post" ∷ [];
    revocation_endpoint_auth_methods_supported =
        "client_secret_basic" ∷ "client_secret_post" ∷ "none" ∷ [];
    response_types_supported = "code" ∷ [];
    id_token_signing_alg_values_supported = "RS256" ∷ [];
    scopes_supported = settings.scopes_supported;
    claims_supported =
        "sub" ∷ "iss" ∷ "aud" ∷ "azp" ∷ "exp" ∷ "iat" ∷ "nbf" ∷ "auth_time" ∷ "nonce" ∷ "at_hash"
        ∷ "email" ∷ "email_verified" ∷ "preferred_username" ∷ "roles" ∷ "groups" ∷ "tenant"
        ∷ "identity_class" ∷ "entitlements" ∷ "source_acl" ∷ "attributes" ∷ "authorities" ∷ [];
    claims_parameter_supported = true;
    grant_types_supported = advertised_grants settings;
    code_challenge_methods_supported =
        if pkce_plain_allowed settings then "plain" ∷ "S256" ∷ [] else "S256" ∷ [];
    authorization_response_iss_parameter_supported =
        issuer_qualifies_for_iss_parameter urlparse issuer;
  }

  unfoldable pub build_discovery_document : Settings → Option String → DiscoveryDocument
  build_discovery_document settings issuer = document settings (advertised_issuer settings issuer)
