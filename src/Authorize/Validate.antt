-- ===== src/Authorize/Validate.antt =====
-- src/nanoidp/routes/oauth.py: the validators of `/authorize`, in the order in which they run.
use Prim.Native.String
use nanoidp.Prelude.{
  String, Bool, false, not, ◌&&◌, Option, none, some, List, [], ◌∷◌, ◌==◌, is_text, is_given,
  is_empty, elem, keep, if◌then◌else◌,
}
use nanoidp.Json.{Json, str, arr, texts}
use nanoidp.Models.{
  OAuthClient, is_public, pkce_required, pkce_plain_allowed, scope_enforcement_active,
}
use nanoidp.Config.{ConfigManager, get_client}
use nanoidp.Scope.{resolve_scope}
use nanoidp.Resource.{ResourceResult, granted, invalid_target, resolve_resources, describe}
use nanoidp.Response.{oauth_error}
use nanoidp.ClientAuth.{form_get}
use nanoidp.RedirectUri.{
  ParsedUrl, redirect_uri_rejection_reason, redirect_uri_is_registered,
  issuer_qualifies_for_iss_parameter,
}
use nanoidp.TokenEndpoint.{effective_issuer}
use nanoidp.Authorize.{
  AuthorizeRequest, AuthorizeParams, local, redirect, WebState, Flow, pass, answer_with, note,
  ◌>>=◌, ◌>>◌,
}

-- _FORGEABLE_POST_OAUTH_FIELDS
abbrev forgeable_fields : List String
forgeable_fields =
    "client_id" ∷ "redirect_uri" ∷ "scope" ∷ "state" ∷ "code_challenge" ∷ "code_challenge_method"
    ∷ "nonce" ∷ "claims" ∷ "resource" ∷ []

abbrev pub forged : AuthorizeRequest → List String
forged r = keep (λ field. is_given (form_get field r.request.form)) forgeable_fields

-- `form client_id or p.client_id or None`
abbrev named_client : Option String → String → Option String
named_client given client_id =
    if is_given given then given else if is_text client_id then some client_id else none

abbrev forged_details : List String → List (String × Json)
forged_details [] = ("reason", str "POST with no pending /authorize request") ∷ []
forged_details (x ∷ xs) =
    ("reason", str "OAuth parameters in POST body are ignored")
    ∷ ("fields", arr (texts (x ∷ xs)))
    ∷ []

unfoldable pub audit_suspicious_authorize_post :
    AuthorizeRequest → AuthorizeParams → WebState → WebState
audit_suspicious_authorize_post r p s =
    if is_empty (forged r) && is_text p.client_id
    then s
    else note r "failed" none (named_client (form_get "client_id" r.request.form) p.client_id)
        (forged_details (forged r)) s

abbrev pub authorize_reject :
    {A : Type 0} → AuthorizeRequest → String → String → String → String → Flow A
authorize_reject r client_id reason error description s =
    answer_with (local (oauth_error error description 400))
      (note r "failed" none (some client_id) (("reason", str reason) ∷ []) s)

abbrev pub or_blank : Option String → String
or_blank none = ""
or_blank (some s) = s

-- `if x: params[key] = x`
abbrev pub param_if : Bool → String → String → List (String × String) → List (String × String)
param_if b key value rest = if b then (key, value) ∷ rest else rest

module _ (urlparse : String → Option ParsedUrl) (config : ConfigManager)
    (r : AuthorizeRequest) where
  -- The `state` and `iss` of an authorization response.
  abbrev pub state_and_issuer : AuthorizeParams → List (String × String)
  state_and_issuer p =
      let issuer = effective_issuer config.settings r.candidate in
      param_if (is_text p.state) "state" p.state
        (param_if (issuer_qualifies_for_iss_parameter urlparse issuer) "iss" issuer [])

  abbrev pub authorize_error_redirect :
      {A : Type 0} → AuthorizeParams → String → String → String → Option String → Flow A
  authorize_error_redirect p error description reason username s =
      answer_with
        (redirect p.redirect_uri
          (("error", error) ∷ ("error_description", description) ∷ state_and_issuer p))
        (note r "failed" username (some p.client_id) (("reason", str reason) ∷ []) s)

  abbrev pub known_client : AuthorizeParams → Option OAuthClient → Flow OAuthClient
  known_client p none =
      authorize_reject r p.client_id "Unknown client" "invalid_client" "Unknown client_id"
  known_client p (some client) = pass client

  unfoldable pub validate_authorize_client : AuthorizeParams → Flow OAuthClient
  validate_authorize_client p =
      if not (is_text p.client_id)
      then answer_with (local (oauth_error "invalid_request" "client_id is required" 400))
      else if not (is_text p.redirect_uri)
      then answer_with (local (oauth_error "invalid_request" "redirect_uri is required" 400))
      else known_client p (get_client config p.client_id)

  abbrev pub registered_uri : AuthorizeParams → OAuthClient → Option String → Flow (Unit {0})
  registered_uri p client (some rejection) =
      answer_with (local (oauth_error "invalid_request" rejection 400))
  registered_uri p client none =
      if not (is_empty client.redirect_uris)
        && not (redirect_uri_is_registered urlparse p.redirect_uri client.redirect_uris)
      then authorize_reject r p.client_id "redirect_uri not registered for client" "invalid_request"
          "redirect_uri is not registered for this client"
      else if config.settings.security_profile == "oauth21" && is_empty client.redirect_uris
      then authorize_reject r p.client_id "oauth21 profile requires registered redirect_uris"
          "invalid_request"
          "the oauth21 profile requires this client to have registered redirect_uris"
      else pass tt

  unfoldable pub validate_authorize_redirect_uri : AuthorizeParams → OAuthClient → Flow (Unit {0})
  validate_authorize_redirect_uri p client =
      registered_uri p client (redirect_uri_rejection_reason urlparse p.redirect_uri)

  module _ (is_valid : String → Bool) (repr : String → String) where
    unfoldable pub validate_authorize_response_type : AuthorizeParams → Flow (Unit {0})
    validate_authorize_response_type p =
        if p.response_type == "code"
        then pass tt
        else authorize_error_redirect p "unsupported_response_type"
            "Only 'code' response_type is supported"
            (String.◌++◌ "unsupported response_type " (repr p.response_type)) none

    abbrev pub granted_scope :
        AuthorizeParams → Option String → Option String → Flow AuthorizeParams
    granted_scope p scope none = pass (record p { scope = or_blank scope })
    granted_scope p scope (some description) =
        authorize_error_redirect p "invalid_scope"
          (if is_text description then description else "invalid scope")
          (if is_text description then description else "invalid scope") none

    unfoldable pub validate_authorize_scope : AuthorizeParams → OAuthClient → Flow AuthorizeParams
    validate_authorize_scope p client =
        let result =
          resolve_scope (some p.scope) client config.settings.scopes_supported
            (scope_enforcement_active config.settings) (some "openid") false in
        granted_scope p result.granted result.error_description

    -- `p.code_challenge_method or "plain"`
    abbrev pub effective_method : AuthorizeParams → String
    effective_method p =
        if is_text p.code_challenge_method then p.code_challenge_method else "plain"

    abbrev pkce_error : AuthorizeParams → String → String → Flow (Unit {0})
    pkce_error p description reason =
        authorize_error_redirect p "invalid_request" description reason none

    -- The rules for a public client.
    abbrev pub public_pkce : AuthorizeParams → OAuthClient → Flow (Unit {0})
    public_pkce p client =
        if not (is_public client)
        then pass tt
        else if not (is_text p.code_challenge)
        then pkce_error p
            "This client's token_endpoint_auth_method is 'none': PKCE with code_challenge_method S256 is required"
            "Public client without PKCE"
        else if not (effective_method p == "S256")
        then pkce_error p
            "This client's token_endpoint_auth_method is 'none': code_challenge_method must be S256"
            "Public client with non-S256 PKCE"
        else pass tt

    abbrev pub profile_pkce : AuthorizeParams → Flow (Unit {0})
    profile_pkce p =
        let method = effective_method p in
        if pkce_required config.settings && not (is_text p.code_challenge)
        then pkce_error p
            "PKCE code_challenge is required (require_pkce setting or oauth21 profile)"
            "PKCE code_challenge required (require_pkce or oauth21)"
        else if not (is_text p.code_challenge)
        then pass tt
        else if not (elem method ("plain" ∷ "S256" ∷ []))
        then pkce_error p
            (String.◌++◌ "Unsupported code_challenge_method '"
              (String.◌++◌ method "'; use S256 or plain"))
            (String.◌++◌ "Unsupported code_challenge_method: " method)
        else if method == "plain" && not (pkce_plain_allowed config.settings)
        then pkce_error p
            (String.◌++◌
              "code_challenge_method 'plain' (including the implicit default when the parameter is omitted) is not allowed by the "
              (String.◌++◌ config.settings.security_profile " profile; use S256"))
            (String.◌++◌ "PKCE method 'plain' rejected by "
              (String.◌++◌ config.settings.security_profile " profile"))
        else pass tt

    unfoldable pub validate_authorize_pkce : AuthorizeParams → OAuthClient → Flow (Unit {0})
    validate_authorize_pkce p client = public_pkce p client >> profile_pkce p

    abbrev pub granted_resources : AuthorizeParams → ResourceResult → Flow AuthorizeParams
    granted_resources p (granted xs) = pass (record p { resources = xs })
    granted_resources p (invalid_target e) =
        authorize_error_redirect p "invalid_target" (describe repr e) (describe repr e) none

    unfoldable pub validate_authorize_resources :
        AuthorizeParams → OAuthClient → Flow AuthorizeParams
    validate_authorize_resources p client =
        if is_empty p.resources
        then pass p
        else granted_resources p (resolve_resources is_valid client none p.resources)

    -- The validators in their order, with the parameters that they leave.
    unfoldable pub validate : AuthorizeParams → Flow (AuthorizeParams × OAuthClient)
    validate p = do
      client ← validate_authorize_client p
      validate_authorize_redirect_uri p client
      validate_authorize_response_type p
      q ← validate_authorize_scope p client
      validate_authorize_pkce q client
      final ← validate_authorize_resources q client
      pass (final, client)
