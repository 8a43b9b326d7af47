-- ===== src/DevicePages.antt =====
-- src/nanoidp/routes/oauth.py: `POST /device_authorization` (RFC 8628 §3.1). The two random codes that
-- the store draws are arguments, and so are the grammar of resources and Python's `repr`.
pub mod Confirm
pub mod Laws
mod Tests
use Prim.Native.String
use nanoidp.Prelude.{
  ℕ, String, Bool, true, false, not, ◌||◌, Option, none, some, List, [], ◌∷◌, is_none, is_given,
  is_text, if◌then◌else◌,
}
use nanoidp.Dict.{Dict}
use nanoidp.Json.{Json, num, str}
use nanoidp.Models.{OAuthClient, Settings, scope_enforcement_active}
use nanoidp.Config.{ConfigManager, get_client}
use nanoidp.DeviceCode.{DeviceRequest, DeviceCodeStore, create}
use nanoidp.Scope.{ScopeResult, resolve_scope}
use nanoidp.Resource.{ResourceResult, granted, invalid_target, resolve_resources, describe}
use nanoidp.ClientAuth.{
  Request, form_get, form_getlist, request_client_identity, enforce_registered_client_auth,
}
use nanoidp.TokenEndpoint.{effective_issuer}
use nanoidp.Grants.Monad.{IdpState}
use nanoidp.Endpoints.{record_event}
use nanoidp.Endpoints.Revoke.{mismatch_text, comes_public}

-- DEVICE_CODE_EXPIRES_IN and DEVICE_POLL_INTERVAL, in seconds
abbrev pub expires_in : ℕ
expires_in = 600

abbrev pub poll_interval : ℕ
poll_interval = 5

-- A response: invalid_client with 401, an error with 400, 503 with a Retry-After header, or the codes.
pub data StartReply : Type 0 where
  invalid_client : StartReply
  refused : String → String → StartReply
  at_capacity : StartReply
  started : Dict Json → StartReply

abbrev is_present : Option String → Bool
is_present o = not (is_none o)

unfoldable pub device_auth_error : ConfigManager → Request → Option String
device_auth_error config r =
    let identity = request_client_identity r in
    if identity.mismatch
    then some mismatch_text
    else if comes_public config r
    then (if not (is_none identity.auth) || is_present identity.body_client_secret
        then some
            "a public client presents its client_id as a parameter, without HTTP Basic or a client_secret (RFC 8628 §3.1)"
        else none)
    else enforce_registered_client_auth config identity.client_id identity.auth
        identity.body_client_secret

-- A parameter that was settled, or an error with its description.
pub data Settled (A : Type 0) : Type 0 where
  fine : A → Settled A
  bad : String → String → Settled A

abbrev text_or_blank : Option String → String
text_or_blank none = ""
text_or_blank (some s) = s

abbrev settled_scope : Option String → Option String → Settled String
settled_scope scope none = fine (text_or_blank scope)
settled_scope scope (some description) = bad "invalid_scope" description

unfoldable pub device_scope : ConfigManager → Option OAuthClient → String → Settled String
device_scope config none requested = fine requested
device_scope config (some client) requested =
    let result =
      resolve_scope (some requested) client config.settings.scopes_supported
        (scope_enforcement_active config.settings) (some "openid") false in
    settled_scope result.granted result.error_description

abbrev some_items : List String → Option (List String)
some_items [] = none
some_items (x ∷ xs) = some (x ∷ xs)

abbrev settled_resources : (String → String) → ResourceResult → Settled (Option (List String))
settled_resources repr (granted xs) = fine (some_items xs)
settled_resources repr (invalid_target e) = bad "invalid_target" (describe repr e)

unfoldable pub device_resources :
    (String → Bool)
    → (String → String)
    → Option OAuthClient
    → List String
    → Settled (Option (List String))
device_resources is_valid repr client [] = fine none
device_resources is_valid repr none (x ∷ xs) = fine none
device_resources is_valid repr (some client) (x ∷ xs) =
    settled_resources repr (resolve_resources is_valid client none (x ∷ xs))

-- `device_verification_base_url or effective_issuer(settings)` under issuer_from_request
unfoldable pub verification_base : Settings → String → String
verification_base s candidate =
    if not s.issuer_from_request
    then s.issuer
    else if is_given s.device_verification_base_url
    then text_or_blank s.device_verification_base_url
    else effective_issuer s candidate

module _ (is_valid : String → Bool) (repr : String → String) (device_code user_code : String)
    (config : ConfigManager) (r : Request) (candidate : String) where
  abbrev client_id : String
  client_id = text_or_blank (request_client_identity r).client_id

  abbrev pub client : Option OAuthClient
  client = get_client config client_id

  abbrev start_failed : String → IdpState → IdpState
  start_failed reason s =
      record_event r "device_authorization_request" "failed" "/device_authorization" none
        (some client_id) (("reason", str reason) ∷ []) s

  abbrev pub start_body : Dict Json
  start_body =
      let uri = String.◌++◌ (verification_base config.settings candidate) "/device" in
      ("device_code", str device_code)
      ∷ ("user_code", str user_code)
      ∷ ("verification_uri", str uri)
      ∷ ("verification_uri_complete", str (String.◌++◌ uri (String.◌++◌ "?user_code=" user_code)))
      ∷ ("expires_in", num expires_in)
      ∷ ("interval", num poll_interval)
      ∷ []

  abbrev pub device_request : String → Option (List String) → DeviceRequest
  device_request scope resource = record {
    client_id = client_id;
    scope = scope;
    expires_in = expires_in;
    interval = poll_interval;
    resource = resource;
  }

  abbrev pub created : String → DeviceCodeStore × Bool → IdpState → IdpState × StartReply
  created scope (store, false) s =
      (start_failed "device code store at capacity" (record s { devices = store }), at_capacity)
  created scope (store, true) s = (
    record_event r "device_authorization_request" "success" "/device_authorization" none
        (some client_id) (("user_code", str user_code) ∷ ("scope", str scope) ∷ [])
        (record s { devices = store }),
    started start_body,
  )

  abbrev pub start_resources :
      String → Settled (Option (List String)) → IdpState → IdpState × StartReply
  start_resources scope (bad error description) s =
      (start_failed description s, refused error description)
  start_resources scope (fine resource) s =
      created scope
        (create r.transport.now device_code user_code (device_request scope resource) s.devices) s

  abbrev pub start_scope : Settled String → IdpState → IdpState × StartReply
  start_scope (bad error description) s = (start_failed description s, refused error description)
  start_scope (fine scope) s =
      start_resources scope (device_resources is_valid repr client (form_getlist "resource" r.form))
        s

  abbrev pub start_as : Option String → IdpState → IdpState × StartReply
  start_as (some reason) s = (
    record_event r "device_authorization_request" "failed" "/device_authorization" none
        (request_client_identity r).client_id (("reason", str reason) ∷ []) s,
    invalid_client,
  )
  start_as none s =
      start_scope (device_scope config client (text_or_blank (form_get "scope" r.form))) s

  unfoldable pub device_authorization : IdpState → IdpState × StartReply
  device_authorization s = start_as (device_auth_error config r) s
