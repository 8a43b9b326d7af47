-- ===== src/Grants/Redeem.antt =====
-- src/nanoidp/routes/oauth_grants.py: the authorization_code and device_code grants, which redeem a
-- stored authorization.
use nanoidp.Prelude.{◌/◌, String, Bool, true, Option, none, some, List, is_text}
use nanoidp.Json.{Json, arr, texts}
use nanoidp.Models.{User}
use nanoidp.Config.{get_user, get_client}
use nanoidp.AuthCode
use nanoidp.AuthCode.{AuthorizationCode, ClaimsRequest, Consumed, consume_code}
use nanoidp.DeviceCode
use nanoidp.DeviceCode.{DeviceCodeGrant, PollOutcome, second}
use nanoidp.Response.{oauth_error}
use nanoidp.ClientAuth.{form_get}
use nanoidp.Grants.Monad.{Action, pure, stop, raise, require, ◌>>=◌, ◌>>◌}
use nanoidp.Grants.Defs.{
  GrantOutcome, outcome, GrantContext, field_or_blank, reason, fail, check_grant_scope, or_nil,
  some_items, resolve_token_resource,
}
use nanoidp.Grants.Refresh.{found_user}

-- The requested names of one place, as the JSON list that `create_token` is handed.
abbrev pub names_of : Option (List String) → Option Json
names_of none = none
names_of (some names) = some (arr (texts names))

abbrev pub id_token_names : Option ClaimsRequest → Option Json
id_token_names none = none
id_token_names (some c) = names_of c.id_token

abbrev pub userinfo_names : Option ClaimsRequest → Option Json
userinfo_names none = none
userinfo_names (some c) = names_of c.userinfo

abbrev redeemed : GrantContext → Consumed → Action AuthorizationCode
redeemed ctx (AuthCode.granted c) = pure c
redeemed ctx AuthCode.refused =
    fail ctx none (reason ctx "Invalid or expired authorization code")
      (oauth_error "invalid_grant" "Invalid or expired authorization code" 400)
redeemed ctx AuthCode.raised = raise

-- The consumption of the code on the store, at the time of the request.
abbrev consume : (String → String) → GrantContext → Action AuthorizationCode
consume s256 ctx s =
    let (codes, result) =
      consume_code s256 ctx.request.transport.now (field_or_blank ctx "code") ctx.client_id
        (field_or_blank ctx "redirect_uri") (form_get "code_verifier" ctx.request.form) s.codes in
    redeemed ctx result (record s { codes = codes })

abbrev pub polled : GrantContext → PollOutcome → Action (User × DeviceCodeGrant)
polled ctx DeviceCode.not_found =
    fail ctx none (reason ctx "Invalid device_code")
      (oauth_error "invalid_grant" "Invalid device code" 400)
polled ctx DeviceCode.wrong_client =
    stop (oauth_error "invalid_grant" "Device code was not issued to this client" 400)
polled ctx PollOutcome.expired = stop (oauth_error "expired_token" "Device code has expired" 400)
polled ctx DeviceCode.pending =
    stop (oauth_error "authorization_pending" "User has not yet authorized the device" 400)
polled ctx PollOutcome.denied =
    stop (oauth_error "access_denied" "User denied the authorization request" 400)
polled ctx DeviceCode.user_not_found = stop (oauth_error "server_error" "User not found" 500)
polled ctx DeviceCode.unknown_status =
    stop (oauth_error "server_error" "Unknown device code status" 500)
polled ctx (PollOutcome.authorized user grant) = pure (user, grant)

-- The poll of the device store, at the time of the request.
abbrev poll_device : GrantContext → String → Action (User × DeviceCodeGrant)
poll_device ctx device_code s =
    let (devices, result) =
      DeviceCode.poll (get_user ctx.config) ctx.request.transport.now device_code
        (some ctx.client_id) s.devices in
    polled ctx result (record s { devices = devices })

module _ (is_valid : String → Bool) (repr : String → String) where
  unfoldable pub grant_authorization_code : (String → String) → GrantContext → Action GrantOutcome
  grant_authorization_code s256 ctx = do
    require (is_text (field_or_blank ctx "code")) (
        fail ctx none (reason ctx "Missing authorization code")
          (oauth_error "invalid_request" "code is required" 400))
    require (is_text (field_or_blank ctx "redirect_uri")) (
        fail ctx none (reason ctx "Missing redirect_uri")
          (oauth_error "invalid_request" "redirect_uri is required" 400))
    code ← consume s256 ctx
    user ← found_user ctx code.username (get_user ctx.config code.username)
    let client = get_client ctx.config ctx.client_id
    scope ← check_grant_scope ctx (some code.username) client (some code.scope) true
    resource ← resolve_token_resource is_valid repr ctx client (some (or_nil code.resource))
    pure (record (outcome user code.username) {
      nonce = code.nonce;
      scope = scope;
      auth_time = some (code.created_at / second);
      id_token_claims = id_token_names code.claims;
      userinfo_claims = userinfo_names code.claims;
      resource = resource;
      refresh_resource = some_items (or_nil code.resource);
    })

  unfoldable pub grant_device_code : GrantContext → Action GrantOutcome
  grant_device_code ctx = do
    let device_code = field_or_blank ctx "device_code"
    require (is_text device_code) (
        fail ctx none (reason ctx "Missing device_code")
          (oauth_error "invalid_request" "device_code is required" 400))
    (user, grant) ← poll_device ctx device_code
    let client = get_client ctx.config ctx.client_id
    scope ← check_grant_scope ctx (some user.username) client (some grant.scope) true
    resource ← resolve_token_resource is_valid repr ctx client (some (or_nil grant.resource))
    pure (record (outcome user user.username) {
      scope = scope;
      auth_time = grant.auth_time;
      resource = resource;
      refresh_resource = some_items (or_nil grant.resource);
    })
