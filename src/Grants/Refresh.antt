-- ===== src/Grants/Refresh.antt =====
-- src/nanoidp/routes/oauth_grants.py: the refresh_token grant.
use Prim.Native.String
use nanoidp.Prelude.{
  String, Bool, true, false, not, ◌||◌, Option, none, some, List, [], ◌∷◌, ◌++◌, ◌==◌,
  if◌then◌else◌, is_given, is_text, is_empty, or_none, same, split, elem, keep,
}
use nanoidp.Json.{str, arr, texts}
use nanoidp.Models.{User, OAuthClient, is_public, rotation_enabled}
use nanoidp.Config.{get_user, get_client}
use nanoidp.Revocation.{check_and_claim_refresh}
use nanoidp.Response.{oauth_error}
use nanoidp.ClientAuth.{form_get}
use nanoidp.Grants.Monad.{Action, next, pure, stop, require, ◌>>=◌, ◌>>◌}
use nanoidp.Grants.Defs.{
  GrantOutcome, outcome, GrantContext, Payload, Verified, payload, invalid, field_or_blank, or_nil,
  some_items, reason, fail, check_grant_scope, resolve_token_resource,
}

abbrev pub text_or_blank : Option String → String
text_or_blank none = ""
text_or_blank (some s) = s

-- The token's payload, or the answer to a token that does not verify.
abbrev pub verified : GrantContext → Verified → Action Payload
verified ctx (payload p) = pure p
verified ctx (invalid message) =
    fail ctx none (reason ctx (String.◌++◌ "Invalid refresh token: " message)) (
      oauth_error "invalid_grant"
        "Refresh token is invalid: bad signature, expired, or not acceptable under the nanoidp token profile"
        400)

abbrev pub found_user : GrantContext → String → Option User → Action User
found_user ctx username (some user) = pure user
found_user ctx username none =
    fail ctx (some username) (reason ctx "User not found")
      (oauth_error "invalid_grant" "The user this grant was issued for no longer exists" 400)

-- The requested scopes that the original grant does not hold.
abbrev pub exceeding : String → String → List String
exceeding original requested = keep (λ t. not (elem t (split original))) (split requested)

-- The scope of the refreshed token: the request may narrow the original scope, never broaden it.
abbrev pub narrow_scope : GrantContext → String → String → Option String → Action (Option String)
narrow_scope ctx username original none = pure (or_none (some original))
narrow_scope ctx username original (some requested) =
    let rejected = exceeding original requested in
    if requested == ""
    then pure (or_none (some original))
    else if is_empty rejected
    then pure (some requested)
    else fail ctx (some username)
        (reason ctx "Requested scope exceeds originally granted scope"
          ++ ("rejected_scopes", arr (texts rejected)) ∷ [])
        (oauth_error "invalid_scope" "Requested scope exceeds originally granted scope" 400)

abbrev is_public_client : Option OAuthClient → Bool
is_public_client none = false
is_public_client (some client) = is_public client

-- Rotation by the settings or the profile, and always for a public client.
abbrev pub rotates : GrantContext → Bool
rotates ctx =
    rotation_enabled ctx.config.settings || is_public_client (get_client ctx.config ctx.client_id)

-- The check and claim on the revocation store, at the time of the request.
abbrev pub claim_refresh : GrantContext → Payload → Action Bool
claim_refresh ctx p s =
    let (store, reused) =
      check_and_claim_refresh ctx.request.transport.now p.jti p.rt_family (rotates ctx) p.exp
        s.revocations in
    (record s { revocations = store }, next reused)

-- A token with the user and the scope that it is good for.
pub record Holder : Type 0 where
  pub token : Payload
  pub user : User
  pub scope : Option String

module _ (is_valid : String → Bool) (repr : String → String)
    (verify_jwt : String → String → Verified) where
  -- The token of the request: verified, a refresh token, and bound to the requesting client.
  unfoldable pub presented_token : GrantContext → Action Payload
  presented_token ctx = do
    let refresh_token = field_or_blank ctx "refresh_token"
    require (is_text refresh_token) (
        fail ctx none (reason ctx "Missing refresh_token")
          (oauth_error "invalid_request" "refresh_token is required" 400))
    p ← verified ctx (verify_jwt refresh_token ctx.config.settings.audience)
    require (same p.token_type (some "refresh")) (
        fail ctx none (reason ctx "Not a refresh token")
          (oauth_error "invalid_grant" "The presented token is not a refresh token" 400))
    require (is_given p.client_id) (
        fail ctx none (reason ctx "Refresh token has no client_id binding claim") (
          oauth_error "invalid_grant"
            "This refresh token predates client binding and is no longer accepted; obtain a new one"
            400))
    require (same p.client_id (some ctx.client_id)) (
        fail ctx none
          (reason ctx "Refresh token was issued to a different client"
            ++ ("bound_client", str (text_or_blank p.client_id)) ∷ [])
          (oauth_error "invalid_grant" "Refresh token was not issued to this client" 400))
    pure p

  -- The user and the scope that the token stands for at this client.
  unfoldable pub holder_of : GrantContext → Payload → Action Holder
  holder_of ctx p = do
    let username = text_or_blank p.sub
    require (is_text username)
        (stop (oauth_error "invalid_grant" "Refresh token carries no subject" 400))
    user ← found_user ctx username (get_user ctx.config username)
    narrowed ← narrow_scope ctx username (text_or_blank p.scope) (form_get "scope" ctx.request.form)
    scope ←
        check_grant_scope ctx (some username) (get_client ctx.config ctx.client_id) narrowed true
    pure (record { token = p; user = user; scope = scope })

  -- The validations before the claim; that of the resource indicators follows it.
  unfoldable pub validate_refresh : GrantContext → Action Holder
  unfolding presented_token holder_of
  validate_refresh ctx = do p ← presented_token ctx; holder_of ctx p

  -- What follows the validations: the claim, then the resource indicators.
  unfoldable pub finish_refresh : GrantContext → Holder → Action GrantOutcome
  finish_refresh ctx v = do
    let p = v.token
    let username = text_or_blank p.sub
    reused ← claim_refresh ctx p
    require (not reused) (
        fail ctx (some username)
          (reason ctx "Refresh token revoked (rotated, reused, or family revoked)")
          (oauth_error "invalid_grant" "Refresh token has been revoked" 400))
    resource ←
        resolve_token_resource is_valid repr ctx (get_client ctx.config ctx.client_id)
          (some (or_nil p.resource))
    pure (record (outcome v.user username) {
      scope = v.scope;
      auth_time = p.auth_time;
      refresh_family = p.rt_family;
      id_token_claims = p.req_id_token_claims;
      userinfo_claims = p.req_userinfo_claims;
      resource = resource;
      refresh_resource = some_items (or_nil p.resource);
    })

  unfoldable pub grant_refresh_token : GrantContext → Action GrantOutcome
  grant_refresh_token ctx = do v ← validate_refresh ctx; finish_refresh ctx v
