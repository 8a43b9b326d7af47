-- ===== src/Endpoints/Introspect.antt =====
-- src/nanoidp/routes/oauth.py: `POST /introspect` (RFC 7662).
use nanoidp.Prelude.{String, true, false, Option, none, some, [], ◌∷◌, ◌==◌, if◌then◌else◌, same}
use nanoidp.Dict.{Dict, get}
use nanoidp.Json.{Json, null, bool, str}
use nanoidp.Config.{ConfigManager}
use nanoidp.Revocation.{is_revoked}
use nanoidp.ClientAuth.{Request, form_get, request_client_identity, enforce_registered_client_auth}
use nanoidp.Grants.Monad.{IdpState}
use nanoidp.Endpoints.{
  Checked, signed, unsigned, Reply, refusal, json, text_claim, claim_or, text_or_null, record_event,
}
use nanoidp.Endpoints.Revoke.{mismatch_text, comes_public}

unfoldable pub introspect_auth_error : ConfigManager → Request → Option String
introspect_auth_error config r =
    let identity = request_client_identity r in
    if identity.mismatch
    then some mismatch_text
    else if comes_public config r
    then some "public clients cannot authenticate to the introspection endpoint (RFC 7662 §2.1)"
    else enforce_registered_client_auth config identity.client_id identity.auth
        identity.body_client_secret

abbrev pub inactive : Reply
inactive = json (("active", bool false) ∷ [])

-- The description of a token, with `client_id` the caller's for a token without the claim.
abbrev pub active_reply : Option String → Dict Json → Reply
active_reply client_id claims = json (
    ("active", bool true)
    ∷ ("token_type", str "Bearer")
    ∷ ("client_id", claim_or (text_or_null client_id) (get "client_id" claims))
    ∷ ("username", claim_or null (get "sub" claims))
    ∷ ("sub", claim_or null (get "sub" claims))
    ∷ ("aud", claim_or null (get "aud" claims))
    ∷ ("iss", claim_or null (get "iss" claims))
    ∷ ("exp", claim_or null (get "exp" claims))
    ∷ ("iat", claim_or null (get "iat" claims))
    ∷ ("nbf", claim_or null (get "nbf" claims))
    ∷ ("scope", claim_or (str "openid") (get "scope" claims))
    ∷ [])

abbrev introspection : Request → Option String → Dict Json → IdpState → IdpState
introspection r username details s =
    record_event r "introspection_request" "success" "/introspect" username
      (request_client_identity r).client_id details s

abbrev pub introspect_checked : Request → Checked → IdpState → IdpState × Reply
introspect_checked r (unsigned message) s = (
  introspection r none (("active", bool false) ∷ ("reason", str "Invalid or expired token") ∷ []) s,
  inactive,
)
introspect_checked r (signed claims) s =
    if same (text_claim (get "token_use" claims)) (some "id")
    then (
      introspection r none
          (("active", bool false) ∷ ("reason", str "ID Token is not introspectable") ∷ []) s,
      inactive,
    )
    else if is_revoked (text_claim (get "jti" claims)) s.revocations
    then (s, inactive)
    else (
      introspection r (text_claim (get "sub" claims)) (("active", bool true) ∷ []) s,
      active_reply (request_client_identity r).client_id claims,
    )

module _ (verify_jwt : String → Option String → Checked) (config : ConfigManager)
    (r : Request) where
  abbrev pub introspect_token : Option String → IdpState → IdpState × Reply
  introspect_token none s = (s, inactive)
  introspect_token (some token) s =
      if token == "" then (s, inactive) else introspect_checked r (verify_jwt token none) s

  abbrev pub introspect_as : Option String → IdpState → IdpState × Reply
  introspect_as none s = introspect_token (form_get "token" r.form) s
  introspect_as (some reason) s = (
    record_event r "introspection_request" "failed" "/introspect" none
        (request_client_identity r).client_id (("reason", str reason) ∷ []) s,
    refusal 401 "invalid_client" none,
  )

  unfoldable pub introspect : IdpState → IdpState × Reply
  introspect s = introspect_as (introspect_auth_error config r) s
