-- ===== src/Endpoints/Revoke.antt =====
-- src/nanoidp/routes/oauth.py: `POST /revoke` (RFC 7009).
use nanoidp.Prelude.{
  ℕ, String, Bool, true, not, ◌&&◌, Option, none, some, [], ◌∷◌, ◌==◌, if◌then◌else◌, same,
}
use nanoidp.Dict.{Dict, get}
use nanoidp.Json.{Json, bool, str}
use nanoidp.Config.{ConfigManager}
use nanoidp.Revocation
use nanoidp.ClientAuth.{Request, form_get, request_client_identity, enforce_registered_client_auth}
use nanoidp.Grants.Monad.{IdpState}
use nanoidp.Endpoints.{
  Checked, signed, unsigned, Reply, refusal, blank, text_claim, expiry_claim, found_client,
  is_public_found, record_event,
}

abbrev pub mismatch_text : String
mismatch_text = "client_id in request body does not match Basic username"

-- Whether the request is a public client's.
abbrev pub comes_public : ConfigManager → Request → Bool
comes_public config r = is_public_found (found_client config (request_client_identity r).client_id)

unfoldable pub revoke_auth_error : ConfigManager → Request → Option String
revoke_auth_error config r =
    let identity = request_client_identity r in
    if identity.mismatch
    then some mismatch_text
    else if comes_public config r
    then none
    else enforce_registered_client_auth config identity.client_id identity.auth
        identity.body_client_secret

-- The revocation of a token id, where there is one.
abbrev pub revoke_id :
    (String → Option ℕ) → Request → Dict Json → Option String → IdpState → IdpState × Reply
revoke_id to_float r claims none s = (s, blank)
revoke_id to_float r claims (some jti) s = if jti == "" then (s, blank) else (
  record_event r "revocation_request" "success" "/revoke" (text_claim (get "sub" claims))
      (request_client_identity r).client_id (("revoked", bool true) ∷ [])
      (record s {
        revocations =
            Revocation.revoke r.transport.now jti (expiry_claim to_float (get "exp" claims))
              s.revocations;
      }),
  blank,
)

-- Whether a public client presents a token that is not its own.
abbrev pub is_foreign : ConfigManager → Request → Dict Json → Bool
is_foreign config r claims =
    comes_public config r
    && not (same (text_claim (get "client_id" claims)) (request_client_identity r).client_id)

abbrev pub revoke_checked :
    (String → Option ℕ) → ConfigManager → Request → Checked → IdpState → IdpState × Reply
revoke_checked to_float config r (unsigned message) s = (s, blank)
revoke_checked to_float config r (signed claims) s =
    if is_foreign config r claims
    then (
      record_event r "revocation_request" "failed" "/revoke" none
          (request_client_identity r).client_id
          (("reason", str "Public client presented a token it does not own") ∷ []) s,
      blank,
    )
    else revoke_id to_float r claims (text_claim (get "jti" claims)) s

module _ (to_float : String → Option ℕ) (verify_jwt : String → Option String → Checked)
    (config : ConfigManager) (r : Request) where
  abbrev pub revoke_token : Option String → IdpState → IdpState × Reply
  revoke_token none s = (s, blank)
  revoke_token (some token) s =
      if token == "" then (s, blank) else revoke_checked to_float config r (verify_jwt token none) s

  abbrev pub revoke_as : Option String → IdpState → IdpState × Reply
  revoke_as none s = revoke_token (form_get "token" r.form) s
  revoke_as (some reason) s = (
    record_event r "revocation_request" "failed" "/revoke" none
        (request_client_identity r).client_id (("reason", str reason) ∷ []) s,
    refusal 401 "invalid_client" none,
  )

  unfoldable pub revoke : IdpState → IdpState × Reply
  revoke s = revoke_as (revoke_auth_error config r) s
