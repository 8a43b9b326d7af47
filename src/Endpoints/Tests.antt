-- ===== src/Endpoints/Tests.antt =====
-- A token that is presented, and revoked.
use nanoidp.Prelude.{ℕ, String, ◌≡◌, refl, true, false, Option, none, some, [], ◌∷◌, elem, split}
use nanoidp.Dict.{Dict, get, put, put_if}
use nanoidp.Json.{Json, str, num}
use nanoidp.Config.{get_client, check_client, get_user}
use nanoidp.Samples.{sample_config}
use nanoidp.AuthCode
use nanoidp.DeviceCode
use nanoidp.Revocation
use nanoidp.Revocation.{is_revoked}
use nanoidp.AuditLog.{new_log}
use nanoidp.ClientAuth.{Request, request_client_identity, enforce_registered_client_auth}
use nanoidp.Token.{sanitize_claim_names, resolve_user_claim}
use nanoidp.Grants.Monad.{IdpState}
use nanoidp.Endpoints.{Checked, signed, text_claim}
use nanoidp.Endpoints.Revoke.{revoke, revoke_auth_error, is_foreign}
use nanoidp.Endpoints.Introspect.{introspect, introspect_auth_error}
use nanoidp.Endpoints.UserInfo.{
  userinfo, extract_bearer_token, userinfo_claims, granted_scopes, put_requested, scoped_claims,
}
use nanoidp.Endpoints.Laws.{
  Effect, revoke-Effect, IsAnswered, introspect_active, is_active, revoke_deactivates,
}
use nanoidp.Endpoints.Privacy.{
  userinfo_claims_gated, requested_names, IsServed, userinfo-IsServed, is_json,
}

abbrev claims : Dict Json
claims =
    ("jti", str "t1")
    ∷ ("token_use", str "access")
    ∷ ("sub", str "alice")
    ∷ ("client_id", str "web")
    ∷ ("exp", num 9)
    ∷ ("scope", str "openid")
    ∷ []

abbrev verifies : String → Option String → Checked
verifies token audience = signed claims

-- No text is a number.
abbrev to_float : String → Option ℕ
to_float text = none

abbrev presenting : Request
presenting = record {
  transport = record { now = 10; method = "POST"; remote_addr = none; user_agent = none };
  form = ("client_id", "web") ∷ ("client_secret", "s3") ∷ ("token", "jwt") ∷ [];
  authorization = none;
  authorization_header = "Bearer jwt";
}

abbrev fresh : IdpState
fresh = record {
  codes = AuthCode.empty;
  devices = DeviceCode.empty;
  revocations = Revocation.empty;
  audit = new_log 10;
}

revoke-Effect_example :
    Effect sample_config presenting to_float verifies fresh
      (revoke to_float verifies sample_config presenting fresh).0.revocations
revoke-Effect_example = revoke-Effect sample_config presenting to_float verifies fresh

active : is_active (introspect verifies sample_config presenting fresh).1 ≡ true
unfolding introspect introspect_auth_error request_client_identity enforce_registered_client_auth
    check_client get_client is_revoked get
active = refl

introspect_active_example : IsAnswered sample_config presenting verifies fresh
introspect_active_example = introspect_active sample_config presenting verifies fresh active

authenticated : revoke_auth_error sample_config presenting ≡ none
unfolding revoke_auth_error request_client_identity enforce_registered_client_auth check_client
    get_client
authenticated = refl

own : is_foreign sample_config presenting claims ≡ false
unfolding request_client_identity get_client get
own = refl

named : text_claim (get "jti" claims) ≡ some "t1"
unfolding get
named = refl

revoke_deactivates_example :
    is_active
      (introspect verifies sample_config presenting
        (revoke to_float verifies sample_config presenting fresh).0).1
    ≡ false
revoke_deactivates_example =
    revoke_deactivates to_float verifies sample_config presenting presenting fresh "jwt" "t1" "jwt"
      claims claims authenticated refl (λ e. cc) refl own named (λ e. cc) refl refl named

userinfo_claims_gated_example :
    (elem "email" (granted_scopes claims) ≡ false
      → elem "email" (requested_names claims) ≡ false
      → get "email" (userinfo_claims sample_config claims) ≡ none)
    × (elem "email" (granted_scopes claims) ≡ false
        → elem "email_verified" (requested_names claims) ≡ false
        → get "email_verified" (userinfo_claims sample_config claims) ≡ none)
    × (elem "profile" (granted_scopes claims) ≡ false
        → elem "preferred_username" (requested_names claims) ≡ false
        → get "preferred_username" (userinfo_claims sample_config claims) ≡ none)
userinfo_claims_gated_example = userinfo_claims_gated sample_config claims refl

answered : is_json (userinfo sample_config presenting verifies fresh).1 ≡ true
unfolding userinfo extract_bearer_token is_revoked get
answered = refl

userinfo-IsServed_example : IsServed verifies sample_config presenting fresh
userinfo-IsServed_example = userinfo-IsServed verifies sample_config presenting fresh answered

-- The user's claims, where nothing is asked for and the email is not granted.
told : get "email" (userinfo_claims sample_config claims) ≡ none
unfolding userinfo_claims put_requested scoped_claims get put put_if sanitize_claim_names
    resolve_user_claim get_user split
told = refl
