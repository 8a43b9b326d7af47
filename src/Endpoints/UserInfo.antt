-- ===== src/Endpoints/UserInfo.antt =====
-- src/nanoidp/routes/oauth.py: `/userinfo`, the claims about the user of an access token.
use nanoidp.Prelude.{
  String, Bool, not, ◌||◌, Option, none, some, List, [], ◌∷◌, ◌==◌, if◌then◌else◌, is_none,
  is_empty, same, split, elem, after_prefix,
}
use nanoidp.Dict.{Dict, get, put, put_if}
use nanoidp.Json.{Json, str, obj, fields}
use nanoidp.Models.{User}
use nanoidp.Config.{ConfigManager, get_user}
use nanoidp.Revocation.{is_revoked}
use nanoidp.ClientAuth.{Request}
use nanoidp.Token.{sanitize_claim_names, resolve_user_claim}
use nanoidp.Token.Mint.{items_of}
use nanoidp.Grants.Monad.{IdpState}
use nanoidp.Endpoints.{
  Checked, signed, unsigned, Reply, refusal, json, text_claim, text_or_null, record_event,
}

unfoldable pub extract_bearer_token : Request → Option String
extract_bearer_token r = after_prefix "Bearer " r.authorization_header

abbrev pub put_found : String → Option Json → Dict Json → Dict Json
put_found name none d = d
put_found name (some v) d = put name v d

-- _put
abbrev pub put_claim : User → String → Dict Json → Dict Json
put_claim user name d = put_found name (resolve_user_claim user name) d

abbrev pub put_claim_if : Bool → User → String → Dict Json → Dict Json
put_claim_if b user name d = if b then put_claim user name d else d

-- The loop over the requested claims.
unfoldable pub put_requested : User → List String → Dict Json → Dict Json
put_requested user [] d = d
put_requested user (name ∷ names) d =
    put_requested user names (put_claim_if (is_none (get name d)) user name d)

-- Whether the profile gates the standard claims by the granted scope.
abbrev pub is_strict : String → Bool
is_strict profile = elem profile ("stricter-dev" ∷ "oauth21" ∷ [])

-- What a scope lets through.
abbrev pub lets : Bool → List String → String → Bool
lets strict scopes scope = not strict || elem scope scopes

abbrev pub put_attributes : User → Dict Json → Dict Json
put_attributes user d =
    put_if (not (is_empty user.attributes)) "attributes" (obj (fields user.attributes)) d

-- The claims of the user at a scope, before the requested ones.
unfoldable pub scoped_claims : Bool → List String → User → Dict Json → Dict Json
scoped_claims strict scopes user d = put_attributes user (
    put_claim user "identity_class" (
      put_claim user "tenant" (
        put_claim user "groups" (
          put_claim user "roles" (
            put_claim_if (lets strict scopes "profile") user "preferred_username" (
              put_claim_if (lets strict scopes "email") user "email_verified"
                (put_claim_if (lets strict scopes "email") user "email" d)))))))

abbrev text_or_empty : Option String → String
text_or_empty none = ""
text_or_empty (some s) = s

abbrev pub granted_scopes : Dict Json → List String
granted_scopes claims = split (text_or_empty (text_claim (get "scope" claims)))

abbrev pub user_response : Bool → Dict Json → Option User → Dict Json → Dict Json
user_response strict claims none d = d
user_response strict claims (some user) d =
    put_requested user (items_of (sanitize_claim_names (get "req_userinfo_claims" claims)))
      (scoped_claims strict (granted_scopes claims) user d)

abbrev pub user_of : ConfigManager → Option String → Option User
user_of config none = none
user_of config (some username) = if username == "" then none else get_user config username

-- The body of a response.
unfoldable pub userinfo_claims : ConfigManager → Dict Json → Dict Json
userinfo_claims config claims =
    let username = text_claim (get "sub" claims) in
    user_response (is_strict config.settings.security_profile) claims (user_of config username)
      (("sub", text_or_null username) ∷ [])

-- token_use in ("id", "refresh")
abbrev pub is_marked : Dict Json → Bool
is_marked claims =
    same (text_claim (get "token_use" claims)) (some "id")
    || same (text_claim (get "token_use" claims)) (some "refresh")

abbrev unauthorized : String → Reply
unauthorized description = refusal 401 "invalid_token" (some description)

abbrev userinfo_failed : Request → Dict Json → IdpState → IdpState
userinfo_failed r details s =
    record_event r "userinfo_request" "failed" "/userinfo" none none details s

module _ (config : ConfigManager) (r : Request) where
  abbrev pub userinfo_checked : Checked → IdpState → IdpState × Reply
  userinfo_checked (unsigned message) s =
      (userinfo_failed r (("reason", str message) ∷ []) s, unauthorized "Token validation failed")
  userinfo_checked (signed claims) s =
      if is_marked claims
      then (
        userinfo_failed r
            (("reason", str "Not an access token")
              ∷ ("token_use", text_or_null (text_claim (get "token_use" claims)))
              ∷ [])
            s,
        unauthorized "An access token is required",
      )
      else if is_revoked (text_claim (get "jti" claims)) s.revocations
      then (s, unauthorized "Token has been revoked")
      else (
        record_event r "userinfo_request" "success" "/userinfo" (text_claim (get "sub" claims)) none
            [] s,
        json (userinfo_claims config claims),
      )

  module _ (verify_jwt : String → Option String → Checked) where
    abbrev pub userinfo_with : Option String → IdpState → IdpState × Reply
    userinfo_with none s = (s, unauthorized "Missing Bearer token")
    userinfo_with (some token) s =
        if token == ""
        then (s, unauthorized "Missing Bearer token")
        else userinfo_checked (verify_jwt token (some config.settings.audience)) s

    unfoldable pub userinfo : IdpState → IdpState × Reply
    userinfo s = userinfo_with (extract_bearer_token r) s
