-- ===== src/Token/Mint.antt =====
-- src/nanoidp/services/token.py and services/crypto.py: the claims of the tokens that
-- `create_token` mints. Signing is an argument, from the claims to the token's text, or `none` where
-- it raises, and so are the random identifiers that the call draws, `_compute_at_hash`, `str.upper` and `str` of a value. Times
-- are in microseconds.
use nanoidp.Prelude.{
  ℕ, ◌+◌, ◌*◌, ◌/◌, String, Bool, true, false, not, ◌&&◌, Option, none, some, List, [], ◌∷◌,
  if◌then◌else◌, is_none, is_given, is_text, is_empty, or_else, elem, split,
}
use nanoidp.Dict.{Dict, put, put_if, put_new, put_text, update, remove_all}
use nanoidp.Json.{Json, num, str, arr, obj, texts, fields}
use nanoidp.Models.{User}
use nanoidp.Config.{ConfigManager}
use nanoidp.Revocation.{second}
use nanoidp.Token.{
  authoritative_claims, sanitize_claim_names, resolve_user_claim, build_authorities,
  resolve_id_token_audience,
}

-- The `aud` of a list of audiences: a plain text for one.
abbrev pub audience_json : List String → Json
audience_json [] = arr (texts [])
audience_json (x ∷ []) = str x
audience_json (x ∷ y ∷ zs) = arr (texts (x ∷ y ∷ zs))

-- The arguments of `create_jwt`.
pub record JwtRequest : Type 0 where
  pub jti : String
  pub sub : String
  pub issuer : String
  pub audience : Json
  pub roles : List String
  pub tenant : String
  pub extra : Dict Json
  pub exp_minutes : ℕ
  pub nonce : Option String

-- The claims that stand in every token.
abbrev pub always_claims : ℕ → JwtRequest → Dict Json
always_claims now r =
    ("jti", str r.jti)
    ∷ ("iss", str r.issuer)
    ∷ ("sub", str r.sub)
    ∷ ("aud", r.audience)
    ∷ ("iat", num (now / second))
    ∷ ("nbf", num (now / second))
    ∷ ("exp", num ((now + r.exp_minutes * (60 * second)) / second))
    ∷ []

unfoldable pub registered_claims : ℕ → JwtRequest → Dict Json
registered_claims now r =
    put_if (is_text r.tenant) "tenant" (str r.tenant)
      (put_if (not (is_empty r.roles)) "roles" (arr (texts r.roles)) (always_claims now r))

abbrev pub put_nonce : Option String → Dict Json → Dict Json
put_nonce none d = d
put_nonce (some nonce) d = put "nonce" (str nonce) d

-- The claims that `create_jwt` signs at the time `now`.
unfoldable pub create_jwt : ℕ → JwtRequest → Dict Json
create_jwt now r = put_nonce r.nonce (update (registered_claims now r) r.extra)

-- The arguments of `create_token`; a missing `extra_claims` is the empty dict.
pub record TokenRequest : Type 0 where
  pub user : User
  pub exp_minutes : Option ℕ
  pub extra_claims : Dict Json
  pub nonce : Option String
  pub scope : Option String
  pub client_id : Option String
  pub auth_time : Option ℕ
  pub refresh_family : Option String
  pub id_token_claims : Option Json
  pub userinfo_claims : Option Json
  pub issuer : Option String
  pub issue_refresh_token : Option Bool
  pub resource : Option (List String)
  pub refresh_resource : Option (List String)

-- The fresh identifiers of a call.
pub record Draws : Type 0 where
  pub access_jti : String
  pub id_jti : String
  pub refresh_jti : String
  pub family : String

-- The response.
pub record Minted : Type 0 where
  pub access_token : String
  pub expires_in : ℕ
  pub refresh_token : Option String
  pub scope : Option String
  pub id_token : Option String

abbrev pub put_names : String → Option (List String) → Dict Json → Dict Json
put_names k none d = d
put_names k (some names) d = put k (arr (texts names)) d

abbrev pub put_number : String → Option ℕ → Dict Json → Dict Json
put_number k none d = d
put_number k (some n) d = put k (num n) d

-- `if xs: d[k] = xs`
abbrev pub put_list : String → List String → Dict Json → Dict Json
put_list k xs d = put_if (not (is_empty xs)) k (arr (texts xs)) d

-- `o or default` on texts
abbrev pub or_text : Option String → String → String
or_text none default = default
or_text (some s) default = if is_text s then s else default

abbrev pub items_of : Option (List String) → List String
items_of none = []
items_of (some xs) = xs

-- The claims of a user, before the merge of the caller's.
abbrev pub user_claims : List String → User → Dict Json
user_claims authorities user = put_list "authorities" authorities (
    put_if (not (is_empty user.attributes)) "attributes" (obj (fields user.attributes)) (
      put_list "source_acl" user.source_acl (
        put_list "groups" user.groups (
          put_list "entitlements" user.entitlements
            (put_text "identity_class" user.identity_class [])))))

-- The `extra` of the access token.
unfoldable pub access_extra : List String → TokenRequest → Dict Json
access_extra authorities r = put "token_use" (str "access") (
    put_text "client_id" r.client_id (
      put_names "req_userinfo_claims" (sanitize_claim_names r.userinfo_claims) (
        put_text "scope" r.scope (
          remove_all authoritative_claims
            (update (user_claims authorities r.user) r.extra_claims)))))

-- `scope and "openid" in scope.split()`
abbrev pub asks_openid : Option String → Bool
asks_openid none = false
asks_openid (some scope) = is_text scope && elem "openid" (split scope)

abbrev pub effective_auth_time : ℕ → TokenRequest → Option ℕ
effective_auth_time now r =
    if asks_openid r.scope then some (or_else r.auth_time (now / second)) else none

-- if found: d.setdefault(name, value)
abbrev pub offer : String → Option Json → Dict Json → Dict Json
offer name none d = d
offer name (some value) d = put_new name value d

-- The loop over the claims that the client asked for in the ID Token.
unfoldable pub offer_all : User → List String → Dict Json → Dict Json
offer_all user [] d = d
offer_all user (name ∷ names) d = offer_all user names (offer name (resolve_user_claim user name) d)

-- The `extra` of the refresh token; `family` is drawn.
unfoldable pub refresh_extra : ℕ → String → TokenRequest → Dict Json
refresh_extra now family r = put "rt_family" (str (or_text r.refresh_family family)) (
    put_list "resource"
      (items_of (if is_none r.refresh_resource then r.resource else r.refresh_resource))
      (put_names "req_userinfo_claims" (sanitize_claim_names r.userinfo_claims) (
        put_names "req_id_token_claims" (sanitize_claim_names r.id_token_claims) (
          put_text "client_id" r.client_id (
            put_number "auth_time" (effective_auth_time now r) (
              put_text "scope" r.scope
                (("token_type", str "refresh") ∷ ("token_use", str "refresh") ∷ [])))))))

-- Whether a refresh token is asked for without a client to bind it to.
abbrev pub asks_unbound : TokenRequest → Bool
asks_unbound r = or_else r.issue_refresh_token false && not (is_given r.client_id)

abbrev pub issues_refresh : TokenRequest → Bool
issues_refresh r = or_else r.issue_refresh_token (not (is_none r.client_id))

-- resource[0] for one, the list for several, and settings.audience for none
abbrev pub access_audience : String → Option (List String) → Json
access_audience audience none = str audience
access_audience audience (some []) = str audience
access_audience audience (some (x ∷ xs)) = audience_json (x ∷ xs)

-- A token that is signed where it is asked for; `none` where its signing raises.
abbrev pub signed_if : Bool → Option String → Option (Option String)
signed_if false token = some none
signed_if true none = none
signed_if true (some token) = some (some token)

module _ (upper : String → String) (show : Json → String) (config : ConfigManager) where
  abbrev pub minutes : TokenRequest → ℕ
  minutes r = or_else r.exp_minutes config.settings.token_expiry_minutes

  abbrev pub issuer_of : TokenRequest → String
  issuer_of r = or_text r.issuer config.settings.issuer

  unfoldable pub access_claims : ℕ → Draws → TokenRequest → Dict Json
  access_claims now draws r = create_jwt now (record {
    jti = draws.access_jti;
    sub = r.user.username;
    issuer = issuer_of r;
    audience = access_audience config.settings.audience r.resource;
    roles = r.user.roles;
    tenant = r.user.tenant;
    extra = access_extra (build_authorities upper show config.settings.authority_prefixes r.user) r;
    exp_minutes = minutes r;
    nonce = none;
  })

  unfoldable pub id_extra : ℕ → String → TokenRequest → Dict Json
  id_extra now at_hash r = offer_all r.user (items_of (sanitize_claim_names r.id_token_claims)) (
      put_text "azp" (resolve_id_token_audience config r.client_id).1 (
        ("token_use", str "id")
        ∷ ("auth_time", num (or_else r.auth_time (now / second)))
        ∷ ("at_hash", str at_hash)
        ∷ []))

  unfoldable pub id_claims : ℕ → Draws → String → TokenRequest → Dict Json
  id_claims now draws at_hash r = create_jwt now (record {
    jti = draws.id_jti;
    sub = r.user.username;
    issuer = issuer_of r;
    audience = audience_json (resolve_id_token_audience config r.client_id).0;
    roles = [];
    tenant = "";
    extra = id_extra now at_hash r;
    exp_minutes = minutes r;
    nonce = r.nonce;
  })

  -- The call for the refresh token, valid for seven days.
  abbrev pub refresh_jwt : ℕ → Draws → TokenRequest → JwtRequest
  refresh_jwt now draws r = record {
    jti = draws.refresh_jti;
    sub = r.user.username;
    issuer = issuer_of r;
    audience = str config.settings.audience;
    roles = r.user.roles;
    tenant = r.user.tenant;
    extra = refresh_extra now draws.family r;
    exp_minutes = 7 * 24 * 60;
    nonce = none;
  }

  unfoldable pub refresh_claims : ℕ → Draws → TokenRequest → Dict Json
  refresh_claims now draws r = create_jwt now (refresh_jwt now draws r)

  module _ (sign : Dict Json → Option String) (at_hash : String → String) where
    -- The response, once every token is signed.
    abbrev pub minted :
        TokenRequest → String → Option String → Option (Option String) → Option Minted
    minted r access id none = none
    minted r access id (some refresh) = some (record {
      access_token = access;
      expires_in = minutes r * 60;
      refresh_token = refresh;
      scope = if is_given r.scope then r.scope else none;
      id_token = id;
    })

    abbrev pub sign_refresh :
        ℕ → Draws → TokenRequest → String → Option (Option String) → Option Minted
    sign_refresh now draws r access none = none
    sign_refresh now draws r access (some id) =
        minted r access id (signed_if (issues_refresh r) (sign (refresh_claims now draws r)))

    abbrev pub sign_id : ℕ → Draws → TokenRequest → Option String → Option Minted
    sign_id now draws r none = none
    sign_id now draws r (some access) =
        sign_refresh now draws r access
          (signed_if (asks_openid r.scope) (sign (id_claims now draws (at_hash access) r)))

    -- `none` where the call raises: ValueError for a refresh token with no client to bind it to, and
    -- whatever the signing raises.
    unfoldable pub create_token : ℕ → Draws → TokenRequest → Option Minted
    create_token now draws r =
        if asks_unbound r then none else sign_id now draws r (sign (access_claims now draws r))
