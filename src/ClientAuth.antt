-- ===== src/ClientAuth.antt =====
-- src/nanoidp/routes/oauth.py: which client a request names, and how the client must prove it. What
-- werkzeug parses of the request (`authorization`, the form) is part of the request's value.
pub mod Laws
mod Tests
use Prim.Native.Char.{code}
use Prim.Native.String
use nanoidp.Prelude.{
  ℕ, ◌+◌, String, Bool, true, false, not, ◌&&◌, ◌||◌, Option, none, some, List, [], ◌∷◌, ◌==◌, leb,
  if◌then◌else◌, is_none, is_given, is_text, or_none, same, split,
}
use nanoidp.Models.{
  OAuthClient, AuthMethod, client_secret_basic, client_secret_post, public_client, is_public,
}
use nanoidp.Config.{ConfigManager, get_client, check_client}
use nanoidp.AuditLog.{Transport}

-- The parsed Authorization header: for a scheme without user names both are None.
pub record Authorization : Type 0 where
  pub username : Option String
  pub password : Option String

pub record Request : Type 0 where
  pub transport : Transport
  pub form : List (String × String)
  pub authorization : Option Authorization
  -- the raw header, "" where there is none
  pub authorization_header : String

-- request.form.get(key)
abbrev pub form_get : String → List (String × String) → Option String
form_get key [] = none
form_get key ((k, v) ∷ form) = if k == key then some v else form_get key form

-- request.form.getlist(key)
abbrev pub form_getlist : String → List (String × String) → List String
form_getlist key [] = []
form_getlist key ((k, v) ∷ form) =
    let rest = form_getlist key form in if k == key then v ∷ rest else rest

-- `casefold` on the latin-1 characters that an ASCII word can be equal to.
abbrev lower : ℕ → ℕ
lower c = if leb 65 c && leb c 90 then c + 32 else c

abbrev lower_is : String → List ℕ → Bool
lower_is String.[] [] = true
lower_is String.[] (k ∷ ks) = false
lower_is (String.◌∷◌ c s) [] = false
lower_is (String.◌∷◌ c s) (k ∷ ks) =
    (leb (lower (code c)) k && leb k (lower (code c))) && lower_is s ks

abbrev first_is_basic : List String → Bool
first_is_basic [] = false
first_is_basic (scheme ∷ words) = lower_is scheme (b'b' ∷ b'a' ∷ b's' ∷ b'i' ∷ b'c' ∷ [])

unfoldable pub basic_attempted : Request → Bool
basic_attempted r = first_is_basic (split r.authorization_header)

pub record ClientIdentity : Type 0 where
  pub auth : Option Authorization
  pub client_id : Option String
  pub body_client_secret : Option String
  pub mismatch : Bool

-- `auth.username if auth else None`
abbrev pub auth_username : Option Authorization → Option String
auth_username none = none
auth_username (some a) = a.username

unfoldable pub request_client_identity : Request → ClientIdentity
request_client_identity r =
    let body_client_id = form_get "client_id" r.form in
    record {
      auth = r.authorization;
      client_id = if is_given body_client_id then body_client_id else auth_username r.authorization;
      body_client_secret = or_none (form_get "client_secret" r.form);
      mismatch =
          not (is_none r.authorization)
          && (is_given body_client_id && not (same (auth_username r.authorization) body_client_id));
    }

abbrev found_client : ConfigManager → Option String → Option OAuthClient
found_client config none = none
found_client config (some client_id) = if client_id == "" then none else get_client config client_id

abbrev method_of : Option OAuthClient → AuthMethod
method_of none = client_secret_basic
method_of (some client) = client.token_endpoint_auth_method

abbrev pub invalid_credentials_text : String
invalid_credentials_text = "Invalid client credentials"

abbrev pub post_only_text : String
post_only_text =
    "This client's token_endpoint_auth_method is 'client_secret_post'; use client_id and client_secret in the request body, not HTTP Basic"

abbrev pub basic_only_text : String
basic_only_text =
    "This client authenticates with HTTP Basic; a client_secret in the request body is not accepted, and must not be combined with HTTP Basic (RFC 6749 §2.3)"

abbrev enforce_post :
    ConfigManager → Option String → Option Authorization → Option String → Option String
enforce_post config client_id (some auth) secret = some post_only_text
enforce_post config client_id none secret =
    if is_given secret && check_client config client_id secret
    then none
    else some invalid_credentials_text

abbrev enforce_basic : ConfigManager → Option Authorization → Option String → Option String
enforce_basic config auth (some secret) = some basic_only_text
enforce_basic config none none = some "Client authentication required"
enforce_basic config (some auth) none =
    if check_client config auth.username auth.password then none else some invalid_credentials_text

abbrev enforce_method :
    AuthMethod
    → ConfigManager
    → Option String
    → Option Authorization
    → Option String
    → Option String
enforce_method client_secret_post config client_id auth secret =
    enforce_post config client_id auth secret
enforce_method client_secret_basic config client_id auth secret = enforce_basic config auth secret
enforce_method public_client config client_id auth secret = enforce_basic config auth secret

-- None where the request may proceed, and else the reason of the failure.
unfoldable pub enforce_registered_client_auth :
    ConfigManager → Option String → Option Authorization → Option String → Option String
enforce_registered_client_auth config client_id auth secret =
    enforce_method (method_of (found_client config client_id)) config client_id auth secret

-- What `_enforce_token_endpoint_auth` decides, before it records and answers it.
pub data TokenAuth : Type 0 where
  proceed public_client_credentials : TokenAuth
  failed : String → TokenAuth

abbrev reason_to : Option String → TokenAuth
reason_to none = proceed
reason_to (some reason) = failed reason

abbrev is_public_found : Option OAuthClient → Bool
is_public_found none = false
is_public_found (some client) = is_public client

unfoldable pub enforce_token_endpoint_auth :
    ConfigManager → String → Option Authorization → String → Option String → TokenAuth
unfolding enforce_registered_client_auth
enforce_token_endpoint_auth config grant_type auth client_id secret =
    if is_public_found (get_client config client_id)
    then (if grant_type == "client_credentials" then public_client_credentials else proceed)
    else reason_to (enforce_registered_client_auth config (some client_id) auth secret)
