-- ===== src/Grants/Direct.antt =====
-- src/nanoidp/routes/oauth_grants.py: the password and client_credentials grants, which rest on no
-- prior authorization.
use nanoidp.Prelude.{
  String, Bool, true, false, not, ◌&&◌, Option, none, some, [], ◌∷◌, ◌==◌, if◌then◌else◌, is_text,
  or_none, split, strip, join, keep,
}
use nanoidp.Models.{User, password_grant_enabled}
use nanoidp.Config.{get_user, get_client, authenticate}
use nanoidp.Response.{oauth_error}
use nanoidp.ClientAuth.{form_get}
use nanoidp.Grants.Monad.{Action, pure, require, ◌>>=◌, ◌>>◌}
use nanoidp.Grants.Defs.{
  GrantOutcome, outcome, GrantContext, field_or_blank, reason, fail, check_grant_scope,
  resolve_token_resource,
}

-- The user that the credentials name, or the answer to wrong ones.
abbrev logged_in : GrantContext → String → Option User → Action User
logged_in ctx username (some user) = pure user
logged_in ctx username none =
    fail ctx (some username) (reason ctx "Invalid credentials")
      (oauth_error "invalid_grant" "Invalid resource owner credentials" 400)

-- The user that stands in where no default user is configured.
abbrev pub service_account : User
service_account = record {
  username = "service-account";
  password = none;
  email = "";
  identity_class = none;
  entitlements = [];
  roles = "user" ∷ [];
  groups = [];
  tenant = "default";
  source_acl = [];
  attributes = [];
}

abbrev user_or_account : Option User → User
user_or_account none = service_account
user_or_account (some user) = user

-- `" ".join(t for t in scope.split() if t != "openid") or None`
unfoldable pub without_openid : String → Option String
without_openid scope = or_none (some (join " " (keep (λ t. not (t == "openid")) (split scope))))

-- What the client_credentials grant makes of the checked scope of a registered client.
abbrev drop_openid : Bool → Option String → Option String
drop_openid registered none = none
drop_openid registered (some scope) =
    if registered && is_text scope then without_openid scope else some scope

abbrev is_some : {A : Type 0} → Option A → Bool
is_some none = false
is_some (some a) = true

module _ (is_valid : String → Bool) (repr : String → String) where
  unfoldable pub grant_password :
      (String → String → Option Bool) → GrantContext → Action GrantOutcome
  grant_password checkpw ctx = do
    require (password_grant_enabled ctx.config.settings) (
        fail ctx none (reason ctx "password grant disabled by the oauth21 profile") (
          oauth_error "unsupported_grant_type"
            "The password grant is disabled by the oauth21 profile" 400))
    let username = strip (field_or_blank ctx "username")
    let password = field_or_blank ctx "password"
    require (is_text username && is_text password) (
        fail ctx none (reason ctx "Missing username or password") (
          oauth_error "invalid_request" "username and password are required for the password grant"
            400))
    user ← logged_in ctx username (authenticate checkpw ctx.config username password)
    let client = get_client ctx.config ctx.client_id
    scope ← check_grant_scope ctx (some username) client (form_get "scope" ctx.request.form) false
    resource ← resolve_token_resource is_valid repr ctx client none
    pure (record (outcome user username) {
      nonce = or_none (form_get "nonce" ctx.request.form);
      scope = scope;
      resource = resource;
    })

  unfoldable pub grant_client_credentials : GrantContext → Action GrantOutcome
  grant_client_credentials ctx = do
    let client = get_client ctx.config ctx.client_id
    scope ← check_grant_scope ctx none client (form_get "scope" ctx.request.form) false
    let user = user_or_account (get_user ctx.config ctx.config.default_user)
    resource ← resolve_token_resource is_valid repr ctx client none
    pure (record (outcome user user.username) {
      scope = drop_openid (is_some client) scope;
      issue_refresh_token = false;
      resource = resource;
    })
