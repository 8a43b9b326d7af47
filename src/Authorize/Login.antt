-- ===== src/Authorize/Login.antt =====
-- src/nanoidp/routes/oauth.py: the login leg of `/authorize`, and the code that it issues; and
-- `two_step_phase` (routes/_auth.py).
use Prim.Native.String
use nanoidp.Prelude.{
  String, Bool, true, false, not, ◌&&◌, ◌||◌, Option, none, some, List, [], ◌∷◌, ◌==◌, is_text,
  is_none, strip, after_prefix, if◌then◌else◌,
}
use nanoidp.Dict.{get}
use nanoidp.Json.{Json, null, bool, num, str, arr, obj, Fields, end, field}
use nanoidp.Models.{User, persona_mode_enabled, auto_login_enabled, two_step_login_active}
use nanoidp.Config.{ConfigManager, interactive_authenticate}
use nanoidp.AuthCode.{ClaimsRequest, CodeRequest, create_code}
use nanoidp.ClientAuth.{form_get}
use nanoidp.RedirectUri.{ParsedUrl}
use nanoidp.TokenEndpoint.{entries}
use nanoidp.Authorize.{
  AuthorizeRequest, AuthorizeParams, redirect, login_page, cleared, WebState, Flow,
  read_authorize_params, stored, pass, answer_with, note, ◌>>=◌, ◌>>◌,
}
use nanoidp.Authorize.Validate.{
  state_and_issuer, authorize_error_redirect, validate, audit_suspicious_authorize_post,
}

-- TwoStepPhase
pub data TwoStepPhase : Type 0 where
  attempt username_required password_required username_step : TwoStepPhase

unfoldable pub two_step_phase : Bool → String → String → Bool → Bool → TwoStepPhase
two_step_phase two_step_active username password password_submitted username_submitted =
    if not two_step_active
    then attempt
    else if username_submitted && not (is_text username)
    then username_required
    else if is_text password
    then attempt
    else if password_submitted
    then password_required
    else username_step

abbrev names_of : Fields → List String
names_of end = []
names_of (field k v rest) = k ∷ names_of rest

abbrev some_names : List String → Option (List String)
some_names [] = none
some_names (x ∷ xs) = some (x ∷ xs)

-- The names of one member of the `claims` parameter.
abbrev member_names : Option Json → Option (List String)
member_names none = none
member_names (some null) = none
member_names (some (bool b)) = none
member_names (some (num n)) = none
member_names (some (str s)) = none
member_names (some (arr a)) = none
member_names (some (obj o)) = some_names (names_of o)

abbrev some_request : Option (List String) → Option (List String) → Option ClaimsRequest
some_request none none = none
some_request (some xs) none = some (record { id_token = some xs; userinfo = none })
some_request none (some ys) = some (record { id_token = none; userinfo = some ys })
some_request (some xs) (some ys) = some (record { id_token = some xs; userinfo = some ys })

abbrev parsed_claims : Option Json → Option ClaimsRequest
parsed_claims none = none
parsed_claims (some null) = none
parsed_claims (some (bool b)) = none
parsed_claims (some (num n)) = none
parsed_claims (some (str s)) = none
parsed_claims (some (arr a)) = none
parsed_claims (some (obj o)) =
    some_request (member_names (get "id_token" (entries o)))
      (member_names (get "userinfo" (entries o)))

unfoldable pub parse_claims_parameter : (String → Option Json) → String → Option ClaimsRequest
parse_claims_parameter loads raw = if raw == "" then none else parsed_claims (loads raw)

-- `x if x else None`
abbrev pub given : String → Option String
given s = if is_text s then some s else none

abbrev pub code_request : (String → Option Json) → AuthorizeParams → String → CodeRequest
code_request loads p username = record {
  client_id = p.client_id;
  redirect_uri = p.redirect_uri;
  username = username;
  scope = p.scope;
  code_challenge = given p.code_challenge;
  code_challenge_method = given p.code_challenge_method;
  nonce = given p.nonce;
  state = given p.state;
  claims = parse_claims_parameter loads p.claims_param;
  resource = some_names p.resources;
}

abbrev pub username_of : AuthorizeRequest → String
username_of r = elim (form_get "username" r.request.form) [ none ↦ "" | some u ↦ strip u ]

abbrev pub password_of : AuthorizeRequest → String
password_of r = elim (form_get "password" r.request.form) [ none ↦ "" | some w ↦ w ]

abbrev pub auto_login_prefix : String
auto_login_prefix = "persona-auto-login:"

-- `code` is the random text that the store drew.
module _ (urlparse : String → Option ParsedUrl) (loads : String → Option Json)
    (is_valid : String → Bool) (repr : String → String) (checkpw : String → String → Option Bool)
    (code : String) (config : ConfigManager) (r : AuthorizeRequest) where
  unfoldable pub issue_authorization_code : {A : Type 0} → AuthorizeParams → String → Bool → Flow A
  issue_authorization_code p username auto_login s =
      answer_with (redirect p.redirect_uri (("code", code) ∷ state_and_issuer urlparse config r p))
        (note r "success" (some username) (some p.client_id)
          (("scope", str p.scope)
            ∷ ("pkce", bool (is_text p.code_challenge))
            ∷ (if auto_login then ("auto_login", bool true) ∷ [] else []))
          (record s {
            idp = record s.idp {
              codes =
                  create_code r.request.transport.now code (code_request loads p username)
                    s.idp.codes;
            };
            session = cleared;
          }))

  abbrev pub auto_login_as : AuthorizeParams → String → Option User → Flow (Unit {0})
  auto_login_as p username none =
      authorize_error_redirect urlparse config r p "invalid_request"
        "Unknown persona for auto-login"
        (String.◌++◌ "auto-login: unknown persona " (repr username)) (some username)
  auto_login_as p username (some user) = issue_authorization_code p user.username true

  abbrev pub auto_login_hint : AuthorizeParams → Option String → Flow (Unit {0})
  auto_login_hint p none = pass tt
  auto_login_hint p (some username) =
      auto_login_as p username (interactive_authenticate checkpw config username "")

  unfoldable pub try_persona_auto_login : AuthorizeParams → Flow (Unit {0})
  try_persona_auto_login p =
      if not (auto_login_enabled config.settings)
      then pass tt
      else auto_login_hint p (after_prefix auto_login_prefix p.login_hint)

  -- What a failed attempt says; a real attempt is recorded.
  abbrev pub login_failed : AuthorizeParams → String → String → Flow (Option String)
  login_failed p username password s =
      if (persona_mode_enabled config.settings && is_text username)
        || (is_text username && is_text password)
      then pass (some "Invalid username or password") (
          note r "failed" (some username) (some p.client_id)
            (("reason", str "Invalid credentials") ∷ []) s)
      else if persona_mode_enabled config.settings
      then pass (some "Select a user") s
      else pass (some "Username and password are required") s

  abbrev pub login_as : AuthorizeParams → String → String → Option User → Flow (Option String)
  login_as p username password none = login_failed p username password
  login_as p username password (some user) = issue_authorization_code p user.username false

  abbrev pub login_phase : AuthorizeParams → TwoStepPhase → Flow (Option String)
  login_phase p username_required = pass (some "Username is required")
  login_phase p password_required = pass (some "Password is required")
  login_phase p username_step = pass none
  login_phase p attempt =
      login_as p (username_of r) (password_of r)
        (interactive_authenticate checkpw config (username_of r) (password_of r))

  -- The value is the error message of the login page.
  unfoldable pub handle_authorize_login : AuthorizeParams → Flow (Option String)
  handle_authorize_login p = login_phase p (
      two_step_phase (two_step_login_active config.settings) (username_of r) (password_of r)
        (not (is_none (form_get "password" r.request.form))) true)

  -- The login form, posted or asked for.
  abbrev pub login_leg : Bool → AuthorizeParams → Flow (Unit {0})
  login_leg true p =
      handle_authorize_login p >>= λ message. answer_with (login_page message (username_of r))
  login_leg false p = answer_with (login_page none "")

  -- What follows the validators.
  unfoldable pub login : AuthorizeParams → Flow (Unit {0})
  login p = try_persona_auto_login p >> login_leg r.is_post p

  abbrev pub audited_if : Bool → AuthorizeParams → WebState → WebState
  audited_if true p s = audit_suspicious_authorize_post r p s
  audited_if false p s = s

  -- The endpoint; every request is answered.
  unfoldable pub authorize : Flow (Unit {0})
  authorize s =
      let p = read_authorize_params r s.session in
      (validate urlparse config r is_valid repr p >>= λ v. login v.0)
        (audited_if r.is_post p (record s { session = stored p }))
