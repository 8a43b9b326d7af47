-- ===== src/Authorize.antt =====
-- src/nanoidp/routes/oauth.py: `/authorize` (RFC 6749 §4.1), from the parameters over the validators to
-- the login and the code; and `two_step_phase` of routes/_auth.py. The rendering of the login page is
-- left out. `urlparse`, `json.loads`, the grammar of resources and `repr` are arguments.
pub mod Validate
pub mod Login
pub mod Laws
pub mod Valid
pub mod Outcome
mod Tests
use nanoidp.Prelude.{
  ℕ, String, Bool, true, false, Option, none, some, List, [], ◌∷◌, ◌==◌, if◌then◌else◌,
}
use nanoidp.Dict.{Dict}
use nanoidp.Json.{Json, str}
use nanoidp.AuditLog.{audit_event}
use nanoidp.Response.{OAuthError}
use nanoidp.ClientAuth.{Request, form_get, form_getlist}
use nanoidp.Config.{ConfigManager}
use nanoidp.Grants.Monad.{IdpState}

-- The request, with its query string, and what `effective_issuer` reads of the host.
pub record AuthorizeRequest : Type 0 where
  pub is_post : Bool
  pub args : List (String × String)
  pub request : Request
  pub candidate : String

-- The `oauth_` keys of the session.
pub record Session : Type 0 where
  pub response_type : Option String
  pub client_id : Option String
  pub redirect_uri : Option String
  pub scope : Option String
  pub state : Option String
  pub code_challenge : Option String
  pub code_challenge_method : Option String
  pub nonce : Option String
  pub claims : Option String
  pub resources : Option (List String)

-- A session without them.
abbrev pub cleared : Session
cleared = record {
  response_type = none;
  client_id = none;
  redirect_uri = none;
  scope = none;
  state = none;
  code_challenge = none;
  code_challenge_method = none;
  nonce = none;
  claims = none;
  resources = none;
}

-- _AuthorizeParams
pub record AuthorizeParams : Type 0 where
  pub response_type : String
  pub client_id : String
  pub redirect_uri : String
  pub scope : String
  pub state : String
  pub code_challenge : String
  pub code_challenge_method : String
  pub nonce : String
  pub claims_param : String
  pub resources : List String
  pub login_hint : String

abbrev or_blank : Option String → String
or_blank none = ""
or_blank (some s) = s

-- params.get(key, session.get(key, ""))
abbrev param_or : Option String → Option String → String
param_or none kept = or_blank kept
param_or (some given) kept = given

-- `params.getlist("resource") or session.get("oauth_resources", [])`
abbrev resources_or : List String → Option (List String) → List String
resources_or [] none = []
resources_or [] (some kept) = kept
resources_or (x ∷ xs) kept = x ∷ xs

unfoldable pub read_authorize_params : AuthorizeRequest → Session → AuthorizeParams
read_authorize_params r kept = record {
  response_type = param_or (form_get "response_type" r.args) kept.response_type;
  client_id = param_or (form_get "client_id" r.args) kept.client_id;
  redirect_uri = param_or (form_get "redirect_uri" r.args) kept.redirect_uri;
  scope = param_or (form_get "scope" r.args) kept.scope;
  state = param_or (form_get "state" r.args) kept.state;
  code_challenge = param_or (form_get "code_challenge" r.args) kept.code_challenge;
  code_challenge_method =
      param_or (form_get "code_challenge_method" r.args) kept.code_challenge_method;
  nonce = param_or (form_get "nonce" r.args) kept.nonce;
  claims_param = param_or (form_get "claims" r.args) kept.claims;
  resources = resources_or (form_getlist "resource" r.args) kept.resources;
  login_hint = if r.is_post then "" else or_blank (form_get "login_hint" r.args);
}

-- What the session holds once the parameters are read.
unfoldable pub stored : AuthorizeParams → Session
stored p = record {
  response_type = some p.response_type;
  client_id = some p.client_id;
  redirect_uri = some p.redirect_uri;
  scope = some p.scope;
  state = some p.state;
  code_challenge = some p.code_challenge;
  code_challenge_method = some p.code_challenge_method;
  nonce = some p.nonce;
  claims = some p.claims_param;
  resources = some p.resources;
}

-- A response: an error that stays local, a redirect to a URI with parameters, or the login page with
-- its error message and user name.
pub data AuthorizeReply : Type 0 where
  local : OAuthError → AuthorizeReply
  redirect : String → List (String × String) → AuthorizeReply
  login_page : Option String → String → AuthorizeReply

-- The stores, and the session of the browser.
pub record WebState : Type 0 where
  pub idp : IdpState
  pub session : Session

-- How a step ends: it hands a value on, or the request is answered.
pub data Stage (A : Type 0) : Type 0 where
  go : A → Stage A
  reply : AuthorizeReply → Stage A

abbrev pub Flow : Type 0 → Type 0
Flow A = WebState → WebState × Stage A

abbrev pub proceed : {A B : Type 0} → Stage A → (A → Flow B) → Flow B
proceed (go a) f s = f a s
proceed (reply x) f s = (s, reply x)

infixl 5 ◌>>=◌ ◌>>◌
abbrev pub ◌>>=◌ : {A B : Type 0} → Flow A → (A → Flow B) → Flow B
◌>>=◌ m f s = let (s', r) = m s in proceed r f s'

abbrev pub ◌>>◌ : {B : Type 0} → Flow (Unit {0}) → Flow B → Flow B
m >> n = m >>= λ _. n

abbrev pub pass : {A : Type 0} → A → Flow A
pass a s = (s, go a)

abbrev pub answer_with : {A : Type 0} → AuthorizeReply → Flow A
answer_with x s = (s, reply x)

-- An event of the endpoint.
abbrev pub note :
    AuthorizeRequest → String → Option String → Option String → Dict Json → WebState → WebState
note r status username client_id details s = record s {
  idp = record s.idp {
    audit =
        audit_event r.request.transport "authorization_request" status "/authorize" username
          client_id details s.idp.audit;
  };
}
