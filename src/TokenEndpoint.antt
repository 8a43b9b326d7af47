-- ===== src/TokenEndpoint.antt =====
-- src/nanoidp/routes/oauth.py: `POST /token`, from the identity of the client over the dispatch to the
-- grant handlers to the minted tokens; and the effective issuer (routes/_issuer.py). `int`,
-- `json.loads` and the arguments of the handlers and of `create_token` are parameters.
pub mod Payloads
pub mod Laws
pub mod Spending
pub mod Issuance
mod Tests
use Prim.Native.String
use nanoidp.Prelude.{
  ℕ, String, Bool, true, false, not, ◌&&◌, ◌||◌, Option, none, some, List, [], ◌∷◌, ◌==◌, leb,
  if◌then◌else◌, is_none, is_given, is_empty, elem, length,
}
use nanoidp.Dict.{Dict}
use nanoidp.Json.{Json, null, bool, num, str, arr, obj, Fields, end, field}
use nanoidp.Models.{Settings}
use nanoidp.Config.{ConfigManager}
use nanoidp.AuditLog.{audit_event}
use nanoidp.Response.{OAuthError, oauth_error, invalid_client_error}
use nanoidp.ClientAuth.{
  Request, form_get, request_client_identity, basic_attempted, TokenAuth, proceed,
  public_client_credentials, failed, enforce_token_endpoint_auth, auth_username,
}
use nanoidp.Token.{build_authorities}
use nanoidp.Token.Mint.{TokenRequest, Draws, Minted, create_token}
use nanoidp.Grants.Monad.{IdpState, Action, next, pure, stop, raise, require, ◌>>=◌, ◌>>◌}
use nanoidp.Grants.Defs.{GrantOutcome, GrantContext, Verified, reason, fail}
use nanoidp.Grants.Refresh.{grant_refresh_token}
use nanoidp.Grants.Direct.{grant_password, grant_client_credentials}
use nanoidp.Grants.Redeem.{grant_authorization_code, grant_device_code}

-- What `int` returns: a natural number, or minus one minus a natural number.
pub data ℤ : Type 0 where
  pos negsuc : ℕ → ℤ

-- 1 <= n <= 1440
abbrev pub in_range : ℤ → Bool
in_range (pos n) = leb 1 n && leb n 1440
in_range (negsuc n) = false

-- The number, where it is in range.
abbrev pub minutes_in : ℤ → ℕ
minutes_in (pos n) = n
minutes_in (negsuc n) = 0

-- routes/_issuer.py; `candidate` is `request.host_url.rstrip("/")`.
unfoldable pub effective_issuer : Settings → String → String
effective_issuer s candidate =
    if not s.issuer_from_request
    then s.issuer
    else if not (is_empty s.issuer_allowlist) && not (elem candidate s.issuer_allowlist)
    then s.issuer
    else candidate

-- A JSON object as a dict.
abbrev pub entries : Fields → Dict Json
entries end = []
entries (field k v fields) = (k, v) ∷ entries fields

-- The grant of the request.
abbrev pub grant_of : Option String → String
grant_of none = "client_credentials"
grant_of (some grant_type) = grant_type

abbrev pub token_context : ConfigManager → Request → String → GrantContext
token_context config r client_id = record {
  config = config;
  client_id = client_id;
  grant_type = grant_of (form_get "grant_type" r.form);
  request = r;
}

-- An audited failure before a client is known.
abbrev unidentified : {A : Type 0} → Request → Option String → Dict Json → OAuthError → Action A
unidentified r client_id details e s = stop e (record s {
  audit = audit_event r.transport "token_request" "failed" "/token" none client_id details s.audit;
})

abbrev no_client : Request → Action String
no_client r =
    unidentified r none
      (("reason", str "Client authentication required")
        ∷ ("grant_type", str (grant_of (form_get "grant_type" r.form)))
        ∷ [])
      (invalid_client_error "Client authentication required" (basic_attempted r))

abbrev pub named_client : Request → Option String → Action String
named_client r none = no_client r
named_client r (some client_id) =
    if client_id == ""
    then no_client r
    else if (request_client_identity r).mismatch
    then unidentified r (auth_username (request_client_identity r).auth)
        (("reason", str "client_id mismatch") ∷ ("body_client_id", str client_id) ∷ [])
        (invalid_client_error "client_id in request body does not match authenticated client" true)
    else pure client_id

-- The client that the request names, in one way.
unfoldable pub identify_client : Request → Action String
identify_client r = named_client r (request_client_identity r).client_id

abbrev token_auth_failed : GrantContext → String → Action (Unit {0})
token_auth_failed ctx text =
    fail ctx none (("reason", str text) ∷ [])
      (invalid_client_error text (basic_attempted ctx.request))

abbrev pub answer_auth : GrantContext → TokenAuth → Action (Unit {0})
answer_auth ctx proceed = pure tt
answer_auth ctx public_client_credentials =
    fail ctx none (reason ctx "client_credentials refused for a public client") (
      oauth_error "unauthorized_client"
        "The client_credentials grant requires client authentication; this client's token_endpoint_auth_method is 'none'"
        400)
answer_auth ctx (failed text) = token_auth_failed ctx text

-- The answer of `_enforce_token_endpoint_auth`.
unfoldable pub authenticate_client : GrantContext → Action (Unit {0})
authenticate_client ctx = answer_auth ctx (
    enforce_token_endpoint_auth ctx.config ctx.grant_type (request_client_identity ctx.request).auth
      ctx.client_id (request_client_identity ctx.request).body_client_secret)

abbrev pub check_exp : GrantContext → Option ℤ → Action ℕ
check_exp ctx none =
    fail ctx none (reason ctx "Invalid 'exp' parameter")
      (oauth_error "invalid_request" "'exp' must be an integer number of minutes" 400)
check_exp ctx (some n) =
    if in_range n
    then pure (minutes_in n)
    else fail ctx none (reason ctx "'exp' out of range")
        (oauth_error "invalid_request" "'exp' must be between 1 and 1440 minutes" 400)

abbrev refuse_extra : GrantContext → Action (Dict Json)
refuse_extra ctx =
    fail ctx none (reason ctx "'extra' is not a JSON object")
      (oauth_error "invalid_request" "'extra' must be a JSON object" 400)

abbrev pub check_extra : GrantContext → Option Json → Action (Dict Json)
check_extra ctx none =
    fail ctx none (reason ctx "Invalid JSON in 'extra'")
      (oauth_error "invalid_request" "Invalid JSON in 'extra'" 400)
check_extra ctx (some (obj o)) = pure (entries o)
check_extra ctx (some null) = refuse_extra ctx
check_extra ctx (some (bool b)) = refuse_extra ctx
check_extra ctx (some (num n)) = refuse_extra ctx
check_extra ctx (some (str s)) = refuse_extra ctx
check_extra ctx (some (arr a)) = refuse_extra ctx

-- The call of `create_token` for an outcome.
abbrev pub token_request : GrantContext → String → ℕ → Dict Json → GrantOutcome → TokenRequest
token_request ctx issuer exp_minutes extra o = record {
  user = o.user;
  exp_minutes = some exp_minutes;
  extra_claims = extra;
  nonce = o.nonce;
  scope = o.scope;
  client_id = some ctx.client_id;
  auth_time = o.auth_time;
  refresh_family = o.refresh_family;
  id_token_claims = o.id_token_claims;
  userinfo_claims = o.userinfo_claims;
  issuer = some issuer;
  issue_refresh_token = some o.issue_refresh_token;
  resource = o.resource;
  refresh_resource = o.refresh_resource;
}

-- The code outside that the endpoint calls.
pub record Platform : Type 0 where
  pub parse_int : String → Option ℤ
  pub loads : String → Option Json
  pub is_valid_uri : String → Bool
  pub repr : String → String
  pub checkpw : String → String → Option Bool
  pub s256 : String → String
  pub verify_jwt : String → String → Verified
  pub upper : String → String
  pub show : Json → String
  pub sign : Dict Json → Option String
  pub at_hash : String → String

module _ (p : Platform) where
  abbrev pub given_exp : GrantContext → Option String → Action ℕ
  given_exp ctx none = check_exp ctx (some (pos ctx.config.settings.token_expiry_minutes))
  given_exp ctx (some text) = check_exp ctx (p.parse_int text)

  abbrev pub given_extra : GrantContext → Option String → Action (Dict Json)
  given_extra ctx none = pure []
  given_extra ctx (some text) = if text == "" then pure [] else check_extra ctx (p.loads text)

  -- `exp` and `extra`, the parameters that do not depend on the grant.
  unfoldable pub exp_minutes : GrantContext → Action ℕ
  exp_minutes ctx = given_exp ctx (form_get "exp" ctx.request.form)

  unfoldable pub extra_claims : GrantContext → Action (Dict Json)
  extra_claims ctx = given_extra ctx (form_get "extra" ctx.request.form)

  unfoldable pub dispatch : GrantContext → Action GrantOutcome
  dispatch ctx =
      if ctx.grant_type == "refresh_token"
      then grant_refresh_token p.is_valid_uri p.repr p.verify_jwt ctx
      else if ctx.grant_type == "password"
      then grant_password p.is_valid_uri p.repr p.checkpw ctx
      else if ctx.grant_type == "authorization_code"
      then grant_authorization_code p.is_valid_uri p.repr p.s256 ctx
      else if ctx.grant_type == "client_credentials"
      then grant_client_credentials p.is_valid_uri p.repr ctx
      else if ctx.grant_type == "urn:ietf:params:oauth:grant-type:device_code"
      then grant_device_code p.is_valid_uri p.repr ctx
      else fail ctx none (reason ctx (String.◌++◌ "Unsupported grant type: " ctx.grant_type))
          (oauth_error "unsupported_grant_type" "The requested grant_type is not supported" 400)

  abbrev pub deliver : GrantContext → GrantOutcome → Option Minted → Action Minted
  deliver ctx o none s = raise s
  deliver ctx o (some m) s = pure m (record s {
    audit =
        audit_event ctx.request.transport "token_request" "success" "/token" (some o.username)
          (some ctx.client_id)
          (("grant_type", str ctx.grant_type)
            ∷ (
              "authorities_count",
              num (
                  length (
                    build_authorities p.upper p.show ctx.config.settings.authority_prefixes
                      o.user)),
            )
            ∷ [])
          s.audit;
  })

  -- What the endpoint does with an outcome.
  unfoldable pub issue :
      Draws → String → GrantContext → ℕ → Dict Json → GrantOutcome → Action Minted
  issue draws candidate ctx exp_minutes extra o = deliver ctx o (
      create_token p.upper p.show ctx.config p.sign p.at_hash ctx.request.transport.now draws
        (token_request ctx (effective_issuer ctx.config.settings candidate) exp_minutes extra o))

  -- The request of an identified client.
  unfoldable pub serve_client : Draws → String → GrantContext → Action Minted
  serve_client draws candidate ctx = do
    authenticate_client ctx
    minutes ← exp_minutes ctx
    extra ← extra_claims ctx
    o ← dispatch ctx
    issue draws candidate ctx minutes extra o

  unfoldable pub token : Draws → String → ConfigManager → Request → Action Minted
  token draws candidate config r = do
    client_id ← identify_client r
    serve_client draws candidate (token_context config r client_id)
