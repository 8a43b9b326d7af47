-- ===== src/Grants/Defs.antt =====
-- src/nanoidp/routes/oauth_grants.py: what the handlers share.
use nanoidp.Prelude.{
  ℕ, String, Bool, true, Option, none, some, List, [], ◌∷◌, if◌then◌else◌, is_empty,
}
use nanoidp.Dict.{Dict}
use nanoidp.Json.{Json, str}
use nanoidp.Models.{User, OAuthClient, scope_enforcement_active}
use nanoidp.Config.{ConfigManager}
use nanoidp.Revocation.{ExpiresAt}
use nanoidp.Scope.{ScopeResult, resolve_scope}
use nanoidp.Resource.{ResourceResult, granted, invalid_target, resolve_resources, describe}
use nanoidp.AuditLog.{audit_event}
use nanoidp.Response.{OAuthError, oauth_error}
use nanoidp.ClientAuth.{Request, form_get, form_getlist}
use nanoidp.Grants.Monad.{IdpState, Action, pure, stop}

-- _GrantOutcome
pub record GrantOutcome : Type 0 where
  pub user : User
  pub username : String
  pub nonce : Option String
  pub scope : Option String
  pub auth_time : Option ℕ
  pub refresh_family : Option String
  pub id_token_claims : Option Json
  pub userinfo_claims : Option Json
  pub issue_refresh_token : Bool
  pub resource : Option (List String)
  pub refresh_resource : Option (List String)

-- The outcome whose optional fields have their defaults.
abbrev pub outcome : User → String → GrantOutcome
outcome user username = record {
  user = user;
  username = username;
  nonce = none;
  scope = none;
  auth_time = none;
  refresh_family = none;
  id_token_claims = none;
  userinfo_claims = none;
  issue_refresh_token = true;
  resource = none;
  refresh_resource = none;
}

-- _GrantContext, with the active request
pub record GrantContext : Type 0 where
  pub config : ConfigManager
  pub client_id : String
  pub grant_type : String
  pub request : Request

-- The claims that the refresh grant reads of a verified token, each with the type with which
-- `create_token` writes it; the requested-claims values may be anything.
pub record Payload : Type 0 where
  pub token_type : Option String
  pub client_id : Option String
  pub sub : Option String
  pub scope : Option String
  pub auth_time : Option ℕ
  pub req_id_token_claims : Option Json
  pub req_userinfo_claims : Option Json
  pub rt_family : Option String
  pub jti : Option String
  pub exp : ExpiresAt
  pub resource : Option (List String)

-- What `CryptoService.verify_jwt` does, which rests on PyJWT: it returns the payload or raises with a
-- message.
pub data Verified : Type 0 where
  payload : Payload → Verified
  invalid : String → Verified

-- form.get(key, "")
abbrev pub field_or_blank : GrantContext → String → String
field_or_blank ctx key = elim (form_get key ctx.request.form) [ none ↦ "" | some v ↦ v ]

abbrev pub or_nil : Option (List String) → List String
or_nil none = []
or_nil (some xs) = xs

-- `xs or None`
abbrev pub some_items : List String → Option (List String)
some_items [] = none
some_items (x ∷ xs) = some (x ∷ xs)

-- {"reason": …, "grant_type": …}
abbrev pub reason : GrantContext → String → Dict Json
reason ctx text = ("reason", str text) ∷ ("grant_type", str ctx.grant_type) ∷ []

abbrev pub record_failure : GrantContext → Option String → Dict Json → IdpState → IdpState
record_failure ctx username details s = record s {
  audit =
      audit_event ctx.request.transport "token_request" "failed" "/token" username
        (some ctx.client_id) details s.audit;
}

-- An audited failure.
abbrev pub fail : {A : Type 0} → GrantContext → Option String → Dict Json → OAuthError → Action A
fail ctx username details e s = stop e (record_failure ctx username details s)

-- The check of a scope for the grant's client, as every handler makes it.
abbrev pub scope_outcome : GrantContext → Option String → ScopeResult → Action (Option String)
scope_outcome ctx username r = elim r.error_description [
  | none ↦ pure r.granted
  | some description ↦
      fail ctx username (reason ctx description) (oauth_error "invalid_scope" description 400)
]

unfoldable pub check_grant_scope :
    GrantContext
    → Option String
    → Option OAuthClient
    → Option String
    → Bool
    → Action (Option String)
check_grant_scope ctx username none scope validate_only = pure scope
check_grant_scope ctx username (some client) scope validate_only = scope_outcome ctx username (
    resolve_scope scope client ctx.config.settings.scopes_supported
      (scope_enforcement_active ctx.config.settings) none validate_only)

module _ (is_valid : String → Bool) (repr : String → String) where
  abbrev pub resource_outcome : GrantContext → ResourceResult → Action (Option (List String))
  resource_outcome ctx (granted xs) = pure (some_items xs)
  resource_outcome ctx (invalid_target e) =
      fail ctx none (reason ctx (describe repr e))
        (oauth_error "invalid_target" (describe repr e) 400)

  abbrev pub inherit_resource :
      GrantContext → Option OAuthClient → List String → Action (Option (List String))
  inherit_resource ctx client [] = pure none
  inherit_resource ctx none (x ∷ xs) = pure (some (x ∷ xs))
  inherit_resource ctx (some client) (x ∷ xs) =
      resource_outcome ctx (resolve_resources is_valid client none (x ∷ xs))

  abbrev pub request_resource :
      GrantContext
      → Option OAuthClient
      → Option (List String)
      → List String
      → Action (Option (List String))
  request_resource ctx none original requested =
      stop (oauth_error "invalid_target" "Unknown client" 400)
  request_resource ctx (some client) original requested =
      resource_outcome ctx (resolve_resources is_valid client original requested)

  -- _resolve_token_resource; `original` is none where there was no prior authorization step.
  unfoldable pub resolve_token_resource :
      GrantContext → Option OAuthClient → Option (List String) → Action (Option (List String))
  resolve_token_resource ctx client original =
      let requested = form_getlist "resource" ctx.request.form in
      if is_empty requested
      then inherit_resource ctx client (or_nil original)
      else request_resource ctx client original requested
