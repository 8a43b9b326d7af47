-- ===== src/Lib.antt =====
-- Verification of NanoIDP, a small identity provider for development: its OAuth2 and OpenID Connect
-- core.
--
-- Three stores hold the state of the protocol: authorization codes, device authorizations and
-- revocations. The authorization endpoint validates a request, logs the user in and stores a code; the
-- token endpoint authenticates the client, hands the request to the handler of its grant, which acts
-- on the stores with the scope and resource checks, and mints the tokens of the outcome; userinfo,
-- introspection and revocation take these tokens. What they do is recorded in the audit log.
--
-- The files and the code that they model:
--   AuthCode      src/nanoidp/services/auth_code.py: create_code, consume_code with PKCE,
--                 _cleanup_expired, get_code_info.
--   DeviceCode    src/nanoidp/services/device_code.py: create, poll, verify, prune_expired, clear.
--   Revocation    src/nanoidp/services/revocation.py: revoke, is_revoked, check_and_claim_refresh, the
--                 sweep and the retention of entries.
--   Scope         src/nanoidp/services/scope.py: resolve_scope.
--   Resource      src/nanoidp/services/resource.py: resolve_resources.
--   AuditLog      src/nanoidp/services/audit.py and src/nanoidp/routes/_audit.py.
--   Models        src/nanoidp/models.py: the fields that are read, and the derived settings.
--   Config        src/nanoidp/config.py: get_user, get_client, check_client, authenticate,
--                 interactive_authenticate.
--   Response      src/nanoidp/routes/_oauth_error.py.
--   ClientAuth    src/nanoidp/routes/oauth.py: _basic_attempted, _request_client_identity,
--                 _enforce_token_endpoint_auth, _enforce_registered_client_auth.
--   RedirectUri   src/nanoidp/services/redirect_uri.py, and issuer_qualifies_for_iss_parameter of
--                 src/nanoidp/services/discovery.py.
--   Discovery     src/nanoidp/services/discovery.py: build_discovery_document.
--   Grants        src/nanoidp/routes/oauth_grants.py: the five grant handlers, as actions on the
--                 stores and the audit log (Monad) that hand on issuance parameters or answer an error.
--   Token         src/nanoidp/services/token.py: claim names, authorities, audiences; Mint has the
--                 claims of the three tokens of create_token, and create_jwt of
--                 src/nanoidp/services/crypto.py up to the signing; Signing has when it raises.
--   TokenEndpoint src/nanoidp/routes/oauth.py: token(), and src/nanoidp/routes/_issuer.py; Payloads
--                 reads minted claims back as the refresh grant does, Spending composes the two;
--                 Issuance follows a grant handler to the tokens.
--   Endpoints     src/nanoidp/routes/oauth.py: userinfo, introspect, revoke.
--   Authorize     src/nanoidp/routes/oauth.py: authorize(), with its validators (Validate) and the
--                 login (Login), on the stores and the session; two_step_phase of
--                 src/nanoidp/routes/_auth.py.
--   DevicePages   src/nanoidp/routes/oauth.py: device_authorization, device_verify and end_session.
--   Dict, Prelude and Json hold Python's dicts, texts, lists and JSON values; Samples holds concrete
--   users and clients, and each part's Tests run it on them.
--
-- How the code is read. A method of a store runs under its lock, so a run of the server is a
-- sequence of whole calls in any order: the Trace modules state what holds of all such sequences. A
-- call takes its reading of the clock as an argument, in microseconds; several readings within one
-- call are one. Random codes are arguments, and a text that a caller draws anew is told apart by
-- never_creates. SHA-256, bcrypt, the signing of JWTs, which may raise, their verification,
-- urlparse, json.loads, int, float, the grammar of resource indicators and Python's repr are
-- parameters; what a theorem assumes of one, such as that a presented token verifies, is among its
-- hypotheses. JSON numbers are natural, and a claim of another type than the program writes reads
-- as absent, but for exp, which the revocation store takes as float does. Log lines, hooks and HTML
-- pages are left out.
-- The loops of the code are structural recursion on its lists, so no fuel is needed.
--
-- Not modelled: key files and signing, SAML, configuration files, hooks, the management
-- interfaces and the command line.
pub mod Prelude
pub mod Dict
pub mod Samples
pub mod Json
pub mod Models
pub mod Config
pub mod AuthCode
pub mod DeviceCode
pub mod Revocation
pub mod Scope
pub mod Resource
pub mod AuditLog
pub mod Response
pub mod ClientAuth
pub mod RedirectUri
pub mod Token
pub mod TokenEndpoint
pub mod Grants
pub mod Endpoints
pub mod Authorize
pub mod DevicePages
pub mod Discovery
