-- ===== src/Endpoints.antt =====
-- src/nanoidp/routes/oauth.py: the endpoints that tokens are presented to: userinfo, introspection and
-- revocation. JWT verification and `float` are arguments; but for `exp`, a claim of another type than
-- `create_jwt` writes reads as absent.
pub mod Revoke
pub mod Introspect
pub mod UserInfo
pub mod Laws
pub mod Privacy
mod Tests
use nanoidp.Prelude.{ℕ, ◌*◌, String, Bool, false, Option, none, some, ◌==◌, if◌then◌else◌}
use nanoidp.Dict.{Dict}
use nanoidp.Json.{Json, null, bool, num, str, arr, obj}
use nanoidp.Models.{OAuthClient, is_public}
use nanoidp.Config.{ConfigManager, get_client}
use nanoidp.Revocation.{ExpiresAt, absent, malformed, numeric, second}
use nanoidp.AuditLog.{audit_event}
use nanoidp.ClientAuth.{Request}
use nanoidp.Grants.Monad.{IdpState}

-- `verify_jwt` returns the claims, or raises with a message.
pub data Checked : Type 0 where
  signed : Dict Json → Checked
  unsigned : String → Checked

-- A response: an error with its status and description, a JSON body, or an empty 200.
pub data Reply : Type 0 where
  refusal : ℕ → String → Option String → Reply
  json : Dict Json → Reply
  blank : Reply

abbrev pub text_claim : Option Json → Option String
text_claim none = none
text_claim (some null) = none
text_claim (some (bool b)) = none
text_claim (some (num n)) = none
text_claim (some (str s)) = some s
text_claim (some (arr a)) = none
text_claim (some (obj o)) = none

-- What `float` makes of a text, in microseconds.
abbrev pub float_expiry : Option ℕ → ExpiresAt
float_expiry none = malformed
float_expiry (some e) = numeric e

-- The `exp` claim as the revocation store takes it, by the `float` of a text.
abbrev pub expiry_claim : (String → Option ℕ) → Option Json → ExpiresAt
expiry_claim to_float none = absent
expiry_claim to_float (some null) = absent
expiry_claim to_float (some (bool b)) = numeric (if b then second else 0)
expiry_claim to_float (some (num n)) = numeric (n * second)
expiry_claim to_float (some (str s)) = float_expiry (to_float s)
expiry_claim to_float (some (arr a)) = malformed
expiry_claim to_float (some (obj o)) = malformed

-- payload.get(claim, default)
abbrev pub claim_or : Json → Option Json → Json
claim_or default none = default
claim_or default (some v) = v

abbrev pub text_or_null : Option String → Json
text_or_null none = null
text_or_null (some s) = str s

abbrev pub found_client : ConfigManager → Option String → Option OAuthClient
found_client config none = none
found_client config (some client_id) = if client_id == "" then none else get_client config client_id

abbrev pub is_public_found : Option OAuthClient → Bool
is_public_found none = false
is_public_found (some client) = is_public client

abbrev pub record_event :
    Request
    → String
    → String
    → String
    → Option String
    → Option String
    → Dict Json
    → IdpState
    → IdpState
record_event r event status endpoint username client_id details s = record s {
  audit = audit_event r.transport event status endpoint username client_id details s.audit;
}
