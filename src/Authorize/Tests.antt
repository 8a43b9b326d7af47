-- ===== src/Authorize/Tests.antt =====
-- An authorization request of a concrete client.
use nanoidp.Prelude.{String, Bool, true, Option, none, some, [], ◌∷◌, ◌≡◌, refl}
use nanoidp.Json.{Json}
use nanoidp.Samples.{sample_config}
use nanoidp.AuthCode
use nanoidp.DeviceCode
use nanoidp.Revocation
use nanoidp.AuditLog.{new_log}
use nanoidp.RedirectUri.{ParsedUrl, no_port}
use nanoidp.Authorize.{AuthorizeRequest, WebState, cleared}
use nanoidp.Authorize.Login.{username_required, two_step_phase}
use nanoidp.Authorize.Outcome.{Answered, authorize-Answered}

abbrev parsed : String → Option ParsedUrl
parsed uri = some (record {
  scheme = "https";
  netloc = "app";
  path = "/cb";
  fragment = "";
  hostname = some "app";
  port = no_port;
})

abbrev no_json : String → Option Json
no_json text = none

abbrev any_text : String → Bool
any_text value = true

abbrev quoted : String → String
quoted value = value

abbrev unasked : String → String → Option Bool
unasked given stored = none

abbrev posting : AuthorizeRequest
posting = record {
  is_post = true;
  args =
      ("response_type", "code")
      ∷ ("client_id", "web")
      ∷ ("redirect_uri", "https://app/cb")
      ∷ ("scope", "openid")
      ∷ ("code_challenge", "c")
      ∷ ("code_challenge_method", "S256")
      ∷ [];
  request = record {
    transport = record { now = 10; method = "POST"; remote_addr = none; user_agent = none };
    form = ("username", "alice") ∷ ("password", "secret") ∷ [];
    authorization = none;
    authorization_header = "";
  };
  candidate = "http://idp";
}

abbrev fresh : WebState
fresh = record {
  idp = record {
    codes = AuthCode.empty;
    devices = DeviceCode.empty;
    revocations = Revocation.empty;
    audit = new_log 10;
  };
  session = cleared;
}

authorize-Answered_example :
    Answered parsed no_json any_text quoted unasked "code" sample_config posting fresh
authorize-Answered_example =
    authorize-Answered parsed no_json any_text quoted unasked "code" sample_config posting fresh

-- A password without a user name is not tried.
blank_username : two_step_phase true "" "secret" true true ≡ username_required
unfolding two_step_phase
blank_username = refl
