-- ===== src/Grants/Tests.antt =====
-- Refresh requests of a concrete client.
use nanoidp.Prelude.{
  Option, strip, join, ◌≡◌, refl, String, Bool, true, false, none, some, List, [], ◌∷◌, split,
  sorted_set,
}
use nanoidp.Dict.{get, put, keys_where, remove_all}
use nanoidp.Models.{password_grant_enabled, rotation_enabled, scope_enforcement_active}
use nanoidp.Config.{get_user, get_client, authenticate}
use nanoidp.Samples.{sample_settings, alice, sample_config}
use nanoidp.AuthCode
use nanoidp.DeviceCode
use nanoidp.DeviceCode.{DeviceCodeGrant}
use nanoidp.DeviceCode.Poll.{IsClaimable}
use nanoidp.AuthCode.{
  AuthorizationCode, CodeRequest, create_code, cleanup_expired, consume_code, check_pkce,
  verify_pkce, get_code_info,
}
use nanoidp.AuthCode.Laws.{IsRedeemable}
use nanoidp.Revocation
use nanoidp.Revocation.{numeric, check_and_claim_refresh, sweep, effective_expiry}
use nanoidp.Revocation.Laws.{IsWellFormed, Lasts, trusted}
use nanoidp.Scope.{resolve_scope}
use nanoidp.Resource.{resolve_resources, resolve_from, refuse}
use nanoidp.AuditLog.{new_log}
use nanoidp.Response.{oauth_error}
use nanoidp.Grants.Monad.{IdpState, next, answer}
use nanoidp.Grants.Defs.{
  GrantContext, GrantOutcome, outcome, Payload, Verified, payload, check_grant_scope,
  resolve_token_resource,
}
use nanoidp.Grants.Refresh.{
  Holder, presented_token, holder_of, validate_refresh, finish_refresh, grant_refresh_token,
  rotates,
}
use nanoidp.Grants.Redeem.{grant_authorization_code, grant_device_code}
use nanoidp.Grants.Direct.{grant_client_credentials, grant_password, without_openid}
use nanoidp.Grants.CodeLaws.{redemption, IsIssued, code_grants}
use nanoidp.Grants.DeviceLaws.{polling, IsHandedOut, device_grants}
use nanoidp.Grants.DirectLaws.{IsLoggedIn, password_grants}
use nanoidp.Grants.RefreshLaws.{
  claim, IsRefreshed, refresh_grants, Ended, grant_refresh_token-Ended, refused_resource_claims,
}

abbrev any_text : String → Bool
any_text value = true

abbrev quoted : String → String
quoted value = value

abbrev token : Payload
token = record {
  token_type = some "refresh";
  client_id = some "web";
  sub = some "alice";
  scope = some "openid email";
  auth_time = some 7;
  req_id_token_claims = none;
  req_userinfo_claims = none;
  rt_family = some "f1";
  jti = some "t1";
  exp = numeric 1000;
  resource = some ("https://api" ∷ []);
}

-- Every text verifies as that token.
abbrev verifies : String → String → Verified
verifies jwt audience = payload token

abbrev request : List (String × String) → GrantContext
request extra = record {
  config = sample_config;
  client_id = "web";
  grant_type = "refresh_token";
  request = record {
    transport = record { now = 10; method = "POST"; remote_addr = none; user_agent = none };
    form = ("refresh_token", "jwt") ∷ extra;
    authorization = none;
    authorization_header = "";
  };
}

abbrev narrowing : GrantContext
narrowing = request (("scope", "openid") ∷ [])

abbrev widening : GrantContext
widening = request (("resource", "https://other") ∷ [])

abbrev fresh : IdpState
fresh = record {
  codes = AuthCode.empty;
  devices = DeviceCode.empty;
  revocations = Revocation.empty;
  audit = new_log 10;
}

abbrev expected : GrantOutcome
expected = (record (outcome alice "alice") {
  scope = some "openid";
  auth_time = some 7;
  refresh_family = some "f1";
  resource = some ("https://api" ∷ []);
  refresh_resource = some ("https://api" ∷ []);
})

refreshes : (grant_refresh_token any_text quoted verifies narrowing fresh).1 ≡ next expected
unfolding grant_refresh_token validate_refresh presented_token holder_of finish_refresh get_user
    get_client get check_grant_scope scope_enforcement_active resolve_scope split sorted_set
    rotation_enabled check_and_claim_refresh sweep keys_where remove_all effective_expiry put
    resolve_token_resource resolve_resources resolve_from refuse
refreshes = refl

refresh_grants_example :
    (p : Payload) × IsRefreshed any_text quoted verifies narrowing p fresh expected
    × ((grant_refresh_token any_text quoted verifies narrowing fresh).0
        ≡ record fresh { revocations = (claim any_text quoted verifies narrowing p fresh).0 })
refresh_grants_example = refresh_grants any_text quoted verifies narrowing fresh expected refreshes

abbrev holder : Holder
holder = record { token = token; user = alice; scope = some "openid email" }

grant_refresh_token-Ended_example : Ended any_text quoted verifies widening fresh
grant_refresh_token-Ended_example =
    grant_refresh_token-Ended any_text quoted verifies widening fresh

validates : validate_refresh any_text quoted verifies widening fresh ≡ (fresh, next holder)
unfolding validate_refresh presented_token holder_of get_user get_client get check_grant_scope
    scope_enforcement_active resolve_scope split sorted_set
validates = refl

unclaimed : (claim any_text quoted verifies widening token fresh).1 ≡ false
unfolding get_client rotation_enabled check_and_claim_refresh sweep keys_where remove_all
    effective_expiry put get
unclaimed = refl

abbrev refusal_text : String
refusal_text = "resource https://other is not allowed for this client"

abbrev after_claim : IdpState
after_claim = record fresh { revocations = (claim any_text quoted verifies widening token fresh).0 }

abbrev refused_state : IdpState
refused_state =
    (resolve_token_resource any_text quoted widening (get_client sample_config "web")
      (some ("https://api" ∷ [])) after_claim).0

refuses_resource :
    resolve_token_resource any_text quoted widening
      (get_client sample_config "web")
      (some ("https://api" ∷ []))
      after_claim
    ≡ (refused_state, answer (oauth_error "invalid_target" refusal_text 400))
unfolding get_client resolve_token_resource resolve_resources resolve_from refuse
refuses_resource = refl

it_rotates : rotates widening ≡ true
unfolding rotation_enabled get_client
it_rotates = refl

no_revocations : IsWellFormed Revocation.empty
no_revocations = record { tokens_unique = tt; families_unique = tt }

-- The refused request has spent its refresh token.
refused_resource_claims_example :
    ((grant_refresh_token any_text quoted verifies widening fresh).1
      ≡ answer (oauth_error "invalid_target" refusal_text 400))
    × Lasts (trusted (numeric 1000)) (
        get "t1" (grant_refresh_token any_text quoted verifies widening fresh).0.revocations.tokens)
refused_resource_claims_example =
    refused_resource_claims any_text quoted verifies widening holder fresh refused_state
      (oauth_error "invalid_target" refusal_text 400) "t1" no_revocations validates unclaimed
      refuses_resource refl (λ e. cc) it_rotates

abbrev digest : String → String
digest verifier = verifier

abbrev code_request : CodeRequest
code_request = record {
  client_id = "web";
  redirect_uri = "https://app/cb";
  username = "alice";
  scope = "openid";
  code_challenge = some "verifier";
  code_challenge_method = some "S256";
  nonce = some "n";
  state = none;
  claims = none;
  resource = none;
}

abbrev with_code : IdpState
with_code = record fresh { codes = create_code 5 "c1" code_request AuthCode.empty }

abbrev asking : String → List (String × String) → GrantContext
asking grant_type form = record {
  config = sample_config;
  client_id = "web";
  grant_type = grant_type;
  request = record {
    transport = record { now = 10; method = "POST"; remote_addr = none; user_agent = none };
    form = form;
    authorization = none;
    authorization_header = "";
  };
}

abbrev redeeming : GrantContext
redeeming =
    asking "authorization_code"
      (("code", "c1") ∷ ("redirect_uri", "https://app/cb") ∷ ("code_verifier", "verifier") ∷ [])

abbrev code_outcome : GrantOutcome
code_outcome = (record (outcome alice "alice") {
  nonce = some "n";
  scope = some "openid";
  auth_time = some 0;
})

redeems_code :
    (grant_authorization_code any_text quoted digest redeeming with_code).1 ≡ next code_outcome
unfolding grant_authorization_code consume_code check_pkce verify_pkce create_code cleanup_expired
    get_user get_client get check_grant_scope scope_enforcement_active resolve_scope split
    sorted_set keys_where remove_all put resolve_token_resource
redeems_code = refl

code_grants_example :
    (c : AuthorizationCode) × (get_code_info "c1" with_code.codes ≡ some c)
    × IsRedeemable digest 10 "web" "https://app/cb" (some "verifier") c
    × IsIssued any_text quoted digest redeeming c code_outcome
    × ((grant_authorization_code any_text quoted digest redeeming with_code).0
        ≡ record with_code { codes = (redemption any_text quoted digest redeeming with_code).0 })
code_grants_example =
    code_grants any_text quoted digest redeeming with_code code_outcome redeems_code

abbrev device_grant : DeviceCodeGrant
device_grant = record {
  user_code = "ABCD-EFGH";
  client_id = "web";
  scope = "openid";
  expires_at = 1000;
  interval = 5;
  status = "authorized";
  username = some "alice";
  auth_time = some 3;
  resource = none;
}

abbrev with_device : IdpState
with_device = record fresh { devices = DeviceCode.insert "d1" device_grant DeviceCode.empty }

abbrev polling_device : GrantContext
polling_device = asking "urn:ietf:params:oauth:grant-type:device_code" (("device_code", "d1") ∷ [])

abbrev device_outcome : GrantOutcome
device_outcome = (record (outcome alice "alice") { scope = some "openid"; auth_time = some 3 })

claims_device :
    (grant_device_code any_text quoted polling_device with_device).1 ≡ next device_outcome
unfolding grant_device_code DeviceCode.poll get_user get_client get put check_grant_scope
    scope_enforcement_active resolve_scope split sorted_set resolve_token_resource
claims_device = refl

device_grants_example :
    (g : DeviceCodeGrant) × (get "d1" with_device.devices.codes ≡ some g)
    × IsClaimable (get_user sample_config) 10 "d1" (some "web") g alice
    × IsHandedOut any_text quoted polling_device g device_outcome
    × ((grant_device_code any_text quoted polling_device with_device).0
        ≡ record with_device { devices = (polling any_text quoted polling_device with_device).0 })
device_grants_example =
    device_grants any_text quoted polling_device with_device device_outcome claims_device

abbrev service : GrantContext
service = asking "client_credentials" (("scope", "email") ∷ [])

abbrev service_outcome : GrantOutcome
service_outcome = (record (outcome alice "alice") {
  scope = some "email";
  issue_refresh_token = false;
})

serves : (grant_client_credentials any_text quoted service fresh).1 ≡ next service_outcome
unfolding grant_client_credentials without_openid get_user get_client get check_grant_scope
    scope_enforcement_active resolve_scope split join sorted_set resolve_token_resource
serves = refl

-- The configuration outside the oauth21 profile, and bcrypt that is not asked.
abbrev relaxed : GrantContext
relaxed =
    record (asking "password"
      (("username", " alice ") ∷ ("password", "secret") ∷ ("scope", "email") ∷ [])) {
        config = record sample_config {
          settings = record sample_settings { security_profile = "dev" };
        };
      }

abbrev unasked : String → String → Option Bool
unasked given stored = none

abbrev password_outcome : GrantOutcome
password_outcome = (record (outcome alice "alice") { scope = some "email" })

logs_in : (grant_password any_text quoted unasked relaxed fresh).1 ≡ next password_outcome
unfolding grant_password password_grant_enabled authenticate get_user get_client get
    check_grant_scope scope_enforcement_active resolve_scope split strip sorted_set
    resolve_token_resource
logs_in = refl

password_grants_example :
    IsLoggedIn any_text quoted relaxed unasked password_outcome
    × ((grant_password any_text quoted unasked relaxed fresh).0 ≡ fresh)
password_grants_example =
    password_grants any_text quoted relaxed unasked fresh password_outcome logs_in
