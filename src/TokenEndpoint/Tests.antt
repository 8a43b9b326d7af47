-- ===== src/TokenEndpoint/Tests.antt =====
-- Token requests of a concrete client, and a token that is spent.
use nanoidp.Prelude.{
  ℕ, String, ◌≡◌, refl, Bool, true, false, Option, none, some, List, [], ◌∷◌, or_none, split, join,
  sorted_set, inr,
}
use nanoidp.Dict.{Dict, get, remove_all, keys_where}
use nanoidp.Json.{Json, str, num}
use nanoidp.Models.{scope_enforcement_active}
use nanoidp.Config.{get_client, get_user}
use nanoidp.Samples.{alice, sample_config}
use nanoidp.AuthCode
use nanoidp.DeviceCode
use nanoidp.Revocation
use nanoidp.Revocation.{check_and_claim_refresh, sweep, effective_expiry}
use nanoidp.Scope.{resolve_scope}
use nanoidp.AuditLog.{new_log}
use nanoidp.ClientAuth.{Request}
use nanoidp.Token.Mint.{TokenRequest, Draws, access_claims, refresh_claims}
use nanoidp.Grants.Monad.{IdpState, next}
use nanoidp.Grants.Defs.{
  GrantContext, GrantOutcome, outcome, Verified, payload, check_grant_scope, resolve_token_resource,
}
use nanoidp.Grants.Refresh.{presented_token, grant_refresh_token}
use nanoidp.Grants.Direct.{grant_client_credentials, without_openid}
use nanoidp.Grants.Laws.{ScopeFits}
use nanoidp.Grants.RefreshLaws.{claim}
use nanoidp.TokenEndpoint.{Platform, pos, token_context, dispatch}
use nanoidp.TokenEndpoint.Payloads.{payload_of, remembered, payload_of-refresh_claims}
use nanoidp.TokenEndpoint.Laws.{Reached, token-Reached}
use nanoidp.TokenEndpoint.Issuance.{Issued, issue-Issued}
use nanoidp.Token.Signing.{is_textual, is_signed, SignsTextIssuers}
use nanoidp.TokenEndpoint.Spending.{renewed, access_token_presented, refresh_token_renews}

abbrev same : String → String
same s = s

abbrev shown : Json → String
shown j = "x"

abbrev any_text : String → Bool
any_text value = true

abbrev draws : Draws
draws = record { access_jti = "a"; id_jti = "i"; refresh_jti = "r"; family = "f" }

-- A grant of the client "web" whose caller adds a `token_type`.
abbrev first : TokenRequest
first = record {
  user = alice;
  exp_minutes = none;
  extra_claims = ("token_type", str "refresh") ∷ [];
  nonce = none;
  scope = some "openid email";
  client_id = some "web";
  auth_time = some 7;
  refresh_family = none;
  id_token_claims = none;
  userinfo_claims = none;
  issuer = none;
  issue_refresh_token = none;
  resource = none;
  refresh_resource = none;
}

-- No text is a number.
abbrev no_float : String → Option ℕ
no_float text = none

-- Every text verifies as the refresh token of that grant, or as its access token.
abbrev as_refresh_token : String → String → Verified
as_refresh_token jwt audience =
    payload (payload_of no_float (refresh_claims same shown sample_config 5000000 draws first))

abbrev as_access_token : String → String → Verified
as_access_token jwt audience =
    payload (payload_of no_float (access_claims same shown sample_config 5000000 draws first))

abbrev platform : Platform
platform = record {
  parse_int = λ text. some (pos 5);
  loads = λ text. none;
  is_valid_uri = any_text;
  repr = same;
  checkpw = λ given stored. none;
  s256 = same;
  verify_jwt = as_refresh_token;
  upper = same;
  show = shown;
  sign = λ claims. some "jwt";
  at_hash = same;
}

abbrev posted : List (String × String) → Request
posted form = record {
  transport = record { now = 6000000; method = "POST"; remote_addr = none; user_agent = none };
  form = ("client_id", "web") ∷ ("client_secret", "s3") ∷ form;
  authorization = none;
  authorization_header = "";
}

abbrev fresh : IdpState
fresh = record {
  codes = AuthCode.empty;
  devices = DeviceCode.empty;
  revocations = Revocation.empty;
  audit = new_log 10;
}

abbrev asking : Request
asking = posted (("grant_type", "client_credentials") ∷ ("scope", "email") ∷ ("exp", "5") ∷ [])

token-Reached_example : Reached platform draws "http://idp" sample_config asking fresh
token-Reached_example = token-Reached platform draws "http://idp" sample_config asking fresh

abbrev service_outcome : GrantOutcome
service_outcome = (record (outcome alice "alice") {
  scope = some "email";
  issue_refresh_token = false;
})

-- A signing that raises at an `iss` that is not a text.
abbrev jwt_if : Bool → Option String
jwt_if true = some "jwt"
jwt_if false = none

abbrev strict_sign : Dict Json → Option String
strict_sign claims = jwt_if (is_textual (get "iss" claims))

is_signed-jwt_if : (b : Bool) → is_signed (jwt_if b) ≡ b
is_signed-jwt_if true = refl
is_signed-jwt_if false = refl

strict_signs : SignsTextIssuers strict_sign
strict_signs d = is_signed-jwt_if (is_textual (get "iss" d))

abbrev strict_platform : Platform
strict_platform = record platform { sign = strict_sign }

serves_strictly :
    dispatch strict_platform (token_context sample_config asking "web") fresh
    ≡ (fresh, next service_outcome)
unfolding dispatch grant_client_credentials without_openid get_user get_client get check_grant_scope
    scope_enforcement_active resolve_scope split join sorted_set resolve_token_resource
serves_strictly = refl

-- An `exp` of the caller's.
delivers :
    Issued strict_platform draws "http://idp" sample_config asking "web" 5
      (("exp", num 7) ∷ [])
      fresh
      fresh
delivers =
    issue-Issued strict_platform draws "http://idp" sample_config asking "web" 5
      (("exp", num 7) ∷ []) fresh fresh service_outcome strict_signs (unfold get in (refl, tt))
      (λ e. cc) serves_strictly

-- An `iss` of the caller's that is a number, and an `exp`.
issue-Issued_example :
    Issued strict_platform draws "http://idp" sample_config asking "web" 5
      (("exp", num 7) ∷ ("iss", num 1) ∷ [])
      fresh
      fresh
issue-Issued_example =
    issue-Issued strict_platform draws "http://idp" sample_config asking "web" 5
      (("exp", num 7) ∷ ("iss", num 1) ∷ []) fresh fresh service_outcome strict_signs
      (unfold get in (refl, (refl, tt))) (λ e. cc) serves_strictly

payload_of-refresh_claims_example :
    payload_of no_float (refresh_claims same shown sample_config 5000000 draws first)
    ≡ remembered 5000000 draws first
payload_of-refresh_claims_example =
    payload_of-refresh_claims same shown sample_config 5000000 draws first no_float

abbrev spending : GrantContext
spending =
    token_context sample_config
      (posted (("grant_type", "refresh_token") ∷ ("refresh_token", "jwt") ∷ [])) "web"

access_token_presented_example :
    (presented_token any_text same as_access_token spending fresh ≡ (
      fresh,
      next (payload_of no_float (access_claims same shown sample_config 5000000 draws first)),
    ))
    × (get "token_use" (access_claims same shown sample_config 5000000 draws first)
        ≡ some (str "access"))
access_token_presented_example =
    access_token_presented any_text same as_access_token spending same shown 5000000 draws first
      no_float fresh (λ e. cc) refl (unfold get in (refl, tt)) (unfold get in refl) (λ e. cc) refl

known : get_user sample_config "alice" ≡ some alice
unfolding get_user get
known = refl

fits : ScopeFits spending (get_client sample_config "web") (or_none first.scope)
unfolding get_client split
fits = λ on. inr (refl, inr refl)

unclaimed :
    (claim any_text same as_refresh_token spending (remembered 5000000 draws first) fresh).1 ≡ false
unfolding check_and_claim_refresh sweep keys_where remove_all get
unclaimed = refl

refresh_token_renews_example : grant_refresh_token any_text same as_refresh_token spending fresh ≡ (
  record fresh {
    revocations =
        (claim any_text same as_refresh_token spending (remembered 5000000 draws first) fresh).0;
  },
  next (renewed any_text same as_refresh_token spending same shown 5000000 draws first),
)
refresh_token_renews_example =
    refresh_token_renews any_text same as_refresh_token spending same shown 5000000 draws first
      no_float fresh (λ e. cc) refl (λ e. cc) refl (λ e. cc) known refl refl refl fits unclaimed
