-- ===== src/Token/Tests.antt =====
-- The tokens of a concrete request.
use nanoidp.Prelude.{
  String, ◌≡◌, ◌≢◌, refl, true, false, leb, length, elem, none, some, [], ◌∷◌, if◌then◌else◌,
}
use nanoidp.Dict.{get, put, put_if, put_new, put_text, update}
use nanoidp.Dict.Laws.{text_value}
use nanoidp.Json.{Json, str, arr, texts}
use nanoidp.Config.{ConfigManager, get_client}
use nanoidp.Samples.{alice, web, sample_config, sample_settings}
use nanoidp.Token.{
  sanitize_claim_names, resolve_user_claim, build_authorities, audience_from,
  resolve_id_token_audience,
}
use nanoidp.Token.Mint.{
  TokenRequest, Draws, access_claims, id_claims, id_extra, offer_all, create_jwt, registered_claims,
}
use nanoidp.Token.Claims.{names_value}
use nanoidp.Token.Laws.{
  access_claims_authoritative, id_claims_reserved, resolve_id_token_audience-client,
}

abbrev same : String → String
same s = s

abbrev shown : Json → String
shown j = "x"

abbrev draws : Draws
draws = record { access_jti = "a"; id_jti = "i"; refresh_jti = "r"; family = "f" }

-- A request whose caller tries to set the scope, and whose client asks for claims.
abbrev pub asked : TokenRequest
asked = record {
  user = alice;
  exp_minutes = some 5;
  extra_claims =
      ("scope", str "admin") ∷ ("token_use", str "id") ∷ ("token_type", str "refresh") ∷ [];
  nonce = some "n";
  scope = some "openid";
  client_id = some "web";
  auth_time = none;
  refresh_family = none;
  id_token_claims = some (arr (texts ("aud" ∷ "email" ∷ [])));
  userinfo_claims = none;
  issuer = none;
  issue_refresh_token = some true;
  resource = none;
  refresh_resource = none;
}

-- A client whose ID Tokens are for another party, too.
abbrev partner : ConfigManager
partner = record sample_config {
  settings = record sample_settings {
    clients = (record web { additional_audiences = "idp" ∷ "other" ∷ [] }) ∷ [];
  };
}

access_claims_authoritative_example :
    (get "token_use" (access_claims same shown sample_config 10 draws asked) ≡ some (str "access"))
    × (get "scope" (access_claims same shown sample_config 10 draws asked) ≡ text_value asked.scope)
    × (get "req_userinfo_claims" (access_claims same shown sample_config 10 draws asked)
        ≡ names_value (sanitize_claim_names asked.userinfo_claims))
access_claims_authoritative_example =
    access_claims_authoritative same shown sample_config 10 draws asked

id_claims_reserved_example :
    get "aud" (id_claims same shown sample_config 10 draws "h" asked)
    ≡ get "aud"
        (id_claims same shown sample_config 10 draws "h" (record asked { id_token_claims = none }))
id_claims_reserved_example =
    id_claims_reserved same shown sample_config 10 draws "h" "aud" asked refl

resolve_id_token_audience-client_example :
    (elem "web" (resolve_id_token_audience partner (some "web")).0 ≡ true)
    × (partner.settings.audience ≢ "web"
        → elem partner.settings.audience (resolve_id_token_audience partner (some "web")).0 ≡ false)
    × ((resolve_id_token_audience partner (some "web")).1 ≡ (
        if leb (length (resolve_id_token_audience partner (some "web")).0) 1
        then none
        else some "web"))
resolve_id_token_audience-client_example = resolve_id_token_audience-client partner "web" (λ e. cc)

audience : resolve_id_token_audience partner (some "web") ≡ ("web" ∷ "other" ∷ [], some "web")
unfolding resolve_id_token_audience get_client audience_from
audience = refl

authorities : build_authorities same shown [] alice ≡ "ROLE_ADMIN" ∷ []
unfolding build_authorities get
authorities = refl

requested :
    get "email" (id_claims same shown sample_config 10 draws "h" asked)
    ≡ some (str "alice@example.org")
unfolding id_claims id_extra offer_all create_jwt registered_claims resolve_id_token_audience
    audience_from get_client sanitize_claim_names resolve_user_claim put put_if put_new put_text
    update get
requested = refl
