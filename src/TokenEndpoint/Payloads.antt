-- ===== src/TokenEndpoint/Payloads.antt =====
-- What the refresh grant (src/nanoidp/routes/oauth_grants.py) reads of the claims that `create_token`
-- (src/nanoidp/services/token.py) signed.
use nanoidp.Prelude.{
  ℕ, ◌+◌, ◌*◌, ◌/◌, String, ◌≡◌, refl, ap, ◌∙◌, false, Option, none, some, List, [], ◌∷◌, arith,
  ◌==◌, if◌then◌else◌, is_none, or_none, elem,
}
use nanoidp.Dict.{Dict, get}
use nanoidp.Dict.Laws.{first_of, text_value, get-put, get-put_text, first_of-none}
use nanoidp.Json.{Json, null, bool, num, str, arr, obj, texts}
use nanoidp.Config.{ConfigManager}
use nanoidp.Revocation.{numeric, second}
use nanoidp.Token.{text_items, sanitize_claim_names}
use nanoidp.Token.Mint.{
  always_claims, refresh_jwt, registered_claims, TokenRequest, Draws, refresh_extra, refresh_claims,
  items_of, or_text, effective_auth_time,
}
use nanoidp.Token.Claims.{
  names_value, number_value, get-put_names, get-put_number, get-put_list, list_value,
  refresh_extra-HasUniqueKeys, get-create_jwt, get-registered, get-unregistered,
}
use nanoidp.Endpoints.{expiry_claim}
use nanoidp.Grants.Defs.{Payload, some_items}

abbrev text_of : Option Json → Option String
text_of none = none
text_of (some null) = none
text_of (some (bool b)) = none
text_of (some (num n)) = none
text_of (some (str s)) = some s
text_of (some (arr a)) = none
text_of (some (obj o)) = none

abbrev number_of : Option Json → Option ℕ
number_of none = none
number_of (some null) = none
number_of (some (bool b)) = none
number_of (some (num n)) = some n
number_of (some (str s)) = none
number_of (some (arr a)) = none
number_of (some (obj o)) = none

abbrev list_of : Option Json → Option (List String)
list_of none = none
list_of (some null) = none
list_of (some (bool b)) = none
list_of (some (num n)) = none
list_of (some (str s)) = none
list_of (some (arr a)) = some (text_items a)
list_of (some (obj o)) = none

-- The reads `payload.get(…)` of the refresh grant, its `float` of a text `exp` an argument.
unfoldable pub payload_of : (String → Option ℕ) → Dict Json → Payload
payload_of to_float d = record {
  token_type = text_of (get "token_type" d);
  client_id = text_of (get "client_id" d);
  sub = text_of (get "sub" d);
  scope = text_of (get "scope" d);
  auth_time = number_of (get "auth_time" d);
  req_id_token_claims = get "req_id_token_claims" d;
  req_userinfo_claims = get "req_userinfo_claims" d;
  rt_family = text_of (get "rt_family" d);
  jti = text_of (get "jti" d);
  exp = expiry_claim to_float (get "exp" d);
  resource = list_of (get "resource" d);
}

abbrev pub resources_of : TokenRequest → List String
resources_of r = items_of (if is_none r.refresh_resource then r.resource else r.refresh_resource)

ruleset claim_laws = (get-put, get-put_list, get-put_text, get-put_names, get-put_number)

module _ (now : ℕ) (family : String) (r : TokenRequest) where
  extra_token_type : get "token_type" (refresh_extra now family r) ≡ some (str "refresh")
  unfolding refresh_extra get
  extra_token_type = simp claim_laws

  extra_client_id : get "client_id" (refresh_extra now family r) ≡ text_value r.client_id
  unfolding refresh_extra get
  extra_client_id = simp (claim_laws, first_of-none)

  extra_scope : get "scope" (refresh_extra now family r) ≡ text_value r.scope
  unfolding refresh_extra get
  extra_scope = simp (claim_laws, first_of-none)

  extra_auth_time :
      get "auth_time" (refresh_extra now family r) ≡ number_value (effective_auth_time now r)
  unfolding refresh_extra get
  extra_auth_time = simp (claim_laws, first_of-none)

  extra_req_id_token_claims :
      get "req_id_token_claims" (refresh_extra now family r)
      ≡ names_value (sanitize_claim_names r.id_token_claims)
  unfolding refresh_extra get
  extra_req_id_token_claims = simp (claim_laws, first_of-none)

  extra_req_userinfo_claims :
      get "req_userinfo_claims" (refresh_extra now family r)
      ≡ names_value (sanitize_claim_names r.userinfo_claims)
  unfolding refresh_extra get
  extra_req_userinfo_claims = simp (claim_laws, first_of-none)

  extra_rt_family :
      get "rt_family" (refresh_extra now family r) ≡ some (str (or_text r.refresh_family family))
  unfolding refresh_extra get
  extra_rt_family = get-put "rt_family" "rt_family" _ _

  extra_resource : get "resource" (refresh_extra now family r) ≡ list_value (resources_of r)
  unfolding refresh_extra get
  extra_resource = simp (claim_laws, first_of-none)

  extra_sub : get "sub" (refresh_extra now family r) ≡ none
  unfolding refresh_extra get
  extra_sub = simp claim_laws

  extra_jti : get "jti" (refresh_extra now family r) ≡ none
  unfolding refresh_extra get
  extra_jti = simp claim_laws

  extra_aud : get "aud" (refresh_extra now family r) ≡ none
  unfolding refresh_extra get
  extra_aud = simp claim_laws

  extra_exp : get "exp" (refresh_extra now family r) ≡ none
  unfolding refresh_extra get
  extra_exp = simp claim_laws

text_of-text_value : (o : Option String) → text_of (text_value o) ≡ or_none o
text_of-text_value none = refl
text_of-text_value (some s) = ground arith

number_of-number_value : (o : Option ℕ) → number_of (number_value o) ≡ o
number_of-number_value none = refl
number_of-number_value (some n) = refl

text_items-texts : (xs : List String) → text_items (texts xs) ≡ xs
text_items-texts [] = refl
text_items-texts (x ∷ xs) = ap (λ ys. x ∷ ys) (text_items-texts xs)

list_of-list_value : (xs : List String) → list_of (list_value xs) ≡ some_items xs
list_of-list_value [] = refl
list_of-list_value (x ∷ xs) = ap some (text_items-texts (x ∷ xs))

-- What a refresh token is to remember of the request that it was minted for.
abbrev pub remembered : ℕ → Draws → TokenRequest → Payload
remembered now draws r = record {
  token_type = some "refresh";
  client_id = or_none r.client_id;
  sub = some r.user.username;
  scope = or_none r.scope;
  auth_time = effective_auth_time now r;
  req_id_token_claims = names_value (sanitize_claim_names r.id_token_claims);
  req_userinfo_claims = names_value (sanitize_claim_names r.userinfo_claims);
  rt_family = some (or_text r.refresh_family draws.family);
  jti = some draws.refresh_jti;
  exp = numeric ((now + 7 * 24 * 60 * (60 * second)) / second * second);
  resource = some_items (resources_of r);
}

module _ (upper : String → String) (show : Json → String) (config : ConfigManager) (now : ℕ)
    (draws : Draws) (r : TokenRequest) where
  from_extra :
      (j : String) (v : Option Json)
      → ("tenant" == j) ≡ false
      → ("roles" == j) ≡ false
      → elem j ("jti" ∷ "iss" ∷ "sub" ∷ "aud" ∷ "iat" ∷ "nbf" ∷ "exp" ∷ []) ≡ false
      → get j (refresh_extra now draws.family r) ≡ v
      → get j (refresh_claims upper show config now draws r) ≡ v
  unfolding refresh_claims
  from_extra j v t q m own =
      get-create_jwt j now _ (refresh_extra-HasUniqueKeys now draws.family r) refl
      ∙ (ap (first_of _) (get-unregistered j now _ t q m) ∙ (first_of-none _ ∙ own))

  registered :
      (j : String)
      → ("tenant" == j) ≡ false
      → ("roles" == j) ≡ false
      → get j (refresh_extra now draws.family r) ≡ none
      → get j (refresh_claims upper show config now draws r)
        ≡ get j (always_claims now (refresh_jwt upper show config now draws r))
  unfolding refresh_claims
  registered j t q missing =
      let request = refresh_jwt upper show config now draws r in
      get-create_jwt j now request (refresh_extra-HasUniqueKeys now draws.family r) refl
      ∙ (ap (λ o. first_of o (get j (registered_claims now request))) missing
          ∙ get-registered j now request t q)

  pub get-audience :
      get "aud" (refresh_claims upper show config now draws r) ≡ some (str config.settings.audience)
  unfolding get
  get-audience = registered "aud" refl refl (extra_aud now draws.family r)

  -- What the refresh grant reads of a minted refresh token is what the call was to remember: the
  -- client, the user, the scope, the time of the authentication, the claims asked for, the rotation
  -- family and the full list of resources, next to its id and an expiry seven days ahead.
  pub payload_of-refresh_claims :
      (to_float : String → Option ℕ)
      → payload_of to_float (refresh_claims upper show config now draws r) ≡ remembered now draws r
  unfolding payload_of get
  payload_of-refresh_claims to_float =
      let family = draws.family in
      rw
        (
          from_extra "token_type" _ refl refl refl (extra_token_type now family r),
          from_extra "client_id" _ refl refl refl (extra_client_id now family r),
          from_extra "scope" _ refl refl refl (extra_scope now family r),
          from_extra "auth_time" _ refl refl refl (extra_auth_time now family r),
          from_extra "req_id_token_claims" _ refl refl refl
              (extra_req_id_token_claims now family r),
          from_extra "req_userinfo_claims" _ refl refl refl
              (extra_req_userinfo_claims now family r),
          from_extra "rt_family" _ refl refl refl (extra_rt_family now family r),
          from_extra "resource" _ refl refl refl (extra_resource now family r),
          registered "sub" refl refl (extra_sub now family r),
          registered "jti" refl refl (extra_jti now family r),
          registered "exp" refl refl (extra_exp now family r),
          text_of-text_value r.client_id,
          text_of-text_value r.scope,
          number_of-number_value (effective_auth_time now r),
          list_of-list_value (resources_of r),
        )
        refl
