-- ===== src/AuthCode/Tests.antt =====
-- Runs of the authorization code store on concrete codes.
use nanoidp.Prelude.{◌≤◌, ◌≡◌, ◌↔◌, refl, String, true, none, some, [], ◌∷◌, arith, eq_iff}
use nanoidp.Dict.{get, put, keys_where, remove_all}
use nanoidp.AuthCode.{
  AuthorizationCode, AuthCodeStore, CodeRequest, empty, create_code, cleanup_expired, get_code_info,
  consume_code, authorization_code, mark_used, granted, refused, verified, check_pkce, verify_pkce,
}
use nanoidp.AuthCode.Laws.{
  IsWellFormed, IsRedeemable, create_code-IsWellFormed, consume_code-granted_iff,
}
use nanoidp.AuthCode.Pkce.{consume-create}
use nanoidp.AuthCode.Trace
use nanoidp.AuthCode.Trace.{
  Call, redemptions, run, never_creates, redemptions-le-one, run-IsWellFormed,
}

-- A digest that tells texts apart by their whole value.
abbrev digest : String → String
digest v = v

abbrev request : CodeRequest
request = record {
  client_id = "web";
  redirect_uri = "https://app/cb";
  username = "alice";
  scope = "openid";
  code_challenge = some "verifier";
  code_challenge_method = some "S256";
  nonce = none;
  state = none;
  claims = none;
  resource = none;
}

empty-IsWellFormed : IsWellFormed empty
unfolding get
empty-IsWellFormed = record { unique = tt; named = λ k c h. cc; timed = λ k c h. cc }

abbrev stored : AuthCodeStore
stored = create_code 100 "c1" request empty

stored-IsWellFormed : IsWellFormed stored
stored-IsWellFormed = create_code-IsWellFormed 100 "c1" request empty empty-IsWellFormed

abbrev redeem : Call
redeem = Trace.consume 200 "c1" "web" "https://app/cb" (some "verifier")

-- The store after the redemption, and the second call.
abbrev marked : AuthCodeStore
marked = (consume_code digest 200 "c1" "web" "https://app/cb" (some "verifier") stored).0

redeem_first :
    (consume_code digest 200 "c1" "web" "https://app/cb" (some "verifier") stored).1
    ≡ granted (mark_used (authorization_code 100 "c1" request))
unfolding consume_code check_pkce verify_pkce create_code cleanup_expired get put keys_where
    remove_all
redeem_first = refl

redeem_again :
    (consume_code digest 200 "c1" "web" "https://app/cb" (some "verifier") marked).1 ≡ refused
unfolding consume_code check_pkce verify_pkce create_code cleanup_expired get put keys_where
    remove_all
redeem_again = refl

redemptions-le-one_example : redemptions digest "c1" (redeem ∷ redeem ∷ []) stored ≤ 1
redemptions-le-one_example =
    redemptions-le-one digest "c1" (redeem ∷ redeem ∷ []) stored stored-IsWellFormed refl

consume_code-granted_iff_example :
    ((consume_code digest 200 "c1" "web" "https://app/cb" (some "verifier") stored).1
      ≡ granted (mark_used (authorization_code 100 "c1" request)))
    ↔ ((c : AuthorizationCode) × (get_code_info "c1" stored ≡ some c)
        × IsRedeemable digest 200 "web" "https://app/cb" (some "verifier") c
        × (mark_used (authorization_code 100 "c1" request) ≡ mark_used c))
consume_code-granted_iff_example =
    consume_code-granted_iff digest 200 "c1" "web" "https://app/cb" (some "verifier") stored
      (mark_used (authorization_code 100 "c1" request))

stored_entry : get_code_info "c1" stored ≡ some (authorization_code 100 "c1" request)
unfolding create_code cleanup_expired get_code_info get put keys_where remove_all
stored_entry = refl

other_client :
    ¬ IsRedeemable digest 200 "spa" "https://app/cb"
      (some "verifier")
      (authorization_code 100 "c1" request)
other_client r = cc ((eq_iff "web" "spa").1 r.same_client)

proved : check_pkce digest (authorization_code 100 "c1" request) (some "verifier") ≡ verified true
unfolding check_pkce verify_pkce
proved = refl

consume-create_example :
    (consume_code digest 300 "c1" "web" "https://app/cb"
      (some "verifier")
      (create_code 100 "c1" request empty)).1
    ≡ granted (mark_used (authorization_code 100 "c1" request))
consume-create_example =
    consume-create digest 100 300 "c1" request (some "verifier") empty empty-IsWellFormed
      (omega arith) proved
