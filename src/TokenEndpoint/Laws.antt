-- ===== src/TokenEndpoint/Laws.antt =====
-- The token endpoint (src/nanoidp/routes/oauth.py): what comes before the dispatch to a grant handler,
-- and what follows it.
use nanoidp.Prelude.{
  ℕ, ◌≤◌, String, ◌≡◌, ◌≢◌, refl, false, Option, none, some, arith, ◌==◌, eq_iff, Bool-cases, inl,
  inr,
}
use nanoidp.Dict.{Dict}
use nanoidp.Json.{Json, null, bool, num, str, arr, obj}
use nanoidp.Config.{ConfigManager}
use nanoidp.Response.{OAuthError}
use nanoidp.ClientAuth.{
  Request, form_get, request_client_identity, TokenAuth, proceed, public_client_credentials, failed,
  enforce_token_endpoint_auth,
}
use nanoidp.ClientAuth.Laws.{Admitted, enforce_token_endpoint_auth-Admitted}
use nanoidp.Token.Mint.{Draws}
use nanoidp.Grants.Monad.{IdpState, next, answer, ◌>>=◌}
use nanoidp.Grants.Defs.{GrantContext}
use nanoidp.Grants.Laws.{Verdict, passes, rejects, SameStores}
use nanoidp.TokenEndpoint.{
  ℤ, pos, negsuc, in_range, identify_client, named_client, given_exp, given_extra, answer_auth,
  authenticate_client, check_exp, check_extra, token_context, Platform, exp_minutes, extra_claims,
  dispatch, issue, serve_client, token,
}

-- The request names this client, and no other.
abbrev pub Names : Request → String → Type 0
Names r client_id =
    ((request_client_identity r).client_id ≡ some client_id)
    × (client_id ≢ "")
    × ((request_client_identity r).mismatch ≡ false)

named_client-Verdict :
    (r : Request) (o : Option String) (s : IdpState)
    → (request_client_identity r).client_id ≡ o
    → Verdict (Names r) s (named_client r o s)
named_client-Verdict r none s e = rejects _ _ refl (refl, refl, refl)
named_client-Verdict r (some client_id) s e = elim (Bool-cases (client_id == "")) [
  | inl blank ↦ rw blank (rejects _ _ refl (refl, refl, refl))
  | inr given ↦ rw given (elim (Bool-cases (request_client_identity r).mismatch) [
    | inl two ↦ rw two (rejects _ _ refl (refl, refl, refl))
    | inr one ↦ rw one (passes client_id refl (e, ground (arith, given, eq_iff client_id ""), one))
  ])
]

identify_client-Verdict : (r : Request) (s : IdpState) → Verdict (Names r) s (identify_client r s)
unfolding identify_client
identify_client-Verdict r s = named_client-Verdict r (request_client_identity r).client_id s refl

answer_auth-Verdict :
    (ctx : GrantContext) (a : TokenAuth) (s : IdpState)
    → Verdict (λ u. a ≡ proceed) s (answer_auth ctx a s)
answer_auth-Verdict ctx proceed s = passes tt refl refl
answer_auth-Verdict ctx public_client_credentials s = rejects _ _ refl (refl, refl, refl)
answer_auth-Verdict ctx (failed text) s = rejects _ _ refl (refl, refl, refl)

authenticate_client-Verdict :
    (ctx : GrantContext) (s : IdpState)
    → Verdict
        (λ u.
          enforce_token_endpoint_auth ctx.config ctx.grant_type
            (request_client_identity ctx.request).auth
            ctx.client_id
            (request_client_identity ctx.request).body_client_secret
          ≡ proceed)
        s
        (authenticate_client ctx s)
unfolding authenticate_client
authenticate_client-Verdict ctx s = answer_auth-Verdict ctx _ s

check_exp-Verdict :
    (ctx : GrantContext) (o : Option ℤ) (s : IdpState)
    → Verdict (λ n. (1 ≤ n) × (n ≤ 1440)) s (check_exp ctx o s)
check_exp-Verdict ctx none s = rejects _ _ refl (refl, refl, refl)
check_exp-Verdict ctx (some (negsuc n)) s = rejects _ _ refl (refl, refl, refl)
check_exp-Verdict ctx (some (pos n)) s = elim (Bool-cases (in_range (pos n))) [
  | inl fits ↦ rw fits (passes n refl (ground (arith, fits), ground (arith, fits)))
  | inr beyond ↦ rw beyond (rejects _ _ refl (refl, refl, refl))
]

check_extra-Verdict :
    (ctx : GrantContext) (o : Option Json) (s : IdpState)
    → Verdict (λ d. Unit {0}) s (check_extra ctx o s)
check_extra-Verdict ctx none s = rejects _ _ refl (refl, refl, refl)
check_extra-Verdict ctx (some null) s = rejects _ _ refl (refl, refl, refl)
check_extra-Verdict ctx (some (bool b)) s = rejects _ _ refl (refl, refl, refl)
check_extra-Verdict ctx (some (num n)) s = rejects _ _ refl (refl, refl, refl)
check_extra-Verdict ctx (some (str t)) s = rejects _ _ refl (refl, refl, refl)
check_extra-Verdict ctx (some (arr a)) s = rejects _ _ refl (refl, refl, refl)
check_extra-Verdict ctx (some (obj o)) s = passes _ refl tt

module _ (p : Platform) where
  given_exp-Verdict :
      (ctx : GrantContext) (o : Option String) (s : IdpState)
      → Verdict (λ n. (1 ≤ n) × (n ≤ 1440)) s (given_exp p ctx o s)
  given_exp-Verdict ctx none s =
      check_exp-Verdict ctx (some (pos ctx.config.settings.token_expiry_minutes)) s
  given_exp-Verdict ctx (some text) s = check_exp-Verdict ctx (p.parse_int text) s

  exp_minutes-Verdict :
      (ctx : GrantContext) (s : IdpState)
      → Verdict (λ n. (1 ≤ n) × (n ≤ 1440)) s (exp_minutes p ctx s)
  unfolding exp_minutes
  exp_minutes-Verdict ctx s = given_exp-Verdict ctx (form_get "exp" ctx.request.form) s

  given_extra-Verdict :
      (ctx : GrantContext) (o : Option String) (s : IdpState)
      → Verdict (λ d. Unit {0}) s (given_extra p ctx o s)
  given_extra-Verdict ctx none s = passes _ refl tt
  given_extra-Verdict ctx (some text) s = elim (Bool-cases (text == "")) [
    | inl blank ↦ rw blank (passes _ refl tt)
    | inr given ↦ rw given (check_extra-Verdict ctx (p.loads text) s)
  ]

  extra_claims-Verdict :
      (ctx : GrantContext) (s : IdpState) → Verdict (λ d. Unit {0}) s (extra_claims p ctx s)
  unfolding extra_claims
  extra_claims-Verdict ctx s = given_extra-Verdict ctx (form_get "extra" ctx.request.form) s

  module _ (draws : Draws) (candidate : String) (config : ConfigManager) (r : Request) where
    -- How far a request comes: it is answered with the stores as they were, or a client that it alone
    -- names, admitted, with a lifetime in range, reaches the grant handler in the state as it was.
    pub data Reached (s : IdpState) : Type 0 where
      refused :
          (t : IdpState) (x : OAuthError)
          → token p draws candidate config r s ≡ (t, answer x)
          → SameStores s t
          → Reached s
      served :
          (client_id : String) (minutes : ℕ) (extra : Dict Json)
          → Names r client_id
          → Admitted config (token_context config r client_id).grant_type client_id r
          → 1 ≤ minutes
          → minutes ≤ 1440
          → token p draws candidate config r s
            ≡ (dispatch p (token_context config r client_id)
                  >>= issue p draws candidate (token_context config r client_id) minutes extra)
                s
          → Reached s

    reached_dispatch :
        (s : IdpState) (client_id : String)
        → Names r client_id
        → identify_client r s ≡ (s, next client_id)
        → Reached s
    unfolding token serve_client request_client_identity
    reached_dispatch s client_id named q =
        let ctx = token_context config r client_id in
        elim (authenticate_client-Verdict ctx s) [
          | rejects t x e k ↦ refused t x (rw (q, e) refl) k
          | passes u e fine ↦ elim (exp_minutes-Verdict ctx s) [
            | rejects t x f k ↦ refused t x (rw (q, e, f) refl) k
            | passes n f (low, high) ↦ elim (extra_claims-Verdict ctx s) [
              | rejects t x g k ↦ refused t x (rw (q, e, f, g) refl) k
              | passes d g plain ↦
                  served client_id n d named
                    (enforce_token_endpoint_auth-Admitted config ctx.grant_type client_id r named.2
                      named.0 fine)
                    low high (rw (q, e, f, g) refl)
            ]
          ]
        ]

    -- Every token request is answered with the code, device and revocation stores as they were, or it
    -- reaches the handler of its grant in the state as it was: then it names one client, that client is
    -- admitted, and the lifetime asked for is between 1 and 1440 minutes.
    pub token-Reached : (s : IdpState) → Reached s
    unfolding token
    token-Reached s = elim (identify_client-Verdict r s) [
      | rejects t x e k ↦ refused t x (rw e refl) k
      | passes client_id e named ↦ reached_dispatch s client_id named e
    ]
