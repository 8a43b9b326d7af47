-- ===== src/Grants/CodeLaws.antt =====
-- The authorization_code grant (src/nanoidp/routes/oauth_grants.py).
use nanoidp.Prelude.{
  ◌/◌, String, ◌≡◌, refl, subst, Bool, true, Option, some, List, Bool-cases, inl, inr, ◌⊎◌, is_text,
}
use nanoidp.Models.{User}
use nanoidp.Config.{get_user, get_client}
use nanoidp.AuthCode
use nanoidp.AuthCode.{
  AuthorizationCode, AuthCodeStore, Consumed, get_code_info, mark_used, consume_code,
}
use nanoidp.AuthCode.Laws.{IsRedeemable, consume_code-granted_iff}
use nanoidp.DeviceCode.{second}
use nanoidp.ClientAuth.{form_get}
use nanoidp.Grants.Monad.{IdpState, next, raised, Action, pure, ◌>>=◌}
use nanoidp.Grants.Defs.{
  GrantContext, GrantOutcome, outcome, field_or_blank, or_nil, some_items, check_grant_scope,
  resolve_token_resource,
}
use nanoidp.Grants.Refresh.{found_user}
use nanoidp.Grants.Redeem.{id_token_names, userinfo_names, grant_authorization_code}
use nanoidp.Grants.Laws.{
  passes, rejects, ScopeFits, ResourcesFit, check_grant_scope-Verdict,
  resolve_token_resource-Verdict, answer_next, next_injective,
}
use nanoidp.Grants.RefreshChecks.{found_user-Verdict}

Consumed-cases :
    (r : Consumed)
    → ((c : AuthorizationCode) × (r ≡ AuthCode.granted c))
      ⊎ ((r ≡ AuthCode.refused) ⊎ (r ≡ AuthCode.raised))
Consumed-cases (AuthCode.granted c) = inl (c, refl)
Consumed-cases AuthCode.refused = inr (inl refl)
Consumed-cases AuthCode.raised = inr (inr refl)

raised_next : {A : Type 0} {a : A} → raised ≡ next a → ⊥
raised_next h = cc

module _ (is_valid : String → Bool) (repr : String → String) (s256 : String → String)
    (ctx : GrantContext) where
  -- The redemption that the request asks for.
  abbrev pub redemption : IdpState → AuthCodeStore × Consumed
  redemption s =
      consume_code s256 ctx.request.transport.now (field_or_blank ctx "code") ctx.client_id
        (field_or_blank ctx "redirect_uri") (form_get "code_verifier" ctx.request.form) s.codes

  -- What the grant issues for a code.
  pub record IsIssued (c : AuthorizationCode) (o : GrantOutcome) : Type 0 where
    pub known : get_user ctx.config c.username ≡ some o.user
    pub scope : o.scope ≡ some c.scope
    pub fits : ScopeFits ctx (get_client ctx.config ctx.client_id) o.scope
    pub resources :
        ResourcesFit is_valid repr
          (get_client ctx.config ctx.client_id)
          (some (or_nil c.resource))
          o.resource
    pub nonce : o.nonce ≡ c.nonce
    pub since : o.auth_time ≡ some (c.created_at / second)

  abbrev issued : AuthorizationCode → User → Option String → Option (List String) → GrantOutcome
  issued code user scope resource = (record (outcome user code.username) {
    nonce = code.nonce;
    scope = scope;
    auth_time = some (code.created_at / second);
    id_token_claims = id_token_names code.claims;
    userinfo_claims = userinfo_names code.claims;
    resource = resource;
    refresh_resource = some_items (or_nil code.resource);
  })

  -- The grant once the code is consumed.
  abbrev issue : AuthorizationCode → Action GrantOutcome
  issue code = do
    user ← found_user ctx code.username (get_user ctx.config code.username)
    let client = get_client ctx.config ctx.client_id
    scope ← check_grant_scope ctx (some code.username) client (some code.scope) true
    resource ← resolve_token_resource is_valid repr ctx client (some (or_nil code.resource))
    pure (issued code user scope resource)

  issue_next :
      (c : AuthorizationCode) (s : IdpState) (o : GrantOutcome)
      → (issue c s).1 ≡ next o
      → IsIssued c o × ((issue c s).0 ≡ s)
  issue_next c s o h = elim (found_user-Verdict ctx c.username (get_user ctx.config c.username) s) [
    | rejects t e r k ↦ absurd (answer_next (rw r at h))
    | passes u r known ↦
        elim (check_grant_scope-Verdict ctx (some c.username) (get_client ctx.config ctx.client_id)
          (some c.scope) s) [
            | rejects t e q k ↦ absurd (answer_next (rw (r, q) at h))
            | passes v q (same, fits) ↦
                elim (resolve_token_resource-Verdict is_valid repr ctx
                  (get_client ctx.config ctx.client_id) (or_nil c.resource) s) [
                    | rejects t e q' k ↦ absurd (answer_next (rw (r, q, q') at h))
                    | passes x q' fit ↦
                        let done : issued c u v x ≡ o = next_injective (rw (r, q, q') at h) in
                        (
                          subst (IsIssued c) done (record {
                            known = known;
                            scope = same;
                            fits = fits;
                            resources = fit;
                            nonce = refl;
                            since = refl;
                          }),
                          rw (r, q, q') refl,
                        )
                  ]
          ]
  ]

  -- A code grant that succeeds redeemed a stored code that was alive, unused, issued to the client for
  -- the redirect URI, and proved by the PKCE verifier; it issues for the user of the code, who is
  -- still configured, the scope of the code, which the client may still have, and resources within
  -- those of the code; and all that it changes is the redemption.
  pub code_grants :
      (s : IdpState) (o : GrantOutcome)
      → (grant_authorization_code is_valid repr s256 ctx s).1 ≡ next o
      → (c : AuthorizationCode) × (get_code_info (field_or_blank ctx "code") s.codes ≡ some c)
        × IsRedeemable s256 ctx.request.transport.now ctx.client_id
            (field_or_blank ctx "redirect_uri")
            (form_get "code_verifier" ctx.request.form)
            c
        × IsIssued c o
        × ((grant_authorization_code is_valid repr s256 ctx s).0
            ≡ record s { codes = (redemption s).0 })
  unfolding grant_authorization_code
  code_grants s o h = elim (Bool-cases (is_text (field_or_blank ctx "code"))) [
    | inr blank ↦ absurd (answer_next (rw blank at h))
    | inl coded ↦ elim (Bool-cases (is_text (field_or_blank ctx "redirect_uri"))) [
      | inr blank ↦ absurd (answer_next (rw (coded, blank) at h))
      | inl placed ↦ elim (Consumed-cases (redemption s).1) [
        | inr (inl e) ↦ absurd (answer_next (rw (coded, placed, e) at h))
        | inr (inr e) ↦ absurd (raised_next (rw (coded, placed, e) at h))
        | inl (c', e) ↦
            let (c, stored, fair, marked) =
              (consume_code-granted_iff s256 ctx.request.transport.now (field_or_blank ctx "code")
                  ctx.client_id (field_or_blank ctx "redirect_uri")
                  (form_get "code_verifier" ctx.request.form) s.codes c').0
                e in
            let (done, left) =
              issue_next c' (record s { codes = (redemption s).0 }) o
                (rw (coded, placed, e) at h) in
            (c, stored, fair, of_marked c c' o marked done, rw (coded, placed, e) left)
      ]
    ]
  ]
    where
      of_marked :
          (c c' : AuthorizationCode) (o : GrantOutcome)
          → c' ≡ mark_used c
          → IsIssued c' o
          → IsIssued c o
      of_marked c c' o m d =
          let d' : IsIssued (mark_used c) o = subst (λ x. IsIssued x o) m d in
          record {
            known = d'.known;
            scope = d'.scope;
            fits = d'.fits;
            resources = d'.resources;
            nonce = d'.nonce;
            since = d'.since;
          }
