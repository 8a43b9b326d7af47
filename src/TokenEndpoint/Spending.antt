-- ===== src/TokenEndpoint/Spending.antt =====
-- Whether a minted token can be spent at the refresh grant (src/nanoidp/services/token.py,
-- src/nanoidp/routes/oauth_grants.py).
use nanoidp.Prelude.{
  ℕ, String, ◌≡◌, ◌≢◌, refl, ap, ◌∙◌, Bool, true, false, Option, none, some, [], arith, eq_iff,
  eq_refl, Bool-cases, inl, inr, is_text, is_given, or_none,
}
use nanoidp.Dict.{get, HasUniqueKeys}
use nanoidp.Json.{Json, str}
use nanoidp.Models.{OAuthClient, scope_enforcement_active}
use nanoidp.Config.{get_user, get_client}
use nanoidp.Scope.{resolve_scope}
use nanoidp.Scope.Laws.{resolve_scope-granted, resolve_scope-ok_iff}
use nanoidp.ClientAuth.{form_get, form_getlist}
use nanoidp.Token.Mint.{TokenRequest, Draws, access_claims, refresh_claims}
use nanoidp.Token.Laws.{access_claims_token_type, access_client_id}
use nanoidp.Grants.Monad.{IdpState, next}
use nanoidp.Grants.Defs.{
  GrantContext, GrantOutcome, outcome, Payload, Verified, payload, field_or_blank,
  check_grant_scope, resolve_token_resource,
}
use nanoidp.Grants.Refresh.{
  presented_token, holder_of, validate_refresh, finish_refresh, grant_refresh_token, text_or_blank,
}
use nanoidp.Grants.Laws.{ScopeFits}
use nanoidp.Grants.RefreshChecks.{IsPresented}
use nanoidp.Grants.RefreshLaws.{claim}
use nanoidp.TokenEndpoint.Payloads.{payload_of, remembered, resources_of, payload_of-refresh_claims}

check_grant_scope-next :
    (ctx : GrantContext) (who : Option String) (client : Option OAuthClient) (scope : Option String)
    (s : IdpState)
    → ScopeFits ctx client scope
    → check_grant_scope ctx who client scope true s ≡ (s, next scope)
unfolding check_grant_scope
check_grant_scope-next ctx who none scope s fits = refl
check_grant_scope-next ctx who (some client) scope s fits =
    let vocabulary = ctx.config.settings.scopes_supported in
    elim (Bool-cases (scope_enforcement_active ctx.config.settings)) [
      | inr off ↦ rw off (unfold resolve_scope in refl)
      | inl on ↦
          let fine = (resolve_scope-ok_iff scope client vocabulary none true).1 (fits on) in
          rw (on, resolve_scope-granted scope client vocabulary none true fine) refl
    ]

or_none_again : (o : Option String) → or_none (some (text_or_blank (or_none o))) ≡ or_none o
or_none_again none = refl
or_none_again (some s) = ground (arith, eq_iff s "")

module _ (is_valid : String → Bool) (repr : String → String)
    (verify_jwt : String → String → Verified) (ctx : GrantContext) where
  presented_token-next :
      (p : Payload) (s : IdpState)
      → ctx.client_id ≢ ""
      → IsPresented is_valid repr verify_jwt ctx p
      → presented_token is_valid repr verify_jwt ctx s ≡ (s, next p)
  unfolding presented_token
  presented_token-next p s named shown =
      let given : is_text (field_or_blank ctx "refresh_token") ≡ true =
        ground (arith, shown.given, eq_iff (field_or_blank ctx "refresh_token") "") in
      let bound : is_given (some ctx.client_id) ≡ true =
        ground (arith, named, eq_iff ctx.client_id "") in
      rw (given, shown.signed, shown.refresh, shown.bound, bound, eq_refl ctx.client_id) refl

  module _ (upper : String → String) (show : Json → String) (now : ℕ) (draws : Draws)
      (r : TokenRequest) where
    -- An access token that was minted for the client (its id not blank) with a caller's `extra` claims
    -- (a dict without repeated keys) of `token_type` "refresh" passes the refresh grant's check of its
    -- token, if it verifies: the check does not look at the `token_use` "access" that it has.
    pub access_token_presented :
        (to_float : String → Option ℕ) (s : IdpState)
        → ctx.client_id ≢ ""
        → r.client_id ≡ some ctx.client_id
        → HasUniqueKeys r.extra_claims
        → get "token_type" r.extra_claims ≡ some (str "refresh")
        → field_or_blank ctx "refresh_token" ≢ ""
        → verify_jwt (field_or_blank ctx "refresh_token") ctx.config.settings.audience
          ≡ payload (payload_of to_float (access_claims upper show ctx.config now draws r))
        → (presented_token is_valid repr verify_jwt ctx s
            ≡ (s, next (payload_of to_float (access_claims upper show ctx.config now draws r))))
          × (get "token_use" (access_claims upper show ctx.config now draws r)
              ≡ some (str "access"))
    unfolding payload_of
    access_token_presented to_float s named own unique given shown signed =
        let (kind, purpose) =
          access_claims_token_type upper show ctx.config now draws r (str "refresh") unique given in
        (
          presented_token-next
              (payload_of to_float (access_claims upper show ctx.config now draws r)) s named
              (record {
                given = shown;
                signed = signed;
                refresh = rw kind refl;
                bound =
                    rw (access_client_id upper show ctx.config now draws r ctx.client_id own named)
                      refl;
              }),
          purpose,
        )

    abbrev token : Payload
    token = remembered now draws r

    -- What the minted refresh token is good for.
    abbrev pub renewed : GrantOutcome
    renewed = record (outcome r.user r.user.username) {
      scope = or_none r.scope;
      auth_time = token.auth_time;
      refresh_family = token.rt_family;
      id_token_claims = token.req_id_token_claims;
      userinfo_claims = token.req_userinfo_claims;
    }

    holder_of-next :
        (s : IdpState)
        → r.user.username ≢ ""
        → get_user ctx.config r.user.username ≡ some r.user
        → form_get "scope" ctx.request.form ≡ none
        → ScopeFits ctx (get_client ctx.config ctx.client_id) (or_none r.scope)
        → holder_of is_valid repr verify_jwt ctx token s
          ≡ (s, next (record { token = token; user = r.user; scope = or_none r.scope }))
    unfolding holder_of
    holder_of-next s named known asked fits =
        let given : is_text r.user.username ≡ true =
          ground (arith, named, eq_iff r.user.username "") in
        let same : or_none (some (text_or_blank (or_none r.scope))) ≡ or_none r.scope =
          or_none_again r.scope in
        rw
          (
            given,
            known,
            asked,
            same,
            check_grant_scope-next ctx (some r.user.username) (get_client ctx.config ctx.client_id)
                (or_none r.scope) s fits,
          )
          refl

    -- A refresh token minted for a client (its id not blank) and a user who is still configured
    -- under the name (not blank) that it holds, bound to no resource, renews the grant: presented by
    -- that client, verifying, with no scope and no resource asked for, unclaimed and unrevoked, its
    -- scope still one that fits, it yields the user, the scope, the authentication time, the rotation
    -- family and the claims of the first grant.
    pub refresh_token_renews :
        (to_float : String → Option ℕ) (s : IdpState)
        → ctx.client_id ≢ ""
        → r.client_id ≡ some ctx.client_id
        → field_or_blank ctx "refresh_token" ≢ ""
        → verify_jwt (field_or_blank ctx "refresh_token") ctx.config.settings.audience
          ≡ payload (payload_of to_float (refresh_claims upper show ctx.config now draws r))
        → r.user.username ≢ ""
        → get_user ctx.config r.user.username ≡ some r.user
        → form_get "scope" ctx.request.form ≡ none
        → form_getlist "resource" ctx.request.form ≡ []
        → resources_of r ≡ []
        → ScopeFits ctx (get_client ctx.config ctx.client_id) (or_none r.scope)
        → (claim is_valid repr verify_jwt ctx token s).1 ≡ false
        → grant_refresh_token is_valid repr verify_jwt ctx s ≡ (
          record s { revocations = (claim is_valid repr verify_jwt ctx token s).0 },
          next renewed,
        )
    unfolding grant_refresh_token validate_refresh finish_refresh resolve_token_resource
    refresh_token_renews to_float s named own shown signed user known asked targets unbound fits
          unused =
        let verified : verify_jwt (field_or_blank ctx "refresh_token") ctx.config.settings.audience
            ≡ payload token =
          signed
          ∙ ap payload (payload_of-refresh_claims upper show ctx.config now draws r to_float) in
        let given : is_text ctx.client_id ≡ true = ground (arith, named, eq_iff ctx.client_id "") in
        let presented = presented_token-next token s named (record {
          given = shown;
          signed = verified;
          refresh = refl;
          bound = rw (own, given) refl;
        }) in
        rw (presented, holder_of-next s user known asked fits, unused, targets, unbound) refl
