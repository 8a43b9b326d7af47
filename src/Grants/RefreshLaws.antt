-- ===== src/Grants/RefreshLaws.antt =====
-- The refresh_token grant (src/nanoidp/routes/oauth_grants.py).
use nanoidp.Prelude.{
  String, ◌≡◌, refl, subst, ◌≢◌, Bool, true, false, Option, some, List, Bool-cases, inl, inr,
}
use nanoidp.Config.{get_user, get_client}
use nanoidp.Revocation.{RevocationStore, check_and_claim_refresh}
use nanoidp.Revocation.Laws
use nanoidp.Revocation.Laws.{Lasts, trusted}
use nanoidp.Revocation.Claim.{claim_takes}
use nanoidp.Response.{OAuthError, oauth_error}
use nanoidp.Dict.{get}
use nanoidp.Grants.Monad.{IdpState, next, answer}
use nanoidp.Grants.Defs.{
  GrantContext, GrantOutcome, Payload, Verified, or_nil, outcome, some_items,
  resolve_token_resource,
}
use nanoidp.Grants.Refresh.{
  Holder, validate_refresh, finish_refresh, grant_refresh_token, text_or_blank, rotates,
}
use nanoidp.Grants.Laws.{
  answer_next, next_injective, passes, rejects, Verdict-SameStores, SameStores, ScopeFits,
  ResourcesFit, resolve_token_resource-Verdict,
}
use nanoidp.Grants.RefreshChecks.{Narrows, IsPresented, IsHeld, validate_refresh-Verdict}

module _ (is_valid : String → Bool) (repr : String → String)
    (verify_jwt : String → String → Verified) where
  -- The claim that the grant makes of a token.
  abbrev pub claim : GrantContext → Payload → IdpState → RevocationStore × Bool
  claim ctx p s =
      check_and_claim_refresh ctx.request.transport.now p.jti p.rt_family (rotates ctx) p.exp
        s.revocations

  -- What a refresh issues tokens for.
  pub record IsRefreshed (ctx : GrantContext) (p : Payload) (s : IdpState) (o : GrantOutcome)
      : Type 0 where
    pub shown : IsPresented is_valid repr verify_jwt ctx p
    pub unused : (claim ctx p s).1 ≡ false
    pub known : get_user ctx.config (text_or_blank p.sub) ≡ some o.user
    pub narrow : Narrows (text_or_blank p.scope) o.scope
    pub fits : ScopeFits ctx (get_client ctx.config ctx.client_id) o.scope
    pub resources :
        ResourcesFit is_valid repr
          (get_client ctx.config ctx.client_id)
          (some (or_nil p.resource))
          o.resource
    pub family : o.refresh_family ≡ p.rt_family
    pub since : o.auth_time ≡ p.auth_time

  abbrev claimed : GrantContext → Payload → IdpState → IdpState
  claimed ctx p s = record s { revocations = (claim ctx p s).0 }

  abbrev refreshed : Holder → Option (List String) → GrantOutcome
  refreshed v resource = (record (outcome v.user (text_or_blank v.token.sub)) {
    scope = v.scope;
    auth_time = v.token.auth_time;
    refresh_family = v.token.rt_family;
    id_token_claims = v.token.req_id_token_claims;
    userinfo_claims = v.token.req_userinfo_claims;
    resource = resource;
    refresh_resource = some_items (or_nil v.token.resource);
  })

  refreshed-IsRefreshed :
      (ctx : GrantContext) (v : Holder) (s : IdpState) (r : Option (List String))
      → IsPresented is_valid repr verify_jwt ctx v.token
      → IsHeld is_valid repr verify_jwt ctx v.token v
      → (claim ctx v.token s).1 ≡ false
      → ResourcesFit is_valid repr
          (get_client ctx.config ctx.client_id)
          (some (or_nil v.token.resource))
          r
      → IsRefreshed ctx v.token s (refreshed v r)
  refreshed-IsRefreshed ctx v s r shown held unused fit = record {
    shown = shown;
    unused = unused;
    known = held.known;
    narrow = held.narrow;
    fits = held.fits;
    resources = fit;
    family = refl;
    since = refl;
  }

  finish_refresh_next :
      (ctx : GrantContext) (v : Holder) (s : IdpState) (o : GrantOutcome)
      → IsPresented is_valid repr verify_jwt ctx v.token
      → IsHeld is_valid repr verify_jwt ctx v.token v
      → (finish_refresh is_valid repr verify_jwt ctx v s).1 ≡ next o
      → IsRefreshed ctx v.token s o
        × ((finish_refresh is_valid repr verify_jwt ctx v s).0 ≡ claimed ctx v.token s)
  unfolding finish_refresh
  finish_refresh_next ctx v s o shown held h = elim (Bool-cases (claim ctx v.token s).1) [
    | inl reused ↦ absurd (answer_next (rw reused at h))
    | inr unused ↦
        elim (resolve_token_resource-Verdict is_valid repr ctx (get_client ctx.config ctx.client_id)
          (or_nil v.token.resource) (claimed ctx v.token s)) [
            | rejects t e q k ↦ absurd (answer_next (rw (unused, q) at h))
            | passes r q fit ↦
                let same : refreshed v r ≡ o = next_injective (rw (unused, q) at h) in
                (
                  subst (IsRefreshed ctx v.token s) same
                      (refreshed-IsRefreshed ctx v s r shown held unused fit),
                  rw (unused, q) refl,
                )
          ]
  ]

  -- A refresh that succeeds presented a verified refresh token, bound to the client, that was not
  -- claimed or revoked; it issues for the user of the token, who is still configured, a scope
  -- within the original one and, for a registered client, one that fits where enforcement is on,
  -- and resources that it may name within the original grant; and all that it changes is the
  -- claim.
  pub refresh_grants :
      (ctx : GrantContext) (s : IdpState) (o : GrantOutcome)
      → (grant_refresh_token is_valid repr verify_jwt ctx s).1 ≡ next o
      → (p : Payload) × IsRefreshed ctx p s o
        × ((grant_refresh_token is_valid repr verify_jwt ctx s).0
            ≡ record s { revocations = (claim ctx p s).0 })
  unfolding grant_refresh_token
  refresh_grants ctx s o h = elim (validate_refresh-Verdict is_valid repr verify_jwt ctx s) [
    | rejects t e r k ↦ absurd (answer_next (rw r at h))
    | passes v r (shown, held) ↦
        let (done, left) = finish_refresh_next ctx v s o shown held (rw r at h) in
        (v.token, done, rw r left)
  ]

  -- How a refresh request ends, and what it leaves of the stores.
  pub data Ended (ctx : GrantContext) (s : IdpState) : Type 0 where
    rejected :
        (t : IdpState) (e : OAuthError)
        → grant_refresh_token is_valid repr verify_jwt ctx s ≡ (t, answer e)
        → SameStores s t
        → Ended ctx s
    reused :
        (p : Payload) (t : IdpState)
        → IsPresented is_valid repr verify_jwt ctx p
        → (claim ctx p s).1 ≡ true
        → grant_refresh_token is_valid repr verify_jwt ctx s
          ≡ (t, answer (oauth_error "invalid_grant" "Refresh token has been revoked" 400))
        → SameStores (claimed ctx p s) t
        → Ended ctx s
    mistargeted :
        (p : Payload) (t : IdpState) (e : OAuthError)
        → IsPresented is_valid repr verify_jwt ctx p
        → (claim ctx p s).1 ≡ false
        → resolve_token_resource is_valid repr ctx
            (get_client ctx.config ctx.client_id)
            (some (or_nil p.resource))
            (claimed ctx p s)
          ≡ (t, answer e)
        → grant_refresh_token is_valid repr verify_jwt ctx s ≡ (t, answer e)
        → SameStores (claimed ctx p s) t
        → Ended ctx s
    renewed :
        (p : Payload) (o : GrantOutcome)
        → IsRefreshed ctx p s o
        → grant_refresh_token is_valid repr verify_jwt ctx s ≡ (claimed ctx p s, next o)
        → Ended ctx s

  finish-Ended :
      (ctx : GrantContext) (v : Holder) (s : IdpState)
      → validate_refresh is_valid repr verify_jwt ctx s ≡ (s, next v)
      → IsPresented is_valid repr verify_jwt ctx v.token
      → IsHeld is_valid repr verify_jwt ctx v.token v
      → Ended ctx s
  unfolding grant_refresh_token finish_refresh
  finish-Ended ctx v s valid shown held = elim (Bool-cases (claim ctx v.token s).1) [
    | inl again ↦
        reused v.token (grant_refresh_token is_valid repr verify_jwt ctx s).0 shown again
          (rw (valid, again) refl) (rw (valid, again) (refl, refl, refl))
    | inr unused ↦
        elim (resolve_token_resource-Verdict is_valid repr ctx (get_client ctx.config ctx.client_id)
          (or_nil v.token.resource) (claimed ctx v.token s)) [
            | rejects t e q k ↦
                mistargeted v.token t e shown unused q (rw (valid, unused, q) refl) k
            | passes r q fit ↦
                renewed v.token (refreshed v r)
                  (refreshed-IsRefreshed ctx v s r shown held unused fit)
                  (rw (valid, unused, q) refl)
          ]
  ]

  -- Every refresh request ends in one of four ways, and changes no authorization code and no device
  -- authorization in any. It is rejected with the revocations as they were; or its token, which
  -- passed the checks of the token, was claimed or revoked before, and it is answered with
  -- invalid_grant; or it is answered with the refusal of its resource indicators; or it succeeds.
  -- In the last three the revocations are those that the claim of the token leaves.
  pub grant_refresh_token-Ended : (ctx : GrantContext) (s : IdpState) → Ended ctx s
  unfolding grant_refresh_token
  grant_refresh_token-Ended ctx s = elim (validate_refresh-Verdict is_valid repr verify_jwt ctx s) [
    | rejects t e r k ↦ rejected t e (rw r refl) k
    | passes v r (shown, held) ↦ finish-Ended ctx v s r shown held
  ]

  -- A refresh that passes its validations and the claim, with rotation on, a token id that is not
  -- blank and a store without repeated keys, is answered with the refusal of its resource
  -- indicators where these are refused; its token is then claimed at least to its expiry.
  pub refused_resource_claims :
      (ctx : GrantContext) (v : Holder) (s t : IdpState) (e : OAuthError) (j : String)
      → Laws.IsWellFormed s.revocations
      → validate_refresh is_valid repr verify_jwt ctx s ≡ (s, next v)
      → (claim ctx v.token s).1 ≡ false
      → resolve_token_resource is_valid repr ctx
          (get_client ctx.config ctx.client_id)
          (some (or_nil v.token.resource))
          (record s { revocations = (claim ctx v.token s).0 })
        ≡ (t, answer e)
      → v.token.jti ≡ some j
      → j ≢ ""
      → rotates ctx ≡ true
      → ((grant_refresh_token is_valid repr verify_jwt ctx s).1 ≡ answer e)
        × Lasts
            (trusted v.token.exp)
            (get j (grant_refresh_token is_valid repr verify_jwt ctx s).0.revocations.tokens)
  unfolding grant_refresh_token finish_refresh
  refused_resource_claims ctx v s t e j w passed unused refused id given rot =
      let bound =
        resolve_token_resource is_valid repr ctx (get_client ctx.config ctx.client_id)
          (some (or_nil v.token.resource)) (claimed ctx v.token s) in
      let stores : SameStores (claimed ctx v.token s) bound.0 =
        Verdict-SameStores (claimed ctx v.token s) bound (
          resolve_token_resource-Verdict is_valid repr ctx (get_client ctx.config ctx.client_id)
            (or_nil v.token.resource) (claimed ctx v.token s)) in
      let kept : t.revocations ≡ (claim ctx v.token s).0 = (rw refused at stores).2 in
      rw passed (
        rw (unused, refused)
          (
            refl,
            rw kept (
                claim_takes ctx.request.transport.now v.token.jti v.token.rt_family (rotates ctx)
                  v.token.exp s.revocations w j id given rot unused),
          ))
