-- ===== src/Grants/DeviceLaws.antt =====
-- The device_code grant (src/nanoidp/routes/oauth_grants.py).
use nanoidp.Prelude.{
  String, ◌≡◌, refl, sym, subst, ap, Bool, true, Option, some, List, Bool-cases, inl, inr, ◌⊎◌,
  is_text,
}
use nanoidp.Dict.{get}
use nanoidp.Models.{User}
use nanoidp.Config.{get_user, get_client}
use nanoidp.DeviceCode
use nanoidp.DeviceCode.{DeviceCodeGrant, DeviceCodeStore, PollOutcome, second}
use nanoidp.DeviceCode.Poll.{IsClaimable, poll-authorized_iff}
use nanoidp.Response.{OAuthError}
use nanoidp.Grants.Monad.{IdpState, next, answer, Action, pure, ◌>>=◌}
use nanoidp.Grants.Defs.{
  GrantContext, GrantOutcome, outcome, field_or_blank, or_nil, some_items, check_grant_scope,
  resolve_token_resource,
}
use nanoidp.Grants.Redeem.{polled, grant_device_code}
use nanoidp.Grants.Laws.{
  passes, rejects, ScopeFits, ResourcesFit, check_grant_scope-Verdict,
  resolve_token_resource-Verdict, answer_next, next_injective,
}

PollOutcome-cases :
    (ctx : GrantContext) (r : PollOutcome) (s : IdpState)
    → ((u : User) × (g : DeviceCodeGrant) × (r ≡ PollOutcome.authorized u g))
      ⊎ ((t : IdpState) × (e : OAuthError) × (polled ctx r s ≡ (t, answer e)))
PollOutcome-cases ctx (PollOutcome.authorized u g) s = inl (u, g, refl)
PollOutcome-cases ctx DeviceCode.not_found s = inr (_, _, refl)
PollOutcome-cases ctx DeviceCode.wrong_client s = inr (_, _, refl)
PollOutcome-cases ctx PollOutcome.expired s = inr (_, _, refl)
PollOutcome-cases ctx DeviceCode.pending s = inr (_, _, refl)
PollOutcome-cases ctx PollOutcome.denied s = inr (_, _, refl)
PollOutcome-cases ctx DeviceCode.user_not_found s = inr (_, _, refl)
PollOutcome-cases ctx DeviceCode.unknown_status s = inr (_, _, refl)

module _ (is_valid : String → Bool) (repr : String → String) (ctx : GrantContext) where
  -- The poll that the request asks for.
  abbrev pub polling : IdpState → DeviceCodeStore × PollOutcome
  polling s =
      DeviceCode.poll (get_user ctx.config) ctx.request.transport.now
        (field_or_blank ctx "device_code") (some ctx.client_id) s.devices

  -- What the grant issues for a device authorization.
  pub record IsHandedOut (g : DeviceCodeGrant) (o : GrantOutcome) : Type 0 where
    pub scope : o.scope ≡ some g.scope
    pub fits : ScopeFits ctx (get_client ctx.config ctx.client_id) o.scope
    pub resources :
        ResourcesFit is_valid repr
          (get_client ctx.config ctx.client_id)
          (some (or_nil g.resource))
          o.resource
    pub since : o.auth_time ≡ g.auth_time

  abbrev handed_out : User → DeviceCodeGrant → Option String → Option (List String) → GrantOutcome
  handed_out user grant scope resource = (record (outcome user user.username) {
    scope = scope;
    auth_time = grant.auth_time;
    resource = resource;
    refresh_resource = some_items (or_nil grant.resource);
  })

  -- The grant once the authorization is claimed.
  abbrev hand_out : User → DeviceCodeGrant → Action GrantOutcome
  hand_out user grant = do
    let client = get_client ctx.config ctx.client_id
    scope ← check_grant_scope ctx (some user.username) client (some grant.scope) true
    resource ← resolve_token_resource is_valid repr ctx client (some (or_nil grant.resource))
    pure (handed_out user grant scope resource)

  hand_out_next :
      (u : User) (g : DeviceCodeGrant) (s : IdpState) (o : GrantOutcome)
      → (hand_out u g s).1 ≡ next o
      → (o.user ≡ u) × IsHandedOut g o × ((hand_out u g s).0 ≡ s)
  hand_out_next u g s o h =
      elim (check_grant_scope-Verdict ctx (some u.username) (get_client ctx.config ctx.client_id)
        (some g.scope) s) [
          | rejects t e q k ↦ absurd (answer_next (rw q at h))
          | passes v q (same, fits) ↦
              elim (resolve_token_resource-Verdict is_valid repr ctx
                (get_client ctx.config ctx.client_id) (or_nil g.resource) s) [
                  | rejects t e q' k ↦ absurd (answer_next (rw (q, q') at h))
                  | passes x q' fit ↦
                      let done : handed_out u g v x ≡ o = next_injective (rw (q, q') at h) in
                      (
                        ap (λ (r : GrantOutcome). r.user) (sym done),
                        subst (IsHandedOut g) done
                            (record { scope = same; fits = fits; resources = fit; since = refl }),
                        rw (q, q') refl,
                      )
                ]
        ]

  -- A device grant that succeeds claimed a stored authorization that was issued to the client, alive
  -- and approved; it issues for the user that it names, who is still configured, the scope of
  -- the authorization, which the client may still have, and resources within those of the
  -- authorization; and all that it changes is the claim.
  pub device_grants :
      (s : IdpState) (o : GrantOutcome)
      → (grant_device_code is_valid repr ctx s).1 ≡ next o
      → (g : DeviceCodeGrant) × (get (field_or_blank ctx "device_code") s.devices.codes ≡ some g)
        × IsClaimable
            (get_user ctx.config)
            ctx.request.transport.now
            (field_or_blank ctx "device_code")
            (some ctx.client_id)
            g
            o.user
        × IsHandedOut g o
        × ((grant_device_code is_valid repr ctx s).0 ≡ record s { devices = (polling s).0 })
  unfolding grant_device_code
  device_grants s o h = elim (Bool-cases (is_text (field_or_blank ctx "device_code"))) [
    | inr blank ↦ absurd (answer_next (rw blank at h))
    | inl coded ↦
        elim (PollOutcome-cases ctx (polling s).1 (record s { devices = (polling s).0 })) [
          | inr (t, x, e) ↦ absurd (answer_next (rw (coded, e) at h))
          | inl (u, g, e) ↦
              let (stored, fair) =
                (poll-authorized_iff (get_user ctx.config) ctx.request.transport.now
                    (field_or_blank ctx "device_code") (some ctx.client_id) s.devices g u).0
                  e in
              let (own, done, left) =
                hand_out_next u g (record s { devices = (polling s).0 }) o (rw (coded, e) at h) in
              (
                g,
                stored,
                subst (IsClaimable (get_user ctx.config) _ _ _ g) (sym own) fair,
                done,
                rw (coded, e) left,
              )
        ]
  ]
