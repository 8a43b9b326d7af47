-- ===== src/Grants/DirectLaws.antt =====
-- The password and client_credentials grants (src/nanoidp/routes/oauth_grants.py).
use nanoidp.Prelude.{
  String, ◌≡◌, refl, sym, subst, ap, ◌≢◌, Bool, false, Option, none, some, List, arith, ◌==◌,
  eq_iff, Option-cases, Bool-cases, inl, inr, ◌&&◌, is_text, strip, or_none,
}
use nanoidp.Models.{User, password_grant_enabled}
use nanoidp.Config.{get_client, authenticate}
use nanoidp.ClientAuth.{form_get}
use nanoidp.Grants.Monad.{IdpState, next}
use nanoidp.Grants.Defs.{GrantContext, GrantOutcome, outcome, field_or_blank}
use nanoidp.Grants.Direct.{grant_password, grant_client_credentials}
use nanoidp.Grants.Laws.{
  passes, rejects, ScopeFits, ResourcesFit, check_grant_scope-ScopeFits, requested_resource-Verdict,
  answer_next, next_injective,
}

module _ (is_valid : String → Bool) (repr : String → String) (ctx : GrantContext) where
  -- A client_credentials grant that succeeds issues no refresh token, binds only resources that the
  -- client may name, and changes no state.
  pub client_credentials_grants :
      (s : IdpState) (o : GrantOutcome)
      → (grant_client_credentials is_valid repr ctx s).1 ≡ next o
      → (o.issue_refresh_token ≡ false)
        × ResourcesFit is_valid repr (get_client ctx.config ctx.client_id) none o.resource
        × ((grant_client_credentials is_valid repr ctx s).0 ≡ s)
  unfolding grant_client_credentials
  client_credentials_grants s o h =
      elim (check_grant_scope-ScopeFits ctx none (get_client ctx.config ctx.client_id)
        (form_get "scope" ctx.request.form) false s) [
          | rejects t e q k ↦ absurd (answer_next (rw q at h))
          | passes v q fits ↦
              elim (requested_resource-Verdict is_valid repr ctx
                (get_client ctx.config ctx.client_id) s) [
                  | rejects t e q' k ↦ absurd (answer_next (rw (q, q') at h))
                  | passes x q' fit ↦
                      let done : _ ≡ o = next_injective (rw (q, q') at h) in
                      (
                        ap (λ (r : GrantOutcome). r.issue_refresh_token) (sym done),
                        subst
                            (λ (r : GrantOutcome).
                              ResourcesFit is_valid repr (get_client ctx.config ctx.client_id) none
                                r.resource)
                            done fit,
                        rw (q, q') refl,
                      )
                ]
        ]

  -- What the password grant issues tokens for.
  pub record IsLoggedIn (checkpw : String → String → Option Bool) (o : GrantOutcome) : Type 0 where
    pub outside : ctx.config.settings.security_profile ≢ "oauth21"
    pub stripped : o.username ≡ strip (field_or_blank ctx "username")
    pub named : o.username ≢ ""
    pub given : field_or_blank ctx "password" ≢ ""
    pub proved :
        authenticate checkpw ctx.config o.username (field_or_blank ctx "password") ≡ some o.user
    pub fits : ScopeFits ctx (get_client ctx.config ctx.client_id) o.scope
    pub resources : ResourcesFit is_valid repr (get_client ctx.config ctx.client_id) none o.resource

  abbrev logged_in_outcome : User → Option String → Option (List String) → GrantOutcome
  logged_in_outcome user scope resource =
      (record (outcome user (strip (field_or_blank ctx "username"))) {
        nonce = or_none (form_get "nonce" ctx.request.form);
        scope = scope;
        resource = resource;
      })

  -- A password grant that succeeds does so outside the oauth21 profile, for the user that the name,
  -- stripped of blanks, and the password authenticate, neither of them blank; the scope and the
  -- resources are ones that the client may have, and no state changes.
  pub password_grants :
      (checkpw : String → String → Option Bool) (s : IdpState) (o : GrantOutcome)
      → (grant_password is_valid repr checkpw ctx s).1 ≡ next o
      → IsLoggedIn checkpw o × ((grant_password is_valid repr checkpw ctx s).0 ≡ s)
  unfolding grant_password password_grant_enabled
  password_grants checkpw s o h =
      let name = strip (field_or_blank ctx "username") in
      let password = field_or_blank ctx "password" in
      elim (Bool-cases (ctx.config.settings.security_profile == "oauth21")) [
        | inl strict ↦ absurd (answer_next (rw strict at h))
        | inr lax ↦ elim (Bool-cases (is_text name && is_text password)) [
          | inr blank ↦ absurd (answer_next (rw (lax, blank) at h))
          | inl given ↦ elim (Option-cases (authenticate checkpw ctx.config name password)) [
            | inl a ↦ absurd (answer_next (rw (lax, given, a) at h))
            | inr (u, a) ↦
                elim (check_grant_scope-ScopeFits ctx (some name)
                  (get_client ctx.config ctx.client_id) (form_get "scope" ctx.request.form) false
                  s) [
                    | rejects t e q k ↦ absurd (answer_next (rw (lax, given, a, q) at h))
                    | passes v q fits ↦
                        elim (requested_resource-Verdict is_valid repr ctx
                          (get_client ctx.config ctx.client_id) s) [
                            | rejects t e q' k ↦
                                absurd (answer_next (rw (lax, given, a, q, q') at h))
                            | passes x q' fit ↦
                                let done : logged_in_outcome u v x ≡ o =
                                  next_injective (rw (lax, given, a, q, q') at h) in
                                (
                                  subst (IsLoggedIn checkpw) done (record {
                                    outside = ground (
                                      arith,
                                      lax,
                                      eq_iff ctx.config.settings.security_profile "oauth21",
                                    );
                                    stripped = refl;
                                    named = ground (arith, given, eq_iff name "");
                                    given = ground (arith, given, eq_iff password "");
                                    proved = a;
                                    fits = fits;
                                    resources = fit;
                                  }),
                                  rw (lax, given, a, q, q') refl,
                                )
                          ]
                  ]
          ]
        ]
      ]
