-- ===== src/Grants/RefreshChecks.antt =====
-- What the validations of a refresh request let through (src/nanoidp/routes/oauth_grants.py).
use nanoidp.Prelude.{
  String, ◌≡◌, refl, sym, subst, ◌∙◌, ◌≢◌, Bool, true, Option, none, some, arith, ◌==◌, eq_iff,
  Bool-cases, inl, inr, ◌⊎◌, is_text, is_given, is_empty, same, same-some, split, elem, all,
  or_none, is_empty-missing,
}
use nanoidp.Models.{User}
use nanoidp.Config.{get_user, get_client}
use nanoidp.Resource.Recheck.{all_of_elem}
use nanoidp.ClientAuth.{form_get}
use nanoidp.Grants.Monad.{IdpState}
use nanoidp.Grants.Defs.{GrantContext, Payload, Verified, payload, invalid, field_or_blank}
use nanoidp.Grants.Refresh.{
  Holder, presented_token, holder_of, found_user, narrow_scope, exceeding, validate_refresh,
  text_or_blank,
}
use nanoidp.Grants.Laws.{Verdict, passes, rejects, ScopeFits, check_grant_scope-Verdict}

-- The new scope asks for nothing that the original does not hold.
abbrev pub Narrows : String → Option String → Type 0
Narrows original none = Unit
Narrows original (some scope) = all (λ t. elem t (split original)) (split scope) ≡ true

kept : (original : String) → Narrows original (or_none (some original))
kept original = elim (Bool-cases (is_text original)) [
  | inl given ↦ rw given (all_of_elem (λ t. elem t (split original)) (split original) (λ t m. m))
  | inr blank ↦ rw blank tt
]

narrow_scope-Verdict :
    (ctx : GrantContext) (who original : String) (o : Option String) (s : IdpState)
    → Verdict (Narrows original) s (narrow_scope ctx who original o s)
narrow_scope-Verdict ctx who original none s = passes (or_none (some original)) refl (kept original)
narrow_scope-Verdict ctx who original (some requested) s = elim (Bool-cases (requested == "")) [
  | inl blank ↦ rw blank (passes (or_none (some original)) refl (kept original))
  | inr given ↦ elim (Bool-cases (is_empty (exceeding original requested))) [
    | inl fits ↦
        rw (given, fits)
          (passes (some requested) refl
            (sym (is_empty-missing (split original) (split requested)) ∙ fits))
    | inr wide ↦ rw (given, wide) (rejects _ _ refl (refl, refl, refl))
  ]
]

pub found_user-Verdict :
    (ctx : GrantContext) (who : String) (o : Option User) (s : IdpState)
    → Verdict (λ u. o ≡ some u) s (found_user ctx who o s)
found_user-Verdict ctx who none s = rejects _ _ refl (refl, refl, refl)
found_user-Verdict ctx who (some u) s = passes u refl refl

Verified-cases :
    (v : Verified) → ((p : Payload) × (v ≡ payload p)) ⊎ ((m : String) × (v ≡ invalid m))
Verified-cases (payload p) = inl (p, refl)
Verified-cases (invalid m) = inr (m, refl)

module _ (is_valid : String → Bool) (repr : String → String)
    (verify_jwt : String → String → Verified) where
  -- What a token passes that is let through to the claim.
  pub record IsPresented (ctx : GrantContext) (p : Payload) : Type 0 where
    pub given : field_or_blank ctx "refresh_token" ≢ ""
    pub signed :
        verify_jwt (field_or_blank ctx "refresh_token") ctx.config.settings.audience ≡ payload p
    pub refresh : p.token_type ≡ some "refresh"
    pub bound : p.client_id ≡ some ctx.client_id

  presented_token-Verdict :
      (ctx : GrantContext) (s : IdpState)
      → Verdict (IsPresented ctx) s (presented_token is_valid repr verify_jwt ctx s)
  unfolding presented_token
  presented_token-Verdict ctx s = elim (Bool-cases (is_text (field_or_blank ctx "refresh_token"))) [
    | inr blank ↦ rw blank (rejects _ _ refl (refl, refl, refl))
    | inl given ↦
        rw given
          (elim (Verified-cases
            (verify_jwt (field_or_blank ctx "refresh_token") ctx.config.settings.audience)) [
              | inr (m, e) ↦ rw e (rejects _ _ refl (refl, refl, refl))
              | inl (p, e) ↦ rw e (elim (Bool-cases (same p.token_type (some "refresh"))) [
                | inr other ↦ rw other (rejects _ _ refl (refl, refl, refl))
                | inl refresh ↦ rw refresh (elim (Bool-cases (is_given p.client_id)) [
                  | inr unbound ↦ rw unbound (rejects _ _ refl (refl, refl, refl))
                  | inl bound ↦
                      rw bound (elim (Bool-cases (same p.client_id (some ctx.client_id))) [
                        | inr foreign ↦ rw foreign (rejects _ _ refl (refl, refl, refl))
                        | inl own ↦ rw own (
                            passes p refl (record {
                              given =
                                  ground
                                    (arith, given, eq_iff (field_or_blank ctx "refresh_token") "");
                              signed = e;
                              refresh = same-some p.token_type "refresh" refresh;
                              bound = same-some p.client_id ctx.client_id own;
                            }))
                      ])
                ])
              ])
            ])
  ]

  -- What the user and the scope of the token are at its client.
  pub record IsHeld (ctx : GrantContext) (p : Payload) (v : Holder) : Type 0 where
    pub token : v.token ≡ p
    pub known : get_user ctx.config (text_or_blank p.sub) ≡ some v.user
    pub narrow : Narrows (text_or_blank p.scope) v.scope
    pub fits : ScopeFits ctx (get_client ctx.config ctx.client_id) v.scope

  holder_of-Verdict :
      (ctx : GrantContext) (p : Payload) (s : IdpState)
      → Verdict (IsHeld ctx p) s (holder_of is_valid repr verify_jwt ctx p s)
  unfolding holder_of
  holder_of-Verdict ctx p s = elim (Bool-cases (is_text (text_or_blank p.sub))) [
    | inr blank ↦ rw blank (rejects _ _ refl (refl, refl, refl))
    | inl named ↦
        rw named
          (elim (found_user-Verdict ctx (text_or_blank p.sub)
            (get_user ctx.config (text_or_blank p.sub)) s) [
              | rejects t e r k ↦ rw r (rejects _ _ refl k)
              | passes u r known ↦
                  rw r
                    (elim (narrow_scope-Verdict ctx (text_or_blank p.sub) (text_or_blank p.scope)
                      (form_get "scope" ctx.request.form) s) [
                        | rejects t e r' k ↦ rw r' (rejects _ _ refl k)
                        | passes n r' narrow ↦
                            rw r'
                              (elim (check_grant_scope-Verdict ctx (some (text_or_blank p.sub))
                                (get_client ctx.config ctx.client_id) n s) [
                                  | rejects t e q k ↦ rw q (rejects _ _ refl k)
                                  | passes v q (same, fits) ↦ rw q (
                                      passes _ refl (record {
                                        token = refl;
                                        known = known;
                                        narrow = subst (Narrows _) (sym same) narrow;
                                        fits = fits;
                                      }))
                                ])
                      ])
            ])
  ]

  pub validate_refresh-Verdict :
      (ctx : GrantContext) (s : IdpState)
      → Verdict
          (λ v. IsPresented ctx v.token × IsHeld ctx v.token v)
          s
          (validate_refresh is_valid repr verify_jwt ctx s)
  unfolding validate_refresh
  validate_refresh-Verdict ctx s = elim (presented_token-Verdict ctx s) [
    | rejects t e r k ↦ rw r (rejects _ _ refl k)
    | passes p r shown ↦ rw r (elim (holder_of-Verdict ctx p s) [
      | rejects t e q k ↦ rejects t e q k
      | passes v q held ↦ passes v q (
        subst (IsPresented ctx) (sym held.token) shown,
        record {
          token = refl;
          known =
              subst (λ (x : Payload). get_user ctx.config (text_or_blank x.sub) ≡ some v.user)
                (sym held.token) held.known;
          narrow =
              subst (λ (x : Payload). Narrows (text_or_blank x.scope) v.scope) (sym held.token)
                held.narrow;
          fits = held.fits;
        },
      )
    ])
  ]
