-- ===== src/Authorize/Valid.antt =====
-- The chain of validators of `/authorize` (src/nanoidp/routes/oauth.py), as a whole.
use nanoidp.Prelude.{
  String, ◌≡◌, ◌≢◌, refl, sym, subst, ap, ◌∙◌, Bool, true, false, not, ◌&&◌, Option, none, List, [],
  ◌∷◌, arith, ◌==◌, eq_iff, Bool-cases, inl, inr, All, is_text, is_empty, elem,
}
use nanoidp.Models.{OAuthClient, pkce_required, pkce_plain_allowed}
use nanoidp.Config.{ConfigManager}
use nanoidp.Resource.{ResourceResult, granted, invalid_target, resolve_resources}
use nanoidp.Resource.Laws.{Targetable}
use nanoidp.Resource.Recheck.{granted-All}
use nanoidp.RedirectUri.{ParsedUrl}
use nanoidp.Authorize.{AuthorizeRequest, AuthorizeParams, AuthorizeReply, WebState}
use nanoidp.Authorize.Validate.{
  effective_method, profile_pkce, granted_resources, validate_authorize_pkce,
  validate_authorize_resources, validate,
}
use nanoidp.Authorize.Laws.{
  Judged, goes, replies, IsLocal, GoesTo, IsTrusted, ScopePermitted, IsPkceFine, client-Judged,
  uri-Judged, type-Judged, scope-Judged, public-Judged,
}

module _ (urlparse : String → Option ParsedUrl) (config : ConfigManager) (r : AuthorizeRequest)
    (is_valid : String → Bool) (repr : String → String) where
  abbrev method : AuthorizeParams → String
  method p = effective_method urlparse config r is_valid repr p

  profile-Judged :
      (p : AuthorizeParams) (s : WebState)
      → Judged
          (λ u.
            (pkce_required config.settings ≡ true → p.code_challenge ≢ "")
            × (p.code_challenge ≢ ""
                → (elem (method p) ("plain" ∷ "S256" ∷ []) ≡ true)
                  × (method p ≡ "plain" → pkce_plain_allowed config.settings ≡ true)))
          (GoesTo p.redirect_uri)
          s
          (profile_pkce urlparse config r is_valid repr p s)
  profile-Judged p s =
      elim (Bool-cases (pkce_required config.settings && not (is_text p.code_challenge))) [
        | inl missing ↦ rw missing (replies _ _ refl refl refl)
        | inr fine ↦ rw fine (elim (Bool-cases (is_text p.code_challenge)) [
          | inr blank ↦ rw blank (
              goes tt refl (
                (λ on. absurd (no_challenge on fine blank)),
                λ given. absurd (given ((eq_iff p.code_challenge "").0 (blank_text blank))),
              ))
          | inl given ↦ rw given (elim (Bool-cases (elem (method p) ("plain" ∷ "S256" ∷ []))) [
            | inr other ↦ rw other (replies _ _ refl refl refl)
            | inl known ↦
                rw known
                  (elim (Bool-cases
                    (method p == "plain" && not (pkce_plain_allowed config.settings))) [
                      | inl plain ↦ rw plain (replies _ _ refl refl refl)
                      | inr allowed ↦ rw allowed (
                          goes tt refl (
                            (λ on. has_challenge given),
                            λ g. (refl, λ e. plain_allowed allowed e),
                          ))
                    ])
          ])
        ])
      ]
    where
      no_challenge :
          pkce_required config.settings ≡ true
          → (pkce_required config.settings && not (is_text p.code_challenge)) ≡ false
          → is_text p.code_challenge ≡ false
          → ⊥
      no_challenge on fine blank = ground (arith, on, fine, blank)

      blank_text : is_text p.code_challenge ≡ false → (p.code_challenge == "") ≡ true
      blank_text blank = ground (arith, blank)

      has_challenge : is_text p.code_challenge ≡ true → p.code_challenge ≢ ""
      has_challenge given = ground (arith, given, eq_iff p.code_challenge "")

      plain_allowed :
          (method p == "plain" && not (pkce_plain_allowed config.settings)) ≡ false
          → method p ≡ "plain"
          → pkce_plain_allowed config.settings ≡ true
      plain_allowed allowed e = ground (arith, allowed, e, eq_iff (method p) "plain")

  pkce-Judged :
      (p : AuthorizeParams) (client : OAuthClient) (s : WebState)
      → Judged
          (λ u. IsPkceFine urlparse config r is_valid repr p client)
          (GoesTo p.redirect_uri)
          s
          (validate_authorize_pkce urlparse config r is_valid repr p client s)
  unfolding validate_authorize_pkce
  pkce-Judged p client s = elim (public-Judged urlparse config r is_valid repr p client s) [
    | replies t x e k q ↦ rw e (replies t x refl k q)
    | goes u e open_client ↦ rw e (elim (profile-Judged p s) [
      | replies t x f k q ↦ replies t x f k q
      | goes v f (required, kind) ↦
          goes v f (record { for_public = open_client; for_profile = required; method = kind })
    ])
  ]

  -- The resources are ones that the client may name.
  abbrev pub ResourcesAllowed : OAuthClient → List String → Type 0
  ResourcesAllowed client xs = All (Targetable is_valid client none) xs

  granted-Judged :
      (p : AuthorizeParams) (client : OAuthClient) (x : ResourceResult) (s : WebState)
      → ((xs : List String) → x ≡ granted xs → ResourcesAllowed client xs)
      → Judged
          (λ q. (q ≡ record p { resources = q.resources }) × ResourcesAllowed client q.resources)
          (GoesTo p.redirect_uri)
          s
          (granted_resources urlparse config r is_valid repr p x s)
  granted-Judged p client (granted xs) s fit =
      goes (record p { resources = xs }) refl (refl, fit xs refl)
  granted-Judged p client (invalid_target e) s fit = replies _ _ refl refl refl

  resources-Judged :
      (p : AuthorizeParams) (client : OAuthClient) (s : WebState)
      → Judged
          (λ q. (q ≡ record p { resources = q.resources }) × ResourcesAllowed client q.resources)
          (GoesTo p.redirect_uri)
          s
          (validate_authorize_resources urlparse config r is_valid repr p client s)
  unfolding validate_authorize_resources
  resources-Judged p client s = elim (Bool-cases (is_empty p.resources)) [
    | inl none_asked ↦ rw none_asked (goes p refl (refl, nothing p.resources none_asked))
    | inr asked ↦ rw asked (
        granted-Judged p client (resolve_resources is_valid client none p.resources) s
          (λ xs e. granted-All is_valid client none _ xs e))
  ]
    where
      nothing : (xs : List String) → is_empty xs ≡ true → ResourcesAllowed client xs
      nothing [] e = tt
      nothing (x ∷ xs) e = cc

  -- What the parameters of a request have passed: its URI is trusted, it asks for a code, and its
  -- scope, PKCE and resources are as the client and the profile allow. Only the scope and the
  -- resources differ from what was asked.
  pub record IsValid (asked p : AuthorizeParams) (client : OAuthClient) : Type 0 where
    pub kept : p ≡ record asked { scope = p.scope; resources = p.resources }
    pub trusted : IsTrusted urlparse config r p.client_id p.redirect_uri client
    pub code : p.response_type ≡ "code"
    pub scope : ScopePermitted urlparse config r is_valid repr client p.scope
    pub pkce : IsPkceFine urlparse config r is_valid repr p client
    pub resources : ResourcesAllowed client p.resources

  -- A local error, or a redirect to the URI of the request, which is trusted.
  pub data SafeAnswer (asked : AuthorizeParams) (x : AuthorizeReply) : Type 0 where
    stays : IsLocal x → SafeAnswer asked x
    returns :
        (client : OAuthClient)
        → IsTrusted urlparse config r asked.client_id asked.redirect_uri client
        → GoesTo asked.redirect_uri x
        → SafeAnswer asked x

  pub validate-Judged :
      (p : AuthorizeParams) (s : WebState)
      → Judged
          (λ v. IsValid p v.0 v.1)
          (SafeAnswer p)
          s
          (validate urlparse config r is_valid repr p s)
  unfolding validate
  validate-Judged p s = elim (client-Judged urlparse config r p s) [
    | replies t x e k q ↦ rw e (replies t x refl k (stays q))
    | goes client e known ↦ rw e (elim (uri-Judged urlparse config r p client s known) [
      | replies t x f k q ↦ rw f (replies t x refl k (stays q))
      | goes u f trusted ↦ rw f (elim (type-Judged urlparse config r is_valid repr p s) [
        | replies t x g k q ↦ rw g (replies t x refl k (returns client trusted q))
        | goes u' g code ↦ rw g (elim (scope-Judged urlparse config r is_valid repr p client s) [
          | replies t x h k q ↦ rw h (replies t x refl k (returns client trusted q))
          | goes scoped h (same, fits) ↦ rw h (elim (pkce-Judged scoped client s) [
            | replies t x i k q ↦
                rw i (replies t x refl k (returns client trusted (at scoped x same q)))
            | goes v i pkce ↦ rw i (elim (resources-Judged scoped client s) [
              | replies t x j k q ↦
                  rw j (replies t x refl k (returns client trusted (at scoped x same q)))
              | goes final j (kept, allowed) ↦ rw j (
                  goes (final, client) refl
                    (valid client scoped final same kept trusted code fits pkce allowed))
            ])
          ])
        ])
      ])
    ])
  ]
    where
      at :
          (q : AuthorizeParams) (x : AuthorizeReply)
          → q ≡ record p { scope = q.scope }
          → GoesTo q.redirect_uri x
          → GoesTo p.redirect_uri x
      at q x same g =
          subst (λ uri. GoesTo uri x) (ap (λ (a : AuthorizeParams). a.redirect_uri) same) g

      valid_at :
          (client : OAuthClient) (x : String) (ys : List String)
          → IsTrusted urlparse config r p.client_id p.redirect_uri client
          → p.response_type ≡ "code"
          → ScopePermitted urlparse config r is_valid repr client x
          → IsPkceFine urlparse config r is_valid repr (record p { scope = x }) client
          → ResourcesAllowed client ys
          → IsValid p (record p { scope = x; resources = ys }) client
      valid_at client x ys trusted code fits pkce allowed = record {
        kept = refl;
        trusted = trusted;
        code = code;
        scope = fits;
        pkce = record {
          for_public = pkce.for_public;
          for_profile = pkce.for_profile;
          method = pkce.method;
        };
        resources = allowed;
      }

      valid :
          (client : OAuthClient) (scoped final : AuthorizeParams)
          → scoped ≡ record p { scope = scoped.scope }
          → final ≡ record scoped { resources = final.resources }
          → IsTrusted urlparse config r p.client_id p.redirect_uri client
          → p.response_type ≡ "code"
          → ScopePermitted urlparse config r is_valid repr client scoped.scope
          → IsPkceFine urlparse config r is_valid repr scoped client
          → ResourcesAllowed client final.resources
          → IsValid p final client
      valid client scoped final same kept trusted code fits pkce allowed =
          let whole : final ≡ record p { scope = scoped.scope; resources = final.resources } =
            kept ∙ ap (λ (a : AuthorizeParams). record a { resources = final.resources }) same in
          subst (λ f. IsValid p f client) (sym whole)
            (valid_at client scoped.scope final.resources trusted code fits
              (subst (λ a. IsPkceFine urlparse config r is_valid repr a client) same pkce) allowed)
