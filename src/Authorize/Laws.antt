-- ===== src/Authorize/Laws.antt =====
-- What an authorization request has passed when it is answered (src/nanoidp/routes/oauth.py).
use nanoidp.Prelude.{
  String, ◌≡◌, ◌≢◌, refl, inl, inr, Bool, true, false, not, ◌&&◌, Option, none, some, List, [], ◌∷◌,
  arith, ◌==◌, eq_iff, Bool-cases, Option-cases, is_text, is_empty, elem,
}
use nanoidp.Models.{
  OAuthClient, is_public, pkce_required, pkce_plain_allowed, scope_enforcement_active,
}
use nanoidp.Config.{ConfigManager, get_client}
use nanoidp.Scope.{resolve_scope, ok}
use nanoidp.Scope.Laws.{Fits, resolve_scope-granted, resolve_scope-ok_iff}
use nanoidp.RedirectUri.{ParsedUrl, redirect_uri_rejection_reason, redirect_uri_is_registered}
use nanoidp.Authorize.{
  AuthorizeRequest, AuthorizeParams, AuthorizeReply, local, redirect, login_page, WebState, Stage,
  go, reply,
}
use nanoidp.Authorize.Validate.{
  granted_scope, effective_method, public_pkce, or_blank, validate_authorize_client,
  validate_authorize_redirect_uri, validate_authorize_response_type, validate_authorize_scope,
}

-- How a step ended: it handed a value on with no write at all, or it answered the request with the
-- codes as they were.
pub data Judged {A : Type 0} (P : A → Type 0) (Q : AuthorizeReply → Type 0) (s : WebState)
    (r : WebState × Stage A) : Type 0 where
  goes : (a : A) → r ≡ (s, go a) → P a → Judged P Q s r
  replies :
      (t : WebState) (x : AuthorizeReply)
      → r ≡ (t, reply x)
      → t.idp.codes ≡ s.idp.codes
      → Q x
      → Judged P Q s r

-- The response is local.
abbrev pub IsLocal : AuthorizeReply → Type 0
IsLocal (local e) = Unit
IsLocal (redirect uri params) = ⊥
IsLocal (login_page message username) = ⊥

-- The response is a redirect to this URI.
abbrev pub GoesTo : String → AuthorizeReply → Type 0
GoesTo uri (local e) = ⊥
GoesTo uri (redirect to params) = to ≡ uri
GoesTo uri (login_page message username) = ⊥

-- A scope that is granted at a request, the default included, fits where enforcement is on.
pub scope-Fits :
    (client : OAuthClient) (scope : Option String) (vocabulary : List String) (active : Bool)
    → ok (resolve_scope scope client vocabulary active (some "openid") false) ≡ true
    → active ≡ true
    → Fits client vocabulary
        (resolve_scope scope client vocabulary active (some "openid") false).granted
scope-Fits client scope vocabulary false h on = cc
scope-Fits client scope vocabulary true h on =
    rw (resolve_scope-granted scope client vocabulary (some "openid") false h)
      ((resolve_scope-ok_iff scope client vocabulary (some "openid") false).0 h)

module _ (urlparse : String → Option ParsedUrl) (config : ConfigManager)
    (r : AuthorizeRequest) where
  -- A redirect URI that a response may be sent to: that of a known client, acceptable, registered
  -- where the client has registered any, which it must under the oauth21 profile.
  pub record IsTrusted (client_id redirect_uri : String) (client : OAuthClient) : Type 0 where
    pub known : get_client config client_id ≡ some client
    pub acceptable : redirect_uri_rejection_reason urlparse redirect_uri ≡ none
    pub registered :
        is_empty client.redirect_uris ≡ false
        → redirect_uri_is_registered urlparse redirect_uri client.redirect_uris ≡ true
    pub pinned :
        config.settings.security_profile ≡ "oauth21" → is_empty client.redirect_uris ≡ false

  pub client-Judged :
      (p : AuthorizeParams) (s : WebState)
      → Judged
          (λ client. get_client config p.client_id ≡ some client)
          IsLocal
          s
          (validate_authorize_client urlparse config r p s)
  unfolding validate_authorize_client
  client-Judged p s = elim (Bool-cases (is_text p.client_id)) [
    | inr blank ↦ rw blank (replies _ _ refl refl tt)
    | inl named ↦ elim (Bool-cases (is_text p.redirect_uri)) [
      | inr blank ↦ rw (named, blank) (replies _ _ refl refl tt)
      | inl given ↦ elim (Option-cases (get_client config p.client_id)) [
        | inl e ↦ rw (named, given, e) (replies _ _ refl refl tt)
        | inr (client, e) ↦ rw (named, given, e) (goes client refl refl)
      ]
    ]
  ]

  pub uri-Judged :
      (p : AuthorizeParams) (client : OAuthClient) (s : WebState)
      → get_client config p.client_id ≡ some client
      → Judged
          (λ u. IsTrusted p.client_id p.redirect_uri client)
          IsLocal
          s
          (validate_authorize_redirect_uri urlparse config r p client s)
  unfolding validate_authorize_redirect_uri
  uri-Judged p client s known =
      elim (Option-cases (redirect_uri_rejection_reason urlparse p.redirect_uri)) [
        | inr (reason, e) ↦ rw e (replies _ _ refl refl tt)
        | inl fine ↦
            rw fine
              (elim (Bool-cases (
                not (is_empty client.redirect_uris)
                && not (redirect_uri_is_registered urlparse p.redirect_uri client.redirect_uris))) [
                  | inl foreign ↦ rw foreign (replies _ _ refl refl tt)
                  | inr own ↦
                      rw own
                        (elim (Bool-cases (
                          config.settings.security_profile == "oauth21"
                          && is_empty client.redirect_uris)) [
                            | inl loose ↦ rw loose (replies _ _ refl refl tt)
                            | inr pinned ↦ rw pinned (
                                goes tt refl (record {
                                  known = known;
                                  acceptable = fine;
                                  registered = λ e. ground (arith, own, e);
                                  pinned = λ e. ground (
                                    arith,
                                    pinned,
                                    e,
                                    eq_iff config.settings.security_profile "oauth21",
                                  );
                                }))
                          ])
                ])
      ]

  module _ (is_valid : String → Bool) (repr : String → String) where
    pub type-Judged :
        (p : AuthorizeParams) (s : WebState)
        → Judged
            (λ u. p.response_type ≡ "code")
            (GoesTo p.redirect_uri)
            s
            (validate_authorize_response_type urlparse config r is_valid repr p s)
    unfolding validate_authorize_response_type
    type-Judged p s = elim (Bool-cases (p.response_type == "code")) [
      | inl e ↦ rw e (goes tt refl ((eq_iff p.response_type "code").0 e))
      | inr other ↦ rw other (replies _ _ refl refl refl)
    ]

    -- The scope is one that the client may have, where enforcement is on.
    abbrev pub ScopePermitted : OAuthClient → String → Type 0
    ScopePermitted client scope =
        scope_enforcement_active config.settings ≡ true
        → Fits client config.settings.scopes_supported (some scope)

    Fits-or_blank :
        (client : OAuthClient) (vocabulary : List String) (o : Option String)
        → Fits client vocabulary o
        → Fits client vocabulary (some (or_blank o))
    Fits-or_blank client vocabulary none fits = inl refl
    Fits-or_blank client vocabulary (some scope) fits = fits

    granted_scope-Judged :
        (p : AuthorizeParams) (client : OAuthClient) (scope error : Option String) (s : WebState)
        → (error ≡ none → ScopePermitted client (or_blank scope))
        → Judged
            (λ q. (q ≡ record p { scope = q.scope }) × ScopePermitted client q.scope)
            (GoesTo p.redirect_uri)
            s
            (granted_scope urlparse config r is_valid repr p scope error s)
    granted_scope-Judged p client scope none s permitted =
        goes (record p { scope = or_blank scope }) refl (refl, permitted refl)
    granted_scope-Judged p client scope (some d) s permitted = replies _ _ refl refl refl

    pub scope-Judged :
        (p : AuthorizeParams) (client : OAuthClient) (s : WebState)
        → Judged
            (λ q. (q ≡ record p { scope = q.scope }) × ScopePermitted client q.scope)
            (GoesTo p.redirect_uri)
            s
            (validate_authorize_scope urlparse config r is_valid repr p client s)
    unfolding validate_authorize_scope
    scope-Judged p client s =
        let vocabulary = config.settings.scopes_supported in
        let result =
          resolve_scope (some p.scope) client vocabulary (scope_enforcement_active config.settings)
            (some "openid") false in
        granted_scope-Judged p client result.granted result.error_description s (λ fine on.
          Fits-or_blank client vocabulary result.granted (
            scope-Fits client (some p.scope) vocabulary (scope_enforcement_active config.settings)
              (ground (arith, fine)) on))

    -- PKCE as the client and the profile demand it.
    pub record IsPkceFine (p : AuthorizeParams) (client : OAuthClient) : Type 0 where
      pub for_public :
          is_public client ≡ true
          → (p.code_challenge ≢ "") × (effective_method urlparse config r is_valid repr p ≡ "S256")
      pub for_profile : pkce_required config.settings ≡ true → p.code_challenge ≢ ""
      pub method :
          p.code_challenge ≢ ""
          → (elem (effective_method urlparse config r is_valid repr p) ("plain" ∷ "S256" ∷ [])
              ≡ true)
            × (effective_method urlparse config r is_valid repr p ≡ "plain"
                → pkce_plain_allowed config.settings ≡ true)

    pub public-Judged :
        (p : AuthorizeParams) (client : OAuthClient) (s : WebState)
        → Judged
            (λ u.
              is_public client ≡ true
              → (p.code_challenge ≢ "")
                × (effective_method urlparse config r is_valid repr p ≡ "S256"))
            (GoesTo p.redirect_uri)
            s
            (public_pkce urlparse config r is_valid repr p client s)
    public-Judged p client s =
        let method = effective_method urlparse config r is_valid repr p in
        elim (Bool-cases (is_public client)) [
          | inr closed ↦ rw closed (goes tt refl (λ e. absurd (false_true e)))
          | inl open_client ↦ elim (Bool-cases (is_text p.code_challenge)) [
            | inr blank ↦ rw (open_client, blank) (replies _ _ refl refl refl)
            | inl given ↦ elim (Bool-cases (method == "S256")) [
              | inr other ↦ rw (open_client, given, other) (replies _ _ refl refl refl)
              | inl s256 ↦
                  rw (open_client, given, s256)
                    (goes tt refl (λ e. (
                      ground (arith, given, eq_iff p.code_challenge ""),
                      (eq_iff method "S256").0 s256,
                    )))
            ]
          ]
        ]
      where
        false_true : false ≡ true → ⊥
        false_true e = cc
