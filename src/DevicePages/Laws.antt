-- ===== src/DevicePages/Laws.antt =====
-- What the device and logout pages (src/nanoidp/routes/oauth.py) change.
use nanoidp.Prelude.{
  ℕ, String, ◌≡◌, ◌≢◌, refl, Bool, true, false, Option, none, some, List, [], ◌∷◌, arith, ◌==◌,
  eq_iff, eq_refl, Option-cases, inl, inr, All, is_none,
}
use nanoidp.Dict.{Dict, get}
use nanoidp.Dict.Laws.{get-put}
use nanoidp.Json.{Json}
use nanoidp.Models.{OAuthClient, scope_enforcement_active}
use nanoidp.Config.{ConfigManager}
use nanoidp.Scope.{resolve_scope}
use nanoidp.Scope.Laws.{Fits}
use nanoidp.Resource.{ResourceResult, granted, invalid_target, resolve_resources}
use nanoidp.Resource.Laws.{Targetable}
use nanoidp.Resource.Recheck.{granted-All}
use nanoidp.DeviceCode.{DeviceCodeStore, create}
use nanoidp.Revocation
use nanoidp.Revocation.{
  is_revoked, RevocationStore, unset, sweep, effective_expiry, later_of, or_zero,
}
use nanoidp.ClientAuth.{
  Request, form_getlist, request_client_identity, enforce_registered_client_auth,
}
use nanoidp.Authorize.{AuthorizeRequest, WebState}
use nanoidp.Authorize.Laws.{scope-Fits}
use nanoidp.Grants.Monad.{IdpState}
use nanoidp.Endpoints.{text_claim}
use nanoidp.Endpoints.Revoke.{comes_public}
use nanoidp.DevicePages.{
  StartReply, invalid_client, refused, at_capacity, started, device_auth_error, Settled, fine, bad,
  text_or_blank, settled_scope, device_scope, settled_resources, device_resources, client,
  device_request, created, start_resources, start_scope, device_authorization,
}
use nanoidp.DevicePages.Confirm.{end_session, param}

-- The response carries codes.
abbrev pub is_started : StartReply → Bool
is_started invalid_client = false
is_started (refused error description) = false
is_started at_capacity = false
is_started (started body) = true

-- The list behind a resource that may be absent.
abbrev pub listed : Option (List String) → List String
listed none = []
listed (some xs) = xs

module _ (is_valid : String → Bool) (repr : String → String) (device_code user_code : String)
    (config : ConfigManager) (r : Request) (candidate : String) where
  -- Who may start a device authorization: one identity, and a public client without credentials; any
  -- other proves itself as its registered method says.
  pub record MayStart : Type 0 where
    pub one : (request_client_identity r).mismatch ≡ false
    pub bare :
        comes_public config r ≡ true
        → (is_none (request_client_identity r).auth ≡ true)
          × (is_none (request_client_identity r).body_client_secret ≡ true)
    pub proved :
        comes_public config r ≡ false
        → enforce_registered_client_auth config
            (request_client_identity r).client_id
            (request_client_identity r).auth
            (request_client_identity r).body_client_secret
          ≡ none

  may_start : device_auth_error config r ≡ none → MayStart
  unfolding device_auth_error
  may_start h = record {
    one = ground (arith, h);
    bare = λ e. (ground (arith, h, e), ground (arith, h, e));
    proved = λ e. ground (arith, h, e);
  }

  -- The scope and the resources that a registered client may have.
  abbrev pub ScopeAllowed : Option OAuthClient → String → Type 0
  ScopeAllowed none scope = Unit
  ScopeAllowed (some c) scope =
      scope_enforcement_active config.settings ≡ true
      → Fits c config.settings.scopes_supported (some scope)

  abbrev pub ResourcesAllowed : Option OAuthClient → List String → Type 0
  ResourcesAllowed none xs = Unit
  ResourcesAllowed (some c) xs = All (Targetable is_valid c none) xs

  blank-Fits :
      (c : OAuthClient) (vocabulary : List String) (o : Option String)
      → Fits c vocabulary o
      → Fits c vocabulary (some (text_or_blank o))
  blank-Fits c vocabulary none fits = inl refl
  blank-Fits c vocabulary (some scope) fits = fits

  abbrev ScopeSettled : Option OAuthClient → Settled String → Type 0
  ScopeSettled c (fine scope) = ScopeAllowed c scope
  ScopeSettled c (bad error description) = Unit

  abbrev ResourcesSettled : Option OAuthClient → Settled (Option (List String)) → Type 0
  ResourcesSettled c (fine resource) = ResourcesAllowed c (listed resource)
  ResourcesSettled c (bad error description) = Unit

  settled-ScopeSettled :
      (c : OAuthClient) (scope error : Option String)
      → (error ≡ none
          → scope_enforcement_active config.settings ≡ true
          → Fits c config.settings.scopes_supported scope)
      → ScopeSettled (some c) (settled_scope scope error)
  settled-ScopeSettled c scope none fits =
      λ on. blank-Fits c config.settings.scopes_supported scope (fits refl on)
  settled-ScopeSettled c scope (some d) fits = tt

  device_scope-ScopeSettled :
      (c : Option OAuthClient) (requested : String)
      → ScopeSettled c (device_scope config c requested)
  unfolding device_scope
  device_scope-ScopeSettled none requested = tt
  device_scope-ScopeSettled (some c) requested =
      let active = scope_enforcement_active config.settings in
      let vocabulary = config.settings.scopes_supported in
      let result = resolve_scope (some requested) c vocabulary active (some "openid") false in
      settled-ScopeSettled c result.granted result.error_description
        (λ e on. scope-Fits c (some requested) vocabulary active (ground (arith, e)) on)

  settled-ResourcesSettled :
      (c : OAuthClient) (x : ResourceResult)
      → ((xs : List String) → x ≡ granted xs → All (Targetable is_valid c none) xs)
      → ResourcesSettled (some c) (settled_resources repr x)
  settled-ResourcesSettled c (granted []) fit = tt
  settled-ResourcesSettled c (granted (x ∷ xs)) fit = fit (x ∷ xs) refl
  settled-ResourcesSettled c (invalid_target e) fit = tt

  nothing_allowed : (c : Option OAuthClient) → ResourcesAllowed c []
  nothing_allowed none = tt
  nothing_allowed (some c) = tt

  device_resources-ResourcesSettled :
      (c : Option OAuthClient) (xs : List String)
      → ResourcesSettled c (device_resources is_valid repr c xs)
  unfolding device_resources
  device_resources-ResourcesSettled c [] = nothing_allowed c
  device_resources-ResourcesSettled none (x ∷ xs) = tt
  device_resources-ResourcesSettled (some c) (x ∷ xs) =
      settled-ResourcesSettled c (resolve_resources is_valid c none (x ∷ xs))
        (λ ys e. granted-All is_valid c none _ ys e)

  -- The client of the request.
  abbrev pub asker : Option OAuthClient
  asker = client is_valid repr device_code user_code config r candidate

  -- The call of the store's `create`.
  abbrev pub creation : String → Option (List String) → DeviceCodeStore → DeviceCodeStore × Bool
  creation scope resource store =
      create r.transport.now device_code user_code
        (device_request is_valid repr device_code user_code config r candidate scope resource) store

  -- What a request does to the store of device authorizations.
  pub data Start (s : IdpState) (x : IdpState × StartReply) : Type 0 where
    rejected : x.0.devices ≡ s.devices → is_started x.1 ≡ false → Start s x
    entered :
        (scope : String) (resource : Option (List String))
        → MayStart
        → ScopeAllowed asker scope
        → ResourcesAllowed asker (listed resource)
        → x.0.devices ≡ (creation scope resource s.devices).0
        → is_started x.1 ≡ (creation scope resource s.devices).1
        → Start s x

  created-Start :
      (scope : String) (resource : Option (List String)) (c : DeviceCodeStore × Bool) (s : IdpState)
      → creation scope resource s.devices ≡ c
      → MayStart
      → ScopeAllowed asker scope
      → ResourcesAllowed asker (listed resource)
      → Start s (created is_valid repr device_code user_code config r candidate scope c s)
  created-Start scope resource (store, false) s e m f g =
      entered scope resource m f g (rw e refl) (rw e refl)
  created-Start scope resource (store, true) s e m f g =
      entered scope resource m f g (rw e refl) (rw e refl)

  resources-Start :
      (scope : String) (x : Settled (Option (List String))) (s : IdpState)
      → MayStart
      → ScopeAllowed asker scope
      → ResourcesSettled asker x
      → Start s (start_resources is_valid repr device_code user_code config r candidate scope x s)
  resources-Start scope (bad error description) s m f g = rejected refl refl
  resources-Start scope (fine resource) s m f g =
      created-Start scope resource (creation scope resource s.devices) s refl m f g

  scope-Start :
      (x : Settled String) (s : IdpState)
      → MayStart
      → ScopeSettled asker x
      → Start s (start_scope is_valid repr device_code user_code config r candidate x s)
  scope-Start (bad error description) s m f = rejected refl refl
  scope-Start (fine scope) s m f =
      resources-Start scope _ s m f
        (device_resources-ResourcesSettled asker (form_getlist "resource" r.form))

  -- A device authorization request leaves the store of device authorizations as it was and gets no
  -- codes, or it asks the store to create an authorization, whose answer decides whether codes are
  -- handed out: then the client may start one, and its scope and resources are ones that it may have.
  pub device_authorization-Start :
      (s : IdpState)
      → Start s (device_authorization is_valid repr device_code user_code config r candidate s)
  unfolding device_authorization
  device_authorization-Start s = elim (Option-cases (device_auth_error config r)) [
    | inr (reason, e) ↦ rw e (rejected refl refl)
    | inl e ↦ rw e (scope-Start _ s (may_start e) (device_scope-ScopeSettled asker _))
  ]

-- The store holds a token id that was just revoked, whatever its retention.
revoked_now :
    (now : ℕ) (jti : String) (store : RevocationStore)
    → is_revoked (some jti) (Revocation.revoke now jti unset store) ≡ true
unfolding is_revoked Revocation.revoke
revoked_now now jti store =
    let swept = sweep now store in
    rw
      (
        get-put jti jti (later_of (or_zero (get jti swept.tokens)) (effective_expiry now unset))
            swept.tokens,
        eq_refl jti,
      )
      refl

-- A logout whose hint decodes to claims with a token id (not blank) revokes that id, though nobody has
-- verified the hint's signature or authenticated a client, and leaves the codes and the device
-- authorizations as they were.
pub end_session_revokes :
    (decode : String → Option (Dict Json)) (r : AuthorizeRequest) (s : WebState) (hint jti : String)
    (claims : Dict Json)
    → param decode r "id_token_hint" ≡ some hint
    → hint ≢ ""
    → decode hint ≡ some claims
    → text_claim (get "jti" claims) ≡ some jti
    → jti ≢ ""
    → (is_revoked (some jti) (end_session decode r s).0.idp.revocations ≡ true)
      × ((end_session decode r s).0.idp.codes ≡ s.idp.codes)
      × ((end_session decode r s).0.idp.devices ≡ s.idp.devices)
unfolding end_session
end_session_revokes decode r s hint jti claims shown given decoded named id =
    let has_hint : (hint == "") ≡ false = ground (arith, given, eq_iff hint "") in
    let has_id : (jti == "") ≡ false = ground (arith, id, eq_iff jti "") in
    rw (shown, has_hint, decoded, named, has_id)
      (revoked_now r.request.transport.now jti s.idp.revocations, refl, refl)
