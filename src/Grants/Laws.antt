-- ===== src/Grants/Laws.antt =====
-- How an action of the token endpoint ends and what it writes (src/nanoidp/routes/oauth_grants.py).
use nanoidp.Prelude.{
  String, ◌≡◌, refl, sym, subst, ap, ◌∙◌, Bool, true, false, Option, none, some, List, [], ◌∷◌,
  arith, Option-cases, Bool-cases, inl, inr, ◌⊎◌, All, is_empty,
}
use nanoidp.Models.{OAuthClient, scope_enforcement_active}
use nanoidp.Scope.{ScopeResult, resolve_scope, ok}
use nanoidp.Scope.Laws.{Fits, resolve_scope-granted, resolve_scope-ok_iff}
use nanoidp.Resource.{ResourceError, ResourceResult, granted, invalid_target, resolve_resources}
use nanoidp.Resource.Laws.{Targetable}
use nanoidp.Resource.Recheck.{granted-All, granted_within}
use nanoidp.ClientAuth.{form_getlist}
use nanoidp.Response.{OAuthError}
use nanoidp.Grants.Monad.{IdpState, Step, next, answer}
use nanoidp.Grants.Defs.{
  or_nil, resource_outcome, inherit_resource, request_resource, GrantContext, check_grant_scope,
  scope_outcome, resolve_token_resource,
}

-- The stores are as they were: only the audit log may have grown.
abbrev pub SameStores : IdpState → IdpState → Type 0
SameStores s t = (t.codes ≡ s.codes) × (t.devices ≡ s.devices) × (t.revocations ≡ s.revocations)

-- How an action ended that writes nothing but audit entries: it handed a value on with no write at all,
-- or answered the request.
pub data Verdict {A : Type 0} (P : A → Type 0) (s : IdpState) (r : IdpState × Step A) : Type 0 where
  passes : (a : A) → r ≡ (s, next a) → P a → Verdict P s r
  rejects : (t : IdpState) (e : OAuthError) → r ≡ (t, answer e) → SameStores s t → Verdict P s r

pub Verdict-SameStores :
    {A : Type 0} {P : A → Type 0} (s : IdpState) (r : IdpState × Step A)
    → Verdict P s r
    → SameStores s r.0
Verdict-SameStores s r (passes a e p) = rw e (refl, refl, refl)
Verdict-SameStores s r (rejects t x e k) = rw e k

-- The scope fits the grant's client, where enforcement is on and the client is registered.
abbrev pub ScopeFits : GrantContext → Option OAuthClient → Option String → Type 0
ScopeFits ctx none scope = Unit
ScopeFits ctx (some client) scope =
    scope_enforcement_active ctx.config.settings ≡ true
    → Fits client ctx.config.settings.scopes_supported scope

resolve_scope_same :
    (active : Bool) (client : OAuthClient) (vocabulary : List String) (scope : Option String)
    → ok (resolve_scope scope client vocabulary active none true) ≡ true
    → ((resolve_scope scope client vocabulary active none true).granted ≡ scope)
      × (active ≡ true → Fits client vocabulary scope)
resolve_scope_same false client vocabulary scope h = (unfold resolve_scope in refl, λ e. cc)
resolve_scope_same true client vocabulary scope h = (
  ap (λ (r : ScopeResult). r.granted) (resolve_scope-granted scope client vocabulary none true h),
  λ e. (resolve_scope-ok_iff scope client vocabulary none true).0 h,
)

scope_outcome-Verdict :
    (ctx : GrantContext) (who : Option String) (r : ScopeResult) (s : IdpState)
    → Verdict (λ v. (ok r ≡ true) × (r.granted ≡ v)) s (scope_outcome ctx who r s)
scope_outcome-Verdict ctx who r s = elim (Option-cases r.error_description) [
  | inl e ↦ passes r.granted (ground (arith, e)) (ground (arith, e), refl)
  | inr (d, e) ↦ rw e (rejects _ _ refl (refl, refl, refl))
]

-- A scope that passes the check without defaulting is the scope that was checked, and it fits.
pub check_grant_scope-Verdict :
    (ctx : GrantContext) (who : Option String) (client : Option OAuthClient) (scope : Option String)
    (s : IdpState)
    → Verdict
        (λ v. (v ≡ scope) × ScopeFits ctx client v)
        s
        (check_grant_scope ctx who client scope true s)
unfolding check_grant_scope
check_grant_scope-Verdict ctx who none scope s = passes scope refl (refl, tt)
check_grant_scope-Verdict ctx who (some client) scope s =
    let active = scope_enforcement_active ctx.config.settings in
    let vocabulary = ctx.config.settings.scopes_supported in
    elim (scope_outcome-Verdict ctx who (resolve_scope scope client vocabulary active none true)
      s) [
        | passes v e (fine, own) ↦
            let (same, fits) = resolve_scope_same active client vocabulary scope fine in
            let p : v ≡ scope = sym own ∙ same in
            passes v e (p, λ on. subst (Fits client vocabulary) (sym p) (fits on))
        | rejects t x e k ↦ rejects t x e k
      ]

resolve_scope-Fits :
    (active : Bool) (client : OAuthClient) (vocabulary : List String) (scope : Option String)
    (b : Bool)
    → ok (resolve_scope scope client vocabulary active none b) ≡ true
    → active ≡ true
    → Fits client vocabulary (resolve_scope scope client vocabulary active none b).granted
resolve_scope-Fits false client vocabulary scope b h on = cc
resolve_scope-Fits true client vocabulary scope b h on =
    rw (resolve_scope-granted scope client vocabulary none b h)
      ((resolve_scope-ok_iff scope client vocabulary none b).0 h)

-- A scope that passes the check, defaulted or not, fits.
pub check_grant_scope-ScopeFits :
    (ctx : GrantContext) (who : Option String) (client : Option OAuthClient) (scope : Option String)
    (b : Bool) (s : IdpState)
    → Verdict (ScopeFits ctx client) s (check_grant_scope ctx who client scope b s)
unfolding check_grant_scope
check_grant_scope-ScopeFits ctx who none scope b s = passes scope refl tt
check_grant_scope-ScopeFits ctx who (some client) scope b s =
    let active = scope_enforcement_active ctx.config.settings in
    let vocabulary = ctx.config.settings.scopes_supported in
    elim (scope_outcome-Verdict ctx who (resolve_scope scope client vocabulary active none b) s) [
      | passes v e (fine, own) ↦ passes v e (λ on.
          subst (Fits client vocabulary) own
            (resolve_scope-Fits active client vocabulary scope b fine on))
      | rejects t x e k ↦ rejects t x e k
    ]

resource_cases :
    (r : ResourceResult)
    → ((xs : List String) × (r ≡ granted xs)) ⊎ ((e : ResourceError) × (r ≡ invalid_target e))
resource_cases (granted xs) = inl (xs, refl)
resource_cases (invalid_target e) = inr (e, refl)

module _ (is_valid : String → Bool) (repr : String → String) where
  -- Each resource is one that the client may name, and was part of the prior grant where there was one.
  abbrev pub ResourcesFit :
      Option OAuthClient → Option (List String) → Option (List String) → Type 0
  ResourcesFit none original resource = Unit
  ResourcesFit (some client) original resource =
      All (Targetable is_valid client original) (or_nil resource)

  resource_outcome-Verdict :
      (ctx : GrantContext) (client : OAuthClient) (subset : Option (List String))
      (r : ResourceResult) (s : IdpState)
      → ((xs : List String) → r ≡ granted xs → All (Targetable is_valid client subset) xs)
      → Verdict
          (λ v. All (Targetable is_valid client subset) (or_nil v))
          s
          (resource_outcome is_valid repr ctx r s)
  resource_outcome-Verdict ctx client subset (granted []) s fit = passes none refl tt
  resource_outcome-Verdict ctx client subset (granted (x ∷ xs)) s fit =
      passes (some (x ∷ xs)) refl (fit (x ∷ xs) refl)
  resource_outcome-Verdict ctx client subset (invalid_target e) s fit =
      rejects _ _ refl (refl, refl, refl)

  inherit_resource-Verdict :
      (ctx : GrantContext) (client : Option OAuthClient) (xs : List String) (s : IdpState)
      → Verdict (ResourcesFit client (some xs)) s (inherit_resource is_valid repr ctx client xs s)
  inherit_resource-Verdict ctx none [] s = passes none refl tt
  inherit_resource-Verdict ctx none (x ∷ xs) s = passes (some (x ∷ xs)) refl tt
  inherit_resource-Verdict ctx (some client) [] s = passes none refl tt
  inherit_resource-Verdict ctx (some client) (x ∷ xs) s =
      elim (resource_cases (resolve_resources is_valid client none (x ∷ xs))) [
        | inl (ys, e) ↦ rw e (granted_list ys (granted_within is_valid client (x ∷ xs) ys e))
        | inr (t, e) ↦ rw e (rejects _ _ refl (refl, refl, refl))
      ]
    where
      granted_list :
          (ys : List String)
          → All (Targetable is_valid client (some (x ∷ xs))) ys
          → Verdict
              (ResourcesFit (some client) (some (x ∷ xs)))
              s
              (resource_outcome is_valid repr ctx (granted ys) s)
      granted_list [] fit = passes none refl tt
      granted_list (y ∷ ys) fit = passes (some (y ∷ ys)) refl fit

  -- The resources that the token endpoint binds fit the client and the prior grant.
  pub resolve_token_resource-Verdict :
      (ctx : GrantContext) (client : Option OAuthClient) (original : List String) (s : IdpState)
      → Verdict
          (ResourcesFit client (some original))
          s
          (resolve_token_resource is_valid repr ctx client (some original) s)
  unfolding resolve_token_resource
  resolve_token_resource-Verdict ctx client original s =
      elim (Bool-cases (is_empty (form_getlist "resource" ctx.request.form))) [
        | inl omitted ↦ rw omitted (inherit_resource-Verdict ctx client original s)
        | inr asked ↦ rw asked (requested client)
      ]
    where
      requested :
          (client : Option OAuthClient)
          → Verdict (ResourcesFit client (some original)) s (
              request_resource is_valid repr ctx client
                (some original)
                (form_getlist "resource" ctx.request.form)
                s)
      requested none = rejects _ _ refl (refl, refl, refl)
      requested (some client) =
          resource_outcome-Verdict ctx client (some original)
            (resolve_resources is_valid client (some original)
              (form_getlist "resource" ctx.request.form))
            s (λ xs e. granted-All is_valid client (some original) _ xs e)

  -- So do those that it binds without a prior grant.
  pub requested_resource-Verdict :
      (ctx : GrantContext) (client : Option OAuthClient) (s : IdpState)
      → Verdict
          (ResourcesFit client none)
          s
          (resolve_token_resource is_valid repr ctx client none s)
  unfolding resolve_token_resource
  requested_resource-Verdict ctx client s =
      elim (Bool-cases (is_empty (form_getlist "resource" ctx.request.form))) [
        | inl omitted ↦ rw omitted (nothing client)
        | inr asked ↦ rw asked (requested client)
      ]
    where
      nothing :
          (client : Option OAuthClient)
          → Verdict (ResourcesFit client none) s (inherit_resource is_valid repr ctx client [] s)
      nothing none = passes none refl tt
      nothing (some client) = passes none refl tt

      requested :
          (client : Option OAuthClient)
          → Verdict (ResourcesFit client none) s (
              request_resource is_valid repr ctx client none
                (form_getlist "resource" ctx.request.form)
                s)
      requested none = rejects _ _ refl (refl, refl, refl)
      requested (some client) =
          resource_outcome-Verdict ctx client none
            (resolve_resources is_valid client none (form_getlist "resource" ctx.request.form)) s
            (λ xs e. granted-All is_valid client none _ xs e)

pub answer_next : {A : Type 0} {e : OAuthError} {a : A} → answer e ≡ next a → ⊥
answer_next h = cc

pub next_injective : {A : Type 0} {a b : A} → next a ≡ next b → a ≡ b
next_injective h = cc
