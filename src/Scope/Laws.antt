-- ===== src/Scope/Laws.antt =====
-- What a granted scope holds (src/nanoidp/services/scope.py).
use nanoidp.Prelude.{
  String, ◌≡◌, refl, ◌∙◌, ◌↔◌, ◌⊎◌, inl, inr, Bool, true, false, not, Option, none, some, List,
  arith, ◌==◌, eq_iff, is_empty, elem, keep, all, split, is_empty-sorted_set, is_empty-missing,
  Bool-cases,
}
use nanoidp.Models.{OAuthClient}
use nanoidp.Scope.{
  ok, accept, check_scope, check_effective, effective_scope, missing_from, resolve_scope,
}

-- The client may have every word of the scope: all are in the vocabulary and, where the client has an
-- allow-list, all are on it.
abbrev pub IsPermitted : OAuthClient → List String → String → Type 0
IsPermitted client vocabulary scope =
    (all (λ t. elem t vocabulary) (split scope) ≡ true)
    × ((is_empty client.allowed_scopes ≡ true)
        ⊎ (all (λ t. elem t client.allowed_scopes) (split scope) ≡ true))

is_empty-missing_from :
    (allowed tokens : List String)
    → is_empty (missing_from allowed tokens) ≡ all (λ t. elem t allowed) tokens
is_empty-missing_from allowed tokens =
    is_empty-sorted_set (keep (λ t. not (elem t allowed)) tokens) ∙ is_empty-missing allowed tokens

check_scope-ok_iff :
    (scope : String) (client : OAuthClient) (vocabulary : List String)
    → (ok (check_scope scope client vocabulary) ≡ true) ↔ IsPermitted client vocabulary scope
check_scope-ok_iff scope client vocabulary =
    let v = is_empty-missing_from vocabulary (split scope) in
    let a = is_empty-missing_from client.allowed_scopes (split scope) in
    (
      λ h. (
        ground (arith, h, v, a),
        elim (Bool-cases (is_empty client.allowed_scopes)) [
          | inl free ↦ inl free
          | inr listed ↦ inr (ground (arith, h, v, a, listed))
        ],
      ),
      λ p. ground (arith, p, v, a),
    )

check_scope-granted :
    (scope : String) (client : OAuthClient) (vocabulary : List String)
    → ok (check_scope scope client vocabulary) ≡ true
    → (check_scope scope client vocabulary).granted ≡ some scope
check_scope-granted scope client vocabulary h = ground (arith, h)

-- What a scope must be to be granted to the client: absent, blank, or permitted.
abbrev pub Fits : OAuthClient → List String → Option String → Type 0
Fits client vocabulary none = Unit
Fits client vocabulary (some scope) = (scope ≡ "") ⊎ IsPermitted client vocabulary scope

check_effective-ok_iff :
    (o : Option String) (client : OAuthClient) (vocabulary : List String)
    → (ok (check_effective o client vocabulary) ≡ true) ↔ Fits client vocabulary o
check_effective-ok_iff none client vocabulary = (λ h. tt, λ f. refl)
check_effective-ok_iff (some scope) client vocabulary =
    let (to, from) = check_scope-ok_iff scope client vocabulary in
    elim (Bool-cases (scope == "")) [
      | inl blank ↦ (λ h. inl ((eq_iff scope "").0 blank), λ f. ground (arith, blank))
      | inr given ↦ (
        λ h. inr (to (rw given at h)),
        λ f. rw given (elim f [
          | inl e ↦ absurd (ground (arith, e, given, eq_iff scope ""))
          | inr p ↦ from p
        ]),
      )
    ]

check_effective-granted :
    (o : Option String) (client : OAuthClient) (vocabulary : List String)
    → ok (check_effective o client vocabulary) ≡ true
    → check_effective o client vocabulary ≡ accept o
check_effective-granted none client vocabulary h = refl
check_effective-granted (some scope) client vocabulary h = ground (arith, h)

module _ (requested : Option String) (client : OAuthClient) (vocabulary : List String)
    (default_when_omitted : Option String) (validate_only : Bool) where
  -- With enforcement on, a request is accepted exactly when the scope that it comes down to (the
  -- request itself, or the default for an omitted one) is absent, blank or permitted.
  pub resolve_scope-ok_iff :
      (ok (resolve_scope requested client vocabulary true default_when_omitted validate_only)
        ≡ true)
      ↔ Fits client vocabulary (effective_scope requested client default_when_omitted validate_only)
  unfolding resolve_scope
  resolve_scope-ok_iff =
      check_effective-ok_iff (effective_scope requested client default_when_omitted validate_only)
        client vocabulary

  -- An accepted request is granted the very scope that it comes down to, never more.
  pub resolve_scope-granted :
      ok (resolve_scope requested client vocabulary true default_when_omitted validate_only) ≡ true
      → resolve_scope requested client vocabulary true default_when_omitted validate_only
        ≡ accept (effective_scope requested client default_when_omitted validate_only)
  unfolding resolve_scope
  resolve_scope-granted h =
      check_effective-granted (effective_scope requested client default_when_omitted validate_only)
        client vocabulary h

-- What was granted at a request passes the later re-check for the same client unchanged: the scope
-- of a token is neither lost nor widened between the request and the redemption.
pub resolve_scope-recheck :
    (requested : Option String) (client : OAuthClient) (vocabulary : List String) (active : Bool)
    (default_when_omitted : Option String)
    → ok (resolve_scope requested client vocabulary active default_when_omitted false) ≡ true
    → resolve_scope
        (resolve_scope requested client vocabulary active default_when_omitted false).granted
        client
        vocabulary
        active
        none
        true
      ≡ resolve_scope requested client vocabulary active default_when_omitted false
resolve_scope-recheck requested client vocabulary false d h = unfold resolve_scope in refl
resolve_scope-recheck requested client vocabulary true d h =
    let e = resolve_scope-granted requested client vocabulary d false h in
    let again : ok (
          resolve_scope (effective_scope requested client d false) client vocabulary true none true)
        ≡ true =
      (resolve_scope-ok_iff (effective_scope requested client d false) client vocabulary none
          true).1
        ((resolve_scope-ok_iff requested client vocabulary d false).0 h) in
    rw e (
      resolve_scope-granted (effective_scope requested client d false) client vocabulary none true
        again)
