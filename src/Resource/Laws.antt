-- ===== src/Resource/Laws.antt =====
-- What resource indicators are granted (src/nanoidp/services/resource.py).
use nanoidp.Prelude.{
  String, ◌≡◌, refl, sym, ap, ◌∙◌, ◌↔◌, ◌⊎◌, inl, inr, Bool, true, false, not, ◌&&◌, ◌||◌, Option,
  none, some, List, [], ◌∷◌, ◌++◌, arith, eq_iff, if◌then◌else◌, is_none, is_empty, elem, all, All,
  Bool-cases,
}
use nanoidp.Models.{OAuthClient}
use nanoidp.Resource.{
  ResourceError, ResourceResult, granted, invalid_target, is_outside, refuse, resolve_from,
  resolve_resources,
}

abbrev pub no_repeats : List String → Bool
no_repeats [] = true
no_repeats (x ∷ xs) = not (elem x xs) && no_repeats xs

pub elem-append : (x : String) (xs ys : List String) → elem x (xs ++ ys) ≡ (elem x xs || elem x ys)
elem-append x [] ys = refl
elem-append x (y ∷ xs) ys = ground (arith, elem-append x xs ys)

no_repeats-push :
    (xs : List String) (x : String) → elem x xs ≡ false → no_repeats (xs ++ x ∷ []) ≡ no_repeats xs
no_repeats-push [] x h = refl
no_repeats-push (y ∷ xs) x h =
    ground (arith, no_repeats-push xs x, elem-append y xs (x ∷ []), eq_iff x y, eq_iff y x, h)

abbrev pub granted_list : ResourceResult → List String
granted_list (granted xs) = xs
granted_list (invalid_target e) = []

abbrev pub is_granted : ResourceResult → Bool
is_granted (granted xs) = true
is_granted (invalid_target e) = false

module _ (is_valid : String → Bool) (client : OAuthClient)
    (allowed_subset : Option (List String)) where
  -- The value is an indicator, on the client's list if it has one, and in the prior grant if any.
  abbrev pub Targetable : String → Type 0
  Targetable value =
      (is_valid value ≡ true)
      × ((is_empty client.allowed_resources ≡ true) ⊎ (elem value client.allowed_resources ≡ true))
      × (is_outside allowed_subset value ≡ false)

  refuse-none_iff :
      (value : String) → (refuse is_valid client allowed_subset value ≡ none) ↔ Targetable value
  unfolding refuse
  refuse-none_iff value = (
    λ h. (
      ground (arith, h),
      elim (Bool-cases (is_empty client.allowed_resources)) [
        | inl free ↦ inl free
        | inr listed ↦ inr (ground (arith, h, listed))
      ],
      ground (arith, h),
    ),
    λ t. ground (arith, t),
  )

  none_of : (o : Option ResourceError) → is_none o ≡ true → o ≡ none
  none_of none h = refl
  none_of (some e) h = cc

  abbrev pub accepts : String → Bool
  accepts value = is_none (refuse is_valid client allowed_subset value)

  -- The order-preserving list of the values that are not in `so_far`, without repeats.
  abbrev pub added : List String → List String → List String
  added so_far [] = so_far
  added so_far (value ∷ values) =
      added (if elem value so_far then so_far else so_far ++ value ∷ []) values

  pub resolve_from-is_granted :
      (so_far values : List String)
      → is_granted (resolve_from is_valid client allowed_subset so_far values) ≡ all accepts values
  unfolding resolve_from
  resolve_from-is_granted so_far [] = refl
  resolve_from-is_granted so_far (value ∷ values) = ground (
    arith,
    resolve_from-is_granted (if elem value so_far then so_far else so_far ++ value ∷ []) values,
  )

  pub resolve_from-added :
      (so_far values : List String)
      → all accepts values ≡ true
      → resolve_from is_valid client allowed_subset so_far values ≡ granted (added so_far values)
  unfolding resolve_from
  resolve_from-added so_far [] h = refl
  resolve_from-added so_far (value ∷ values) h = ground (
    arith,
    h,
    resolve_from-added (if elem value so_far then so_far else so_far ++ value ∷ []) values,
  )

  elem-added :
      (x : String) (so_far values : List String)
      → elem x (added so_far values) ≡ (elem x so_far || elem x values)
  elem-added x so_far [] = ground arith
  elem-added x so_far (value ∷ values) = ground (
    arith,
    elem-added x (if elem value so_far then so_far else so_far ++ value ∷ []) values,
    elem-append x so_far (value ∷ []),
    eq_iff x value,
  )

  no_repeats-added :
      (so_far values : List String)
      → no_repeats so_far ≡ true
      → no_repeats (added so_far values) ≡ true
  no_repeats-added so_far [] h = h
  no_repeats-added so_far (value ∷ values) h = elim (Bool-cases (elem value so_far)) [
    | inl old ↦ rw old (no_repeats-added so_far values h)
    | inr new ↦
        rw new
          (no_repeats-added (so_far ++ value ∷ []) values (no_repeats-push so_far value new ∙ h))
  ]

  all-Targetable : (values : List String) → all accepts values ≡ true → All Targetable values
  all-Targetable [] h = tt
  all-Targetable (value ∷ values) h = (
    (refuse-none_iff value).0
        (none_of (refuse is_valid client allowed_subset value) (ground (arith, h))),
    all-Targetable values (ground (arith, h)),
  )

  all-accepts : (values : List String) → All Targetable values → all accepts values ≡ true
  all-accepts [] h = refl
  all-accepts (value ∷ values) (t, ts) =
      ground (arith, (refuse-none_iff value).1 t, all-accepts values ts)

  -- A request is granted exactly when each of its values is a valid indicator, is on the client's
  -- list if it has one, and lies in the prior grant if there was one.
  pub resolve_resources-granted_iff :
      (requested : List String)
      → (is_granted (resolve_resources is_valid client allowed_subset requested) ≡ true)
        ↔ All Targetable requested
  unfolding resolve_resources
  resolve_resources-granted_iff requested = (
    λ h. all-Targetable requested (sym (resolve_from-is_granted [] requested) ∙ h),
    λ t. resolve_from-is_granted [] requested ∙ all-accepts requested t,
  )

  granted_added :
      (requested xs : List String)
      → resolve_resources is_valid client allowed_subset requested ≡ granted xs
      → xs ≡ added [] requested
  unfolding resolve_resources
  granted_added requested xs h =
      let fine : all accepts requested ≡ true =
        sym (resolve_from-is_granted [] requested) ∙ ap is_granted h in
      ap granted_list (sym h ∙ resolve_from-added [] requested fine)

  -- What is granted has no repeats, and holds a value exactly when the request does.
  pub resolve_resources-granted :
      (requested xs : List String) (value : String)
      → resolve_resources is_valid client allowed_subset requested ≡ granted xs
      → (no_repeats xs ≡ true) × (elem value xs ≡ elem value requested)
  resolve_resources-granted requested xs value h =
      let e = granted_added requested xs h in
      rw e (no_repeats-added [] requested refl, elem-added value [] requested)
