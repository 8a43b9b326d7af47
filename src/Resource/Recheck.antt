-- ===== src/Resource/Recheck.antt =====
-- Granted resources at a later request (src/nanoidp/services/resource.py).
use nanoidp.Prelude.{
  String, ◌≡◌, refl, sym, subst, ap, ◌∙◌, inl, inr, Bool, true, false, not, Option, none, some,
  List, [], ◌∷◌, ◌++◌, arith, ◌==◌, eq_iff, eq_refl, elem, all, All, Bool-cases,
}
use mathlib.Core.List.{append-nil, append_assoc}
use nanoidp.Models.{OAuthClient}
use nanoidp.Resource.{granted, refuse, resolve_resources}
use nanoidp.Resource.Laws.{
  elem-append, accepts, added, resolve_from-is_granted, resolve_from-added, no_repeats, is_granted,
  Targetable, resolve_resources-granted_iff, resolve_resources-granted,
}

-- Without repeats and apart from what is there, the loop adds the values as they stand.
added-append :
    (is_valid : String → Bool) (client : OAuthClient) (allowed_subset : Option (List String))
    (so_far values : List String)
    → no_repeats values ≡ true
    → all (λ v. not (elem v so_far)) values ≡ true
    → added is_valid client allowed_subset so_far values ≡ so_far ++ values
added-append is_valid client subset so_far [] n d = sym (append-nil so_far)
added-append is_valid client subset so_far (v ∷ values) n d =
    rw (head_new (elem v so_far) (ground (arith, d))) (
      added-append is_valid client subset (so_far ++ v ∷ []) values (ground (arith, n))
        (apart so_far v values (ground (arith, n)) (ground (arith, d)))
      ∙ append_assoc so_far (v ∷ []) values)
  where
    head_new : (b : Bool) → not b ≡ true → b ≡ false
    head_new b h = ground (arith, h)

    apart :
        (so_far : List String) (v : String) (values : List String)
        → elem v values ≡ false
        → all (λ x. not (elem x so_far)) values ≡ true
        → all (λ x. not (elem x (so_far ++ v ∷ []))) values ≡ true
    apart so_far v [] e d = refl
    apart so_far v (x ∷ values) e d =
        ground (
          arith,
          apart so_far v values,
          e,
          d,
          elem-append x so_far (v ∷ []),
          eq_iff x v,
          eq_iff v x,
        )

pub all_of_elem :
    (p : String → Bool) (xs : List String)
    → ((x : String) → elem x xs ≡ true → p x ≡ true)
    → all p xs ≡ true
all_of_elem p [] h = refl
all_of_elem p (x ∷ xs) h =
    ground (arith, h x, eq_refl x, all_of_elem p xs (λ y m. h y (ground (arith, m))))

elem_of_all :
    (p : String → Bool) (xs : List String) (x : String)
    → all p xs ≡ true
    → elem x xs ≡ true
    → p x ≡ true
elem_of_all p [] x h m = cc
elem_of_all p (y ∷ xs) x h m = elim (Bool-cases (x == y)) [
  | inl same ↦ subst (λ z. p z ≡ true) (sym ((eq_iff x y).0 same)) (ground (arith, h))
  | inr other ↦ elem_of_all p xs x (ground (arith, h)) (ground (arith, m, other))
]

-- A value that fits under a prior grant fits without one.
accepts_unbounded :
    (is_valid : String → Bool) (client : OAuthClient) (subset : Option (List String))
    (value : String)
    → accepts is_valid client subset value ≡ true
    → accepts is_valid client none value ≡ true
unfolding refuse
accepts_unbounded is_valid client subset value h = ground (arith, h)

All-of_elem :
    (P : String → Type 0) (xs : List String) → ((x : String) → elem x xs ≡ true → P x) → All P xs
All-of_elem P [] h = tt
All-of_elem P (x ∷ xs) h =
    (h x (ground (arith, eq_refl x)), All-of_elem P xs (λ y m. h y (ground (arith, m))))

elem_of_All :
    (P : String → Type 0) (xs : List String) (x : String) → All P xs → elem x xs ≡ true → P x
elem_of_All P [] x h m = cc
elem_of_All P (y ∷ xs) x (p, ps) m = elim (Bool-cases (x == y)) [
  | inl same ↦ subst P (sym ((eq_iff x y).0 same)) p
  | inr other ↦ elem_of_All P xs x ps (ground (arith, m, other))
]

-- Each granted value is one that the client may name, within the prior grant if there was one.
pub granted-All :
    (is_valid : String → Bool) (client : OAuthClient) (allowed_subset : Option (List String))
    (requested xs : List String)
    → resolve_resources is_valid client allowed_subset requested ≡ granted xs
    → All (Targetable is_valid client allowed_subset) xs
granted-All is_valid client subset requested xs h =
    let fits = (resolve_resources-granted_iff is_valid client subset requested).0 (rw h refl) in
    All-of_elem (Targetable is_valid client subset) xs (λ x m.
      elem_of_All (Targetable is_valid client subset) requested x fits
        (sym (resolve_resources-granted is_valid client subset requested xs x h).1 ∙ m))

-- A list that is re-validated as a whole is granted nothing from outside of it.
pub granted_within :
    (is_valid : String → Bool) (client : OAuthClient) (requested xs : List String)
    → resolve_resources is_valid client none requested ≡ granted xs
    → All (Targetable is_valid client (some requested)) xs
granted_within is_valid client requested xs h =
    All-of_elem (Targetable is_valid client (some requested)) xs (λ x m.
      let (valid, listed, _) =
        elem_of_All (Targetable is_valid client none) xs x
          (granted-All is_valid client none requested xs h) m in
      let (_, same) = resolve_resources-granted is_valid client none requested xs x h in
      (valid, listed, ground (arith, m, same)))

-- The list that was granted, asked for again for the same client with no prior grant to bound it, is
-- granted as it stands: an inherited resource set survives its re-validation unchanged.
pub resolve_resources-recheck :
    (is_valid : String → Bool) (client : OAuthClient) (allowed_subset : Option (List String))
    (requested xs : List String)
    → resolve_resources is_valid client allowed_subset requested ≡ granted xs
    → resolve_resources is_valid client none xs ≡ granted xs
unfolding resolve_resources
resolve_resources-recheck is_valid client subset requested xs h =
    let fine : all (accepts is_valid client subset) requested ≡ true =
      sym (resolve_from-is_granted is_valid client subset [] requested) ∙ ap is_granted h in
    let laws = λ (x : String). resolve_resources-granted is_valid client subset requested xs x h in
    let again : all (accepts is_valid client none) xs ≡ true =
      all_of_elem (accepts is_valid client none) xs (λ x m.
        accepts_unbounded is_valid client subset x
          (elem_of_all (accepts is_valid client subset) requested x fine (sym (laws x).1 ∙ m))) in
    resolve_from-added is_valid client none [] xs again
    ∙ ap granted
        (added-append is_valid client none [] xs (laws "").0 (all_of_elem _ xs (λ x m. refl)))
