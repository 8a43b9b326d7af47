-- ===== src/Revocation/Claim.antt =====
-- The check and claim of the refresh grant (src/nanoidp/services/revocation.py).
use nanoidp.Prelude.{
  ℕ, String, ◌≡◌, refl, sym, subst, ◌≢◌, ◌⊎◌, inl, inr, Bool, true, false, not, ◌&&◌, ◌||◌, Option,
  none, some, arith, eq_iff, eq_refl, is_none, is_given, Option-cases, Bool-cases,
}
use nanoidp.Dict.{Dict, get, put}
use nanoidp.Dict.Laws.{unless, get-put, put-HasUniqueKeys}
use nanoidp.Revocation.{
  Expiry, ExpiresAt, RevocationStore, effective_expiry, is_past, sweep, is_in, family_retention,
  check_and_claim_refresh,
}
use nanoidp.Revocation.Laws.{
  IsWellFormed, Lasts, Before, trusted, trusted_lasts, get-sweep_tokens, get-sweep_families,
  sweep-IsWellFormed, unless-Lasts, put-Lasts,
}

-- An entry that has not expired.
abbrev pub is_live : ℕ → Option Expiry → Bool
is_live now none = false
is_live now (some e) = not (is_past now e)

abbrev pub is_live_in : ℕ → Option String → Dict Expiry → Bool
is_live_in now none d = false
is_live_in now (some k) d = is_live now (get k d)

is_in-swept : (now : ℕ) (o : Option Expiry) → not (is_none (unless (is_past now) o)) ≡ is_live now o
is_in-swept now none = refl
is_in-swept now (some e) = ground arith

module _ (now : ℕ) (jti family : Option String) (rotate : Bool) (x : ExpiresAt)
    (s : RevocationStore) (w : IsWellFormed s) where
  token_live : is_in jti (sweep now s).tokens ≡ is_live_in now jti s.tokens
  token_live = elim (Option-cases jti) [
    | inl e ↦ rw e
    | inr (k, e) ↦ rw e (rw (get-sweep_tokens now s w k) (is_in-swept now (get k s.tokens)))
  ]

  family_live : is_in family (sweep now s).families ≡ is_live_in now family s.families
  family_live = elim (Option-cases family) [
    | inl e ↦ rw e
    | inr (k, e) ↦ rw e (rw (get-sweep_families now s w k) (is_in-swept now (get k s.families)))
  ]

  -- In a store without repeated keys, reuse is detected exactly when the token id, or the given
  -- family, has a revocation that has not expired.
  pub claim-reuse :
      (check_and_claim_refresh now jti family rotate x s).1
      ≡ (is_live_in now jti s.tokens || (is_given family && is_live_in now family s.families))
  unfolding check_and_claim_refresh
  claim-reuse = ground (arith, token_live, family_live)

  tokens_effect :
      ((check_and_claim_refresh now jti family rotate x s).0.tokens ≡ (sweep now s).tokens)
      ⊎ ((j : String) × (jti ≡ some j)
          × (get j (sweep now s).tokens ≡ none)
          × ((check_and_claim_refresh now jti family rotate x s).0.tokens
              ≡ put j (effective_expiry now x) (sweep now s).tokens))
  unfolding check_and_claim_refresh
  tokens_effect = elim (Option-cases jti) [
    | inl e ↦ inl (rw e (ground arith))
    | inr (j, e) ↦ elim (Option-cases (get j (sweep now s).tokens)) [
      | inr (y, f) ↦ inl (rw e (ground (arith, f)))
      | inl f ↦ elim (Bool-cases (is_given family && is_in family (sweep now s).families)) [
        | inl revoked ↦ inl (rw e (ground (arith, f, revoked)))
        | inr fine ↦ elim (Bool-cases (rotate && is_given jti)) [
          | inr not_claimed ↦ inl (ground (arith, e, f, fine, not_claimed))
          | inl claimed ↦ inr (j, e, f, ground (arith, e, f, fine, claimed))
        ]
      ]
    ]
  ]

  families_effect :
      ((check_and_claim_refresh now jti family rotate x s).0.families ≡ (sweep now s).families)
      ⊎ ((j : String) × (family ≡ some j)
          × (get j (sweep now s).families ≡ none)
          × ((check_and_claim_refresh now jti family rotate x s).0.families
              ≡ put j (effective_expiry now (family_retention x)) (sweep now s).families))
  unfolding check_and_claim_refresh
  families_effect = elim (Option-cases family) [
    | inl e ↦ inl (ground (arith, e))
    | inr (j, e) ↦ elim (Option-cases (get j (sweep now s).families)) [
      | inr (y, f) ↦ inl (ground (arith, e, f))
      | inl f ↦ elim (Bool-cases (is_in jti (sweep now s).tokens && (rotate && is_given family))) [
        | inl reused ↦ inr (j, e, f, ground (arith, e, f, reused))
        | inr fine ↦ inl (ground (arith, e, f, fine))
      ]
    ]
  ]

  -- An entry for a token that is to last past `now` lasts as long after the call.
  pub claim_keeps_token :
      (k : String) (e : Expiry)
      → Before now e
      → Lasts e (get k s.tokens)
      → Lasts e (get k (check_and_claim_refresh now jti family rotate x s).0.tokens)
  claim_keeps_token k e b l =
      let l' : Lasts e (get k (sweep now s).tokens) =
        rw (get-sweep_tokens now s w k) (unless-Lasts now e (get k s.tokens) b l) in
      elim tokens_effect [
        | inl same ↦ rw same l'
        | inr (j, _, gone, set) ↦ rw set (
            put-Lasts k j e (effective_expiry now x) (sweep now s).tokens l' (λ p.
              absurd (rw gone at (subst (λ i. Lasts e (get i (sweep now s).tokens)) (sym p) l'))))
      ]

  -- So does an entry for a family.
  pub claim_keeps_family :
      (k : String) (e : Expiry)
      → Before now e
      → Lasts e (get k s.families)
      → Lasts e (get k (check_and_claim_refresh now jti family rotate x s).0.families)
  claim_keeps_family k e b l =
      let l' : Lasts e (get k (sweep now s).families) =
        rw (get-sweep_families now s w k) (unless-Lasts now e (get k s.families) b l) in
      elim families_effect [
        | inl same ↦ rw same l'
        | inr (j, _, gone, set) ↦ rw set (
            put-Lasts k j e (effective_expiry now (family_retention x)) (sweep now s).families l'
              (λ p.
                absurd
                  (rw gone at (subst (λ i. Lasts e (get i (sweep now s).families)) (sym p) l'))))
      ]

  pub claim-IsWellFormed : IsWellFormed (check_and_claim_refresh now jti family rotate x s).0
  claim-IsWellFormed =
      let v = sweep-IsWellFormed now s w in
      record {
        tokens_unique = elim tokens_effect [
          | inl same ↦ rw same v.tokens_unique
          | inr (j, _, _, set) ↦ rw set (put-HasUniqueKeys j _ (sweep now s).tokens v.tokens_unique)
        ];
        families_unique = elim families_effect [
          | inl same ↦ rw same v.families_unique
          | inr (j, _, _, set) ↦
              rw set (put-HasUniqueKeys j _ (sweep now s).families v.families_unique)
        ];
      }

  -- A call with rotation that detects no reuse claims its token id at least to the token's expiry.
  pub claim_takes :
      (j : String)
      → jti ≡ some j
      → j ≢ ""
      → rotate ≡ true
      → (check_and_claim_refresh now jti family rotate x s).1 ≡ false
      → Lasts (trusted x) (get j (check_and_claim_refresh now jti family rotate x s).0.tokens)
  claim_takes j e ne rot h =
      let set : (check_and_claim_refresh now jti family rotate x s).0.tokens
          ≡ put j (effective_expiry now x) (sweep now s).tokens =
        unfold check_and_claim_refresh in ground (arith, e, rot, h, eq_iff j "") in
      rw set (
        rw (get-put j j (effective_expiry now x) (sweep now s).tokens)
          (rw (eq_refl j) (trusted_lasts now x)))

  -- A call with rotation that detects the reuse of a token revokes its family, unless it is revoked
  -- already, for the default retention, or for ever where the token has no expiry.
  pub claim_revokes_family :
      (f : String)
      → family ≡ some f
      → f ≢ ""
      → rotate ≡ true
      → is_live_in now jti s.tokens ≡ true
      → is_live now (get f s.families) ≡ false
      → get f (check_and_claim_refresh now jti family rotate x s).0.families
        ≡ some (effective_expiry now (family_retention x))
  claim_revokes_family f e ne rot live quiet =
      let set : (check_and_claim_refresh now jti family rotate x s).0.families
          ≡ put f (effective_expiry now (family_retention x)) (sweep now s).families =
        unfold check_and_claim_refresh in
        ground (arith, e, rot, live, quiet, token_live, family_live, eq_iff f "") in
      rw set (
        ground (
          arith,
          get-put f f (effective_expiry now (family_retention x)) (sweep now s).families,
          eq_refl f,
        ))
