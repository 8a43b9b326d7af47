-- ===== src/Endpoints/Laws.antt =====
-- What the endpoints that tokens are presented to let happen (src/nanoidp/routes/oauth.py).
use nanoidp.Prelude.{
  ℕ, String, ◌≡◌, ◌≢◌, refl, sym, ap, ◌∙◌, inl, inr, Bool, true, false, Option, none, some, arith,
  ◌==◌, eq_iff, eq_refl, Bool-cases, Option-cases, same,
}
use nanoidp.Dict.{Dict, get}
use nanoidp.Dict.Laws.{get-put}
use nanoidp.Json.{Json, null, bool, num, str, arr, obj}
use nanoidp.Config.{ConfigManager}
use nanoidp.Revocation
use nanoidp.Revocation.{is_revoked, RevocationStore, sweep, effective_expiry, later_of, or_zero}
use nanoidp.ClientAuth.{Request, form_get, request_client_identity, enforce_registered_client_auth}
use nanoidp.Grants.Monad.{IdpState}
use nanoidp.Endpoints.{
  Checked, signed, unsigned, Reply, refusal, json, blank, text_claim, expiry_claim,
}
use nanoidp.Endpoints.Revoke.{
  revoke, revoke_auth_error, revoke_checked, revoke_id, is_foreign, comes_public,
}
use nanoidp.Endpoints.Introspect.{introspect, introspect_auth_error, introspect_checked}

-- The store after the revocation of a token id, with the id's expiry by its claims.
abbrev pub revoked_by :
    (String → Option ℕ) → Request → Dict Json → String → RevocationStore → RevocationStore
revoked_by to_float r claims jti store =
    Revocation.revoke r.transport.now jti (expiry_claim to_float (get "exp" claims)) store

-- The body says that a token is active.
abbrev is_true : Option Json → Bool
is_true none = false
is_true (some null) = false
is_true (some (bool b)) = b
is_true (some (num n)) = false
is_true (some (str s)) = false
is_true (some (arr a)) = false
is_true (some (obj o)) = false

abbrev pub is_active : Reply → Bool
is_active (refusal status error description) = false
is_active (json d) = is_true (get "active" d)
is_active blank = false

module _ (config : ConfigManager) (r : Request) where
  -- Who may have the endpoints of confidential clients serve them: one identity, not a public
  -- client's, proved as its registered method says.
  pub record IsConfidential : Type 0 where
    pub one : (request_client_identity r).mismatch ≡ false
    pub closed : comes_public config r ≡ false
    pub proved :
        enforce_registered_client_auth config
          (request_client_identity r).client_id
          (request_client_identity r).auth
          (request_client_identity r).body_client_secret
        ≡ none

  introspect_auth : introspect_auth_error config r ≡ none → IsConfidential
  unfolding introspect_auth_error
  introspect_auth h = elim (Bool-cases (request_client_identity r).mismatch) [
    | inl two ↦ absurd (some_none (rw two at h))
    | inr one ↦ elim (Bool-cases (comes_public config r)) [
      | inl open_client ↦ absurd (some_none (rw (one, open_client) at h))
      | inr closed ↦ record { one = one; closed = closed; proved = rw (one, closed) at h }
    ]
  ]
    where
      some_none : {x : String} → some x ≡ none → ⊥
      some_none e = cc

  -- Who may revoke a token with these claims: one identity, and a public client only for a token
  -- that was issued to it; any other proves itself as its registered method says.
  pub record MayRevoke (claims : Dict Json) : Type 0 where
    pub one : (request_client_identity r).mismatch ≡ false
    pub own :
        comes_public config r ≡ true
        → same (text_claim (get "client_id" claims)) (request_client_identity r).client_id ≡ true
    pub proved :
        comes_public config r ≡ false
        → enforce_registered_client_auth config
            (request_client_identity r).client_id
            (request_client_identity r).auth
            (request_client_identity r).body_client_secret
          ≡ none

  may_revoke :
      (claims : Dict Json)
      → revoke_auth_error config r ≡ none
      → is_foreign config r claims ≡ false
      → MayRevoke claims
  unfolding revoke_auth_error
  may_revoke claims h own = record {
    one = ground (arith, h);
    own = λ e. ground (arith, own, e);
    proved = λ e. ground (arith, h, e);
  }

  module _ (to_float : String → Option ℕ) (verify_jwt : String → Option String → Checked) where
    -- What a revocation request does to the store.
    pub data Effect (s : IdpState) (store : RevocationStore) : Type 0 where
      nothing : store ≡ s.revocations → Effect s store
      revoked :
          (token jti : String) (claims : Dict Json)
          → form_get "token" r.form ≡ some token
          → verify_jwt token none ≡ signed claims
          → text_claim (get "jti" claims) ≡ some jti
          → MayRevoke claims
          → store ≡ revoked_by to_float r claims jti s.revocations
          → Effect s store

    checked-Effect :
        (s : IdpState) (token : String) (c : Checked)
        → revoke_auth_error config r ≡ none
        → form_get "token" r.form ≡ some token
        → verify_jwt token none ≡ c
        → Effect s (revoke_checked to_float config r c s).0.revocations
    checked-Effect s token (unsigned m) fine shown v = nothing refl
    checked-Effect s token (signed claims) fine shown v =
        elim (Bool-cases (is_foreign config r claims)) [
          | inl foreign ↦ rw foreign (nothing refl)
          | inr own ↦ rw own (by_id (text_claim (get "jti" claims)) refl own)
        ]
      where
        by_id :
            (o : Option String)
            → text_claim (get "jti" claims) ≡ o
            → is_foreign config r claims ≡ false
            → Effect s (revoke_id to_float r claims o s).0.revocations
        by_id none e own = nothing refl
        by_id (some jti) e own = elim (Bool-cases (jti == "")) [
          | inl empty_id ↦ rw empty_id (nothing refl)
          | inr given ↦
              rw given (revoked token jti claims shown v e (may_revoke claims fine own) refl)
        ]

    -- A revocation request leaves the revocation store as it was, or it revokes the id of the very
    -- token presented, which verifies: then it claims one client identity, a public client owns the
    -- token, and any other client has proved itself.
    pub revoke-Effect :
        (s : IdpState) → Effect s (revoke to_float verify_jwt config r s).0.revocations
    unfolding revoke
    revoke-Effect s = elim (Option-cases (revoke_auth_error config r)) [
      | inr (reason, e) ↦ rw e (nothing refl)
      | inl fine ↦ rw fine (elim (Option-cases (form_get "token" r.form)) [
        | inl e ↦ rw e (nothing refl)
        | inr (token, e) ↦ rw e (elim (Bool-cases (token == "")) [
          | inl empty_token ↦ rw empty_token (nothing refl)
          | inr given ↦ rw given (checked-Effect s token (verify_jwt token none) fine e refl)
        ])
      ])
    ]

    revoke_runs :
        (s : IdpState) (token jti : String) (claims : Dict Json)
        → revoke_auth_error config r ≡ none
        → form_get "token" r.form ≡ some token
        → token ≢ ""
        → verify_jwt token none ≡ signed claims
        → is_foreign config r claims ≡ false
        → text_claim (get "jti" claims) ≡ some jti
        → jti ≢ ""
        → (revoke to_float verify_jwt config r s).0.revocations
          ≡ revoked_by to_float r claims jti s.revocations
    unfolding revoke
    revoke_runs s token jti claims fine shown given v own e named =
        let has_token : (token == "") ≡ false = ground (arith, given, eq_iff token "") in
        let has_id : (jti == "") ≡ false = ground (arith, named, eq_iff jti "") in
        rw (fine, shown, has_token, v, own, e, has_id) refl

  module _ (verify_jwt : String → Option String → Checked) where
    active_checked :
        (s : IdpState) (c : Checked)
        → is_active (introspect_checked r c s).1 ≡ true
        → (claims : Dict Json) × (c ≡ signed claims)
          × (text_claim (get "token_use" claims) ≢ some "id")
          × (is_revoked (text_claim (get "jti" claims)) s.revocations ≡ false)
    unfolding get
    active_checked s (unsigned m) h = absurd (cc)
    active_checked s (signed claims) h =
        elim (Bool-cases (same (text_claim (get "token_use" claims)) (some "id"))) [
          | inl id ↦ absurd (false_true (rw id at h))
          | inr other ↦
              elim (Bool-cases (is_revoked (text_claim (get "jti" claims)) s.revocations)) [
                | inl gone ↦ absurd (false_true (rw (other, gone) at h))
                | inr live ↦ (claims, refl, (λ e. absurd (false_true (sym (rw e at other)))), live)
              ]
        ]
      where
        false_true : false ≡ true → ⊥
        false_true e = cc

    -- What a token was, and who asked, where introspection says that the token is active.
    pub record IsAnswered (s : IdpState) : Type 0 where
      pub asker : IsConfidential
      pub token : String
      pub claims : Dict Json
      pub shown : form_get "token" r.form ≡ some token
      pub verified : verify_jwt token none ≡ signed claims
      pub other : text_claim (get "token_use" claims) ≢ some "id"
      pub live : is_revoked (text_claim (get "jti" claims)) s.revocations ≡ false

    -- Introspection says of a token that it is active only to a confidential client that has proved
    -- itself, and only where the token verifies, is no ID Token and is not revoked.
    pub introspect_active :
        (s : IdpState) → is_active (introspect verify_jwt config r s).1 ≡ true → IsAnswered s
    unfolding introspect get
    introspect_active s h = elim (Option-cases (introspect_auth_error config r)) [
      | inr (reason, e) ↦ absurd (false_true (rw e at h))
      | inl fine ↦ elim (Option-cases (form_get "token" r.form)) [
        | inl e ↦ absurd (false_true (rw (fine, e) at h))
        | inr (token, e) ↦ elim (Bool-cases (token == "")) [
          | inl empty_token ↦ absurd (false_true (rw (fine, e, empty_token) at h))
          | inr given ↦
              let (claims, v, other, live) =
                active_checked s (verify_jwt token none) (rw (fine, e, given) at h) in
              record {
                asker = introspect_auth fine;
                token = token;
                claims = claims;
                shown = e;
                verified = v;
                other = other;
                live = live;
              }
        ]
      ]
    ]
      where
        false_true : false ≡ true → ⊥
        false_true e = cc

revoked_at_once :
    (to_float : String → Option ℕ) (r : Request) (claims : Dict Json) (jti : String)
    (store : RevocationStore)
    → is_revoked (some jti) (revoked_by to_float r claims jti store) ≡ true
unfolding is_revoked Revocation.revoke
revoked_at_once to_float r claims jti store =
    let swept = sweep r.transport.now store in
    let expiry = effective_expiry r.transport.now (expiry_claim to_float (get "exp" claims)) in
    rw
      (get-put jti jti (later_of (or_zero (get jti swept.tokens)) expiry) swept.tokens, eq_refl jti)
      refl

module _ (to_float : String → Option ℕ) (verify_jwt : String → Option String → Checked)
    (config : ConfigManager) where
  -- A token that a client may revoke, which verifies and has an id (not blank), is dead once the
  -- revocation request is answered: whoever introspects any token with that id is not told that it is
  -- active.
  pub revoke_deactivates :
      (r q : Request) (s : IdpState) (token jti other : String) (claims others : Dict Json)
      → revoke_auth_error config r ≡ none
      → form_get "token" r.form ≡ some token
      → token ≢ ""
      → verify_jwt token none ≡ signed claims
      → is_foreign config r claims ≡ false
      → text_claim (get "jti" claims) ≡ some jti
      → jti ≢ ""
      → form_get "token" q.form ≡ some other
      → verify_jwt other none ≡ signed others
      → text_claim (get "jti" others) ≡ some jti
      → is_active (introspect verify_jwt config q (revoke to_float verify_jwt config r s).0).1
        ≡ false
  revoke_deactivates r q s token jti other claims others fine shown given v own e named f w g =
      let after = (revoke to_float verify_jwt config r s).0 in
      let gone : is_revoked (some jti) after.revocations ≡ true =
        rw
          (revoke_runs config r to_float verify_jwt s token jti claims fine shown given v own e
            named)
          (revoked_at_once to_float r claims jti s.revocations) in
      elim (Bool-cases (is_active (introspect verify_jwt config q after).1)) [
        | inr dead ↦ dead
        | inl active ↦
            let answered = introspect_active config q verify_jwt after active in
            let same_token : answered.token ≡ other = some_injective (sym answered.shown ∙ f) in
            let same_claims : answered.claims ≡ others =
              signed_injective
                (sym answered.verified ∙ (ap (λ t. verify_jwt t none) same_token ∙ w)) in
            absurd (
              true_false (
                sym (
                  ap (λ (d : Dict Json). is_revoked (text_claim (get "jti" d)) after.revocations)
                    same_claims
                  ∙ (ap (λ o. is_revoked o after.revocations) g ∙ gone))
                ∙ answered.live))
      ]
    where
      true_false : true ≡ false → ⊥
      true_false x = cc

      some_injective : {a b : String} → some a ≡ some b → a ≡ b
      some_injective x = cc

      signed_injective : {a b : Dict Json} → signed a ≡ signed b → a ≡ b
      signed_injective x = cc
