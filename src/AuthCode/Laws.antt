-- ===== src/AuthCode/Laws.antt =====
-- What one call on the authorization code store does (src/nanoidp/services/auth_code.py).
use nanoidp.Prelude.{
  ℕ, ◌+◌, ◌≤◌, ◌<◌, String, ◌≡◌, ◌≢◌, ◌⊎◌, ◌↔◌, refl, sym, ◌∙◌, true, false, Option, none, some,
  arith, ◌==◌, eq_iff, eq_refl, if◌then◌else◌, Option-cases, inl, inr,
}
use nanoidp.Dict.{get, put, keys_where, remove_all, HasUniqueKeys}
use nanoidp.Dict.Laws.{
  unless, get-put, get-remove, get-sweep, put-HasUniqueKeys, remove-HasUniqueKeys,
  remove_all-HasUniqueKeys,
}
use nanoidp.AuthCode.{
  AuthorizationCode, AuthCodeStore, CodeRequest, is_expired, cleanup_expired, authorization_code,
  create_code, get_code_info, verified, granted, refused, mark_used, check_pkce, consume_found,
  consume_code, code_lifetime,
}

-- Every key holds a code of that name that expires ten minutes after its creation.
pub record IsWellFormed (s : AuthCodeStore) : Type 0 where
  pub unique : HasUniqueKeys s.codes
  pub named : (k : String) (c : AuthorizationCode) → get k s.codes ≡ some c → c.code ≡ k
  pub timed :
      (k : String) (c : AuthorizationCode)
      → get k s.codes ≡ some c
      → c.expires_at ≡ c.created_at + code_lifetime

-- What the protocol asks of a redemption, apart from the store.
pub record IsRedeemable (s256 : String → String) (now : ℕ) (client_id redirect_uri : String)
    (verifier : Option String) (c : AuthorizationCode) : Type 0 where
  pub alive : now ≤ c.expires_at
  pub fresh : c.used ≡ false
  pub same_client : c.client_id ≡ client_id
  pub same_uri : c.redirect_uri ≡ redirect_uri
  pub proved : check_pkce s256 c verifier ≡ verified true

module _ (now : ℕ) (code : String) (r : CodeRequest) (s : AuthCodeStore)
    (u : HasUniqueKeys s.codes) where
  pub get-create_code :
      (k : String)
      → get_code_info k (create_code now code r s) ≡ (
          if code == k
          then some (authorization_code now code r)
          else unless (is_expired now) (get_code_info k s))
  unfolding create_code cleanup_expired get_code_info
  get-create_code k = ground (
    arith,
    get-put k code (authorization_code now code r)
        (remove_all (keys_where (is_expired now) s.codes) s.codes),
    get-sweep (is_expired now) k s.codes u,
  )

module _ (s256 : String → String) (now : ℕ) (code client_id redirect_uri : String)
    (verifier : Option String) where
  redeem_to :
      (s : AuthCodeStore) (c c' : AuthorizationCode)
      → (consume_found s256 now code client_id redirect_uri verifier s (some c)).1 ≡ granted c'
      → IsRedeemable s256 now client_id redirect_uri verifier c × (c' ≡ mark_used c)
  redeem_to s c c' h =
      let x : (c.client_id == client_id ≡ true → c.client_id ≡ client_id) = (eq_iff _ _).0 in
      (
        record {
          alive = ground arith;
          fresh = ground arith;
          same_client = ground (arith, eq_iff c.client_id client_id);
          same_uri = ground (arith, eq_iff c.redirect_uri redirect_uri);
          proved = ground arith;
        },
        ground arith,
      )

  redeem_from :
      (s : AuthCodeStore) (c : AuthorizationCode)
      → IsRedeemable s256 now client_id redirect_uri verifier c
      → (consume_found s256 now code client_id redirect_uri verifier s (some c))
        ≡ (record { codes = put code (mark_used c) s.codes }, granted (mark_used c))
  redeem_from s c r =
      ground (arith, eq_iff c.client_id client_id, eq_iff c.redirect_uri redirect_uri)

  -- A call of `consume_code` hands out a code exactly when one is stored under that key which has
  -- not expired, is not used, was issued to the client for the redirect URI, and whose PKCE check
  -- the verifier passes; what it hands out is that code, marked as used.
  pub consume_code-granted_iff :
      (s : AuthCodeStore) (c' : AuthorizationCode)
      → ((consume_code s256 now code client_id redirect_uri verifier s).1 ≡ granted c') ↔ (
          (c : AuthorizationCode) × (get_code_info code s ≡ some c)
          × IsRedeemable s256 now client_id redirect_uri verifier c
          × (c' ≡ mark_used c))
  unfolding consume_code get_code_info
  consume_code-granted_iff s c' = elim (Option-cases (get code s.codes)) [
    | inl e ↦ (λ h. cc (rw e at h), λ r. cc)
    | inr (c, e) ↦ (
      λ h. let (r, m) = redeem_to s c c' (rw e at h) in (c, e, r, m),
      λ (d, ed, r, m). let p : some d ≡ some c = sym ed ∙ e in rw ed (rw (redeem_from s d r) (cc)),
    )
  ]

  -- What a call of `consume_code` leaves under its own key and under every other.
  pub get-consume_code :
      (s : AuthCodeStore) (k : String)
      → k ≢ code
      → get_code_info k (consume_code s256 now code client_id redirect_uri verifier s).0
        ≡ get_code_info k s
  unfolding consume_code get_code_info
  get-consume_code s k ne = elim (Option-cases (get code s.codes)) [
    | inl e ↦ rw e
    | inr (c, e) ↦ rw e (
        ground
          (arith, eq_iff code k, get-remove k code s.codes, get-put k code (mark_used c) s.codes))
  ]

  grants_or_keeps :
      (s : AuthCodeStore) (c : AuthorizationCode)
      → now ≤ c.expires_at
      → c.used ≡ false
      → ((consume_found s256 now code client_id redirect_uri verifier s (some c)).1
          ≡ granted (mark_used c))
        ⊎ ((consume_found s256 now code client_id redirect_uri verifier s (some c)).0 ≡ s)
  grants_or_keeps s c alive fresh = ground arith

  -- A live, unused code survives every attempt that cannot redeem it: the store is unchanged when
  -- the client, the redirect URI or the verifier is wrong, or when the call raises.
  pub consume_code_keeps :
      (s : AuthCodeStore) (c : AuthorizationCode)
      → get_code_info code s ≡ some c
      → now ≤ c.expires_at
      → c.used ≡ false
      → ¬ IsRedeemable s256 now client_id redirect_uri verifier c
      → (consume_code s256 now code client_id redirect_uri verifier s).0 ≡ s
  unfolding consume_code get_code_info
  consume_code_keeps s c e alive fresh bad = rw e (elim (grants_or_keeps s c alive fresh) [
    | inl g ↦ absurd (bad (redeem_to s c (mark_used c) g).0)
    | inr same ↦ same
  ])

  -- An expired or used code is gone after any attempt.
  pub consume_code_drops :
      (s : AuthCodeStore) (c : AuthorizationCode)
      → get_code_info code s ≡ some c
      → (c.expires_at < now) ⊎ (c.used ≡ true)
      → (get_code_info code (consume_code s256 now code client_id redirect_uri verifier s).0 ≡ none)
        × ((consume_code s256 now code client_id redirect_uri verifier s).1 ≡ refused)
  unfolding consume_code get_code_info
  consume_code_drops s c e dead = rw e (ground (arith, get-remove code code s.codes, eq_refl code))

  -- The call that hands a code out leaves it marked.
  pub consume_code_marks :
      (s : AuthCodeStore) (c' : AuthorizationCode)
      → (consume_code s256 now code client_id redirect_uri verifier s).1 ≡ granted c'
      → (get_code_info code (consume_code s256 now code client_id redirect_uri verifier s).0
          ≡ some c')
        × (c'.used ≡ true)
  unfolding consume_code get_code_info
  consume_code_marks s c' h = elim (Option-cases (get code s.codes)) [
    | inl e ↦ cc (rw e at h)
    | inr (c, e) ↦
        let (r, m) = redeem_to s c c' (rw e at h) in
        rw (e, redeem_from s c r)
          (rw m (ground (arith, get-put code code (mark_used c) s.codes, eq_refl code)))
  ]

  -- Whatever stands in the store after a call stood there before it, as it is or not yet marked.
  pub consume_code_entries :
      (s : AuthCodeStore) (k : String) (d : AuthorizationCode)
      → get k (consume_code s256 now code client_id redirect_uri verifier s).0.codes ≡ some d
      → (c : AuthorizationCode) × (get k s.codes ≡ some c) × ((d ≡ c) ⊎ (d ≡ mark_used c))
  unfolding consume_code
  consume_code_entries s k d h = elim (Option-cases (get code s.codes)) [
    | inl e ↦ (d, (rw e at h), inl refl)
    | inr (c, e) ↦ entries_found s c k d e (rw e at h)
  ]
    where
      entries_found :
          (s : AuthCodeStore) (c : AuthorizationCode) (k : String) (d : AuthorizationCode)
          → get code s.codes ≡ some c
          → get k (consume_found s256 now code client_id redirect_uri verifier s (some c)).0.codes
            ≡ some d
          → (c : AuthorizationCode) × (get k s.codes ≡ some c) × ((d ≡ c) ⊎ (d ≡ mark_used c))
      entries_found s c k d e h = elim (Option-cases (get k s.codes)) [
        | inl f ↦ absurd (
            ground (
              arith,
              eq_iff code k,
              get-remove k code s.codes,
              get-put k code (mark_used c) s.codes,
            ))
        | inr (c', f) ↦ (
          c',
          f,
          ground (
            arith,
            eq_iff code k,
            get-remove k code s.codes,
            get-put k code (mark_used c) s.codes,
          ),
        )
      ]

  consume_code_unique :
      (s : AuthCodeStore)
      → HasUniqueKeys s.codes
      → HasUniqueKeys (consume_code s256 now code client_id redirect_uri verifier s).0.codes
  unfolding consume_code
  consume_code_unique s u = elim (Option-cases (get code s.codes)) [
    | inl e ↦ rw e u
    | inr (c, e) ↦ rw e (
        ground (
          arith,
          remove-HasUniqueKeys code s.codes u,
          put-HasUniqueKeys code (mark_used c) s.codes u,
        ))
  ]

  pub consume_code-IsWellFormed :
      (s : AuthCodeStore)
      → IsWellFormed s
      → IsWellFormed (consume_code s256 now code client_id redirect_uri verifier s).0
  consume_code-IsWellFormed s w = record {
    unique = consume_code_unique s w.unique;
    named = λ k d h. let (c, e, m) = consume_code_entries s k d h in ground (arith, w.named k c e);
    timed = λ k d h. let (c, e, m) = consume_code_entries s k d h in ground (arith, w.timed k c e);
  }

pub create_code-IsWellFormed :
    (now : ℕ) (code : String) (r : CodeRequest) (s : AuthCodeStore)
    → IsWellFormed s
    → IsWellFormed (create_code now code r s)
unfolding create_code cleanup_expired
create_code-IsWellFormed now code r s w = record {
  unique =
      put-HasUniqueKeys code (authorization_code now code r) _
        (remove_all-HasUniqueKeys (keys_where (is_expired now) s.codes) s.codes w.unique);
  named = λ k d h. ground (
    arith,
    get-put k code (authorization_code now code r)
        (remove_all (keys_where (is_expired now) s.codes) s.codes),
    get-sweep (is_expired now) k s.codes w.unique,
    w.named k d,
    eq_iff code k,
  );
  timed = λ k d h. ground (
    arith,
    get-put k code (authorization_code now code r)
        (remove_all (keys_where (is_expired now) s.codes) s.codes),
    get-sweep (is_expired now) k s.codes w.unique,
    w.timed k d,
  );
}
