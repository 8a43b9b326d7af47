-- ===== src/DeviceCode/Verify.antt =====
-- The user's verification of a device authorization (src/nanoidp/services/device_code.py).
use nanoidp.Prelude.{
  ℕ, ◌/◌, ◌≤◌, String, ◌≡◌, refl, subst, ap, ◌∙◌, ◌≢◌, ◌⊎◌, ◌↔◌, inl, inr, true, Option, some,
  arith, ◌==◌, eq_iff, is_text, same, Option-cases, Bool-cases,
}
use nanoidp.Dict.{get, HasUniqueKeys}
use nanoidp.Dict.Laws.{get-put, put-HasUniqueKeys}
use nanoidp.Models.{User}
use nanoidp.DeviceCode.{
  DeviceCodeGrant, DeviceCodeStore, VerifyOutcome, is_expired, set_grant, invalid_code,
  verify_found, verify, second,
}

status_pending : (status : String) → status ≡ "pending" → (status == "pending") ≡ true
status_pending status e = rw e

module _ (authenticate : String → String → Option User) (now : ℕ)
    (user_code action username password : String) where
  abbrev pub approval : DeviceCodeGrant → User → DeviceCodeGrant
  approval g u = record g {
    status = "authorized";
    username = some u.username;
    auth_time = some (now / second);
  }

  -- What a verification asks before it approves the grant for a user.
  pub record IsApprovable (g : DeviceCodeGrant) (u : User) : Type 0 where
    pub waiting : g.status ≡ "pending"
    pub alive : now ≤ g.expires_at
    pub not_denied : action ≢ "deny"
    pub named : username ≢ ""
    pub logged_in : authenticate username password ≡ some u

  -- The device code that the index has for the user code, with its grant.
  pub record Found (s : DeviceCodeStore) (device_code : String) (g : DeviceCodeGrant) : Type 0 where
    pub indexed : get user_code s.by_user_code ≡ some device_code
    pub code_given : device_code ≢ ""
    pub stored : get device_code s.codes ≡ some g

  verify_to :
      (s : DeviceCodeStore) (device_code : String) (g : DeviceCodeGrant) (u : User)
      → (verify_found authenticate now action username password s device_code (some g)).1
        ≡ VerifyOutcome.authorized u
      → IsApprovable g u
  verify_to s device_code g u h = record {
    waiting = ground (arith, h, eq_iff g.status "pending");
    alive = ground (arith, h);
    not_denied = ground (arith, h, eq_iff action "deny");
    named = ground (arith, h, eq_iff username "");
    logged_in = ground (arith, h);
  }

  verify_from :
      (s : DeviceCodeStore) (device_code : String) (g : DeviceCodeGrant) (u : User)
      → IsApprovable g u
      → verify_found authenticate now action username password s device_code (some g)
        ≡ (set_grant device_code (approval g u) s, VerifyOutcome.authorized u)
  verify_from s device_code g u a =
      ground (arith, status_pending g.status a.waiting, eq_iff action "deny", eq_iff username "")

  verify_of_Found :
      (s : DeviceCodeStore) (device_code : String) (g : DeviceCodeGrant)
      → Found s device_code g
      → verify authenticate now user_code action username password s
        ≡ verify_found authenticate now action username password s device_code (some g)
  unfolding verify
  verify_of_Found s device_code g f = rw f.indexed (ground (arith, f.stored, eq_iff device_code ""))

  -- A verification without a stored grant behind its user code changes nothing.
  verify_cases :
      (s : DeviceCodeStore)
      → (verify authenticate now user_code action username password s ≡ (s, invalid_code))
        ⊎ ((device_code : String) × (g : DeviceCodeGrant) × Found s device_code g)
  unfolding verify
  verify_cases s = elim (Option-cases (get user_code s.by_user_code)) [
    | inl e ↦ inl (rw e)
    | inr (d, e) ↦ elim (Bool-cases (is_text d)) [
      | inr blank ↦ inl (rw e (ground (arith, blank)))
      | inl given ↦ elim (Option-cases (get d s.codes)) [
        | inl f ↦ inl (rw e (ground (arith, given, f)))
        | inr (g, f) ↦ inr (
          d,
          g,
          record { indexed = e; code_given = ground (arith, given, eq_iff d ""); stored = f },
        )
      ]
    ]
  ]

  -- A verification succeeds exactly when the index leads from the user code to a stored grant that is
  -- pending and alive, the action is not "deny", and the given user name logs in as that user.
  pub verify-authorized_iff :
      (s : DeviceCodeStore) (u : User)
      → ((verify authenticate now user_code action username password s).1
          ≡ VerifyOutcome.authorized u)
        ↔ ((device_code : String) × (g : DeviceCodeGrant) × Found s device_code g
            × IsApprovable g u)
  verify-authorized_iff s u = (
    λ h. elim (verify_cases s) [
      | inl e ↦ cc (rw e at h)
      | inr (d, g, f) ↦ (d, g, f, verify_to s d g u (rw (verify_of_Found s d g f) at h))
    ],
    λ (d, g, f, a).
        ap (λ (r : DeviceCodeStore × VerifyOutcome). r.1)
          (verify_of_Found s d g f ∙ verify_from s d g u a),
  )

  -- What a verification may make of one stored grant.
  pub data Change (s : DeviceCodeStore) (k : String) (d g : DeviceCodeGrant) : Type 0 where
    stays : g ≡ d → Change s k d g
    expires : d.status ≡ "pending" → g ≡ record d { status = "expired" } → Change s k d g
    denies : d.status ≡ "pending" → g ≡ record d { status = "denied" } → Change s k d g
    approves : (u : User) → Found s k d → IsApprovable d u → g ≡ approval d u → Change s k d g

  abbrev Effect : DeviceCodeStore → String → DeviceCodeGrant → DeviceCodeStore → Type 0
  Effect s j c t = (t ≡ s) ⊎ ((g : DeviceCodeGrant) × (t ≡ set_grant j g s) × Change s j c g)

  Found-Effect :
      (s : DeviceCodeStore) (j : String) (c : DeviceCodeGrant)
      → Found s j c
      → Effect s j c (verify_found authenticate now action username password s j (some c)).0
  Found-Effect s j c f = elim (Bool-cases (c.status == "pending")) [
    | inr used ↦ inl (ground (arith, used))
    | inl waiting ↦ elim (Bool-cases (is_expired now c)) [
      | inl late ↦ inr (
        record c { status = "expired" },
        ground (arith, waiting, late),
        expires ((eq_iff _ _).0 waiting) refl,
      )
      | inr alive ↦ elim (Bool-cases (action == "deny")) [
        | inl deny ↦ inr (
          record c { status = "denied" },
          ground (arith, waiting, alive, deny),
          denies ((eq_iff _ _).0 waiting) refl,
        )
        | inr allow ↦ elim (Bool-cases (is_text username)) [
          | inr blank ↦ inl (ground (arith, waiting, alive, allow, blank))
          | inl named ↦ elim (Option-cases (authenticate username password)) [
            | inl bad ↦ inl (ground (arith, waiting, alive, allow, named, bad))
            | inr (u, good) ↦ inr (
              approval c u,
              ground (arith, waiting, alive, allow, named, good),
              approves u f
                  (record {
                    waiting = (eq_iff _ _).0 waiting;
                    alive = ground (arith, alive);
                    not_denied = ground (arith, allow, eq_iff action "deny");
                    named = ground (arith, named, eq_iff username "");
                    logged_in = good;
                  })
                  refl,
            )
          ]
        ]
      ]
    ]
  ]

  set_entry :
      (s : DeviceCodeStore) (j : String) (c g' : DeviceCodeGrant) (k : String) (g : DeviceCodeGrant)
      → get j s.codes ≡ some c
      → Change s j c g'
      → get k (set_grant j g' s).codes ≡ some g
      → (d : DeviceCodeGrant) × (get k s.codes ≡ some d) × Change s k d g
  set_entry s j c g' k g e ch h = elim (Bool-cases (j == k)) [
    | inl same ↦
        let p : j ≡ k = (eq_iff j k).0 same in
        let q : g' ≡ g = ground (arith, get-put k j g' s.codes, same, h) in
        (
          c,
          subst (λ x. get x s.codes ≡ some c) p e,
          subst (λ x. Change s k c x) q (subst (λ x. Change s x c g') p ch),
        )
    | inr other ↦ (g, ground (arith, get-put k j g' s.codes, other, h), stays refl)
  ]

  -- Whatever grant a verification leaves was stored before it, and is unchanged, or was pending and
  -- is expired, denied, or approved for the user that logged in.
  pub verify_entries :
      (s : DeviceCodeStore) (k : String) (g : DeviceCodeGrant)
      → get k (verify authenticate now user_code action username password s).0.codes ≡ some g
      → (d : DeviceCodeGrant) × (get k s.codes ≡ some d) × Change s k d g
  verify_entries s k g h = elim (verify_cases s) [
    | inl e ↦ (g, (rw e at h), stays refl)
    | inr (j, c, f) ↦
        let h' : get k (verify_found authenticate now action username password s j (some c)).0.codes
            ≡ some g =
          rw (verify_of_Found s j c f) at h in
        elim (Found-Effect s j c f) [
          | inl same ↦ (g, (rw same at h'), stays refl)
          | inr (g', set, ch) ↦ set_entry s j c g' k g f.stored ch (rw set at h')
        ]
  ]

  pub verify_unique :
      (s : DeviceCodeStore)
      → HasUniqueKeys s.codes
      → HasUniqueKeys (verify authenticate now user_code action username password s).0.codes
  verify_unique s u = elim (verify_cases s) [
    | inl e ↦ rw e u
    | inr (j, c, f) ↦ rw (verify_of_Found s j c f) (elim (Found-Effect s j c f) [
      | inl same ↦ rw same u
      | inr (g', set, ch) ↦ rw set (put-HasUniqueKeys j g' s.codes u)
    ])
  ]
