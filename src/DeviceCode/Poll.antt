-- ===== src/DeviceCode/Poll.antt =====
-- Polling for a device authorization (src/nanoidp/services/device_code.py).
use nanoidp.Prelude.{
  ℕ, ◌≤◌, ◌<◌, String, ◌≡◌, refl, subst, ap, ◌∙◌, ◌⊎◌, ◌↔◌, inl, inr, true, false, Option, some,
  arith, ◌==◌, eq_iff, eq_refl, same, Option-cases,
}
use nanoidp.Dict.{get, remove, HasUniqueKeys}
use nanoidp.Dict.Laws.{get-put, get-remove, put-HasUniqueKeys, remove-HasUniqueKeys}
use nanoidp.Models.{User}
use nanoidp.DeviceCode.{
  DeviceCodeGrant, DeviceCodeStore, PollOutcome, user_of, claim, poll_found, poll,
}

status_authorized :
    (status : String)
    → status ≡ "authorized"
    → ((status == "pending") ≡ false)
      × ((status == "denied") ≡ false)
      × ((status == "expired") ≡ false)
      × ((status == "authorized") ≡ true)
status_authorized status e = rw e (refl, refl, refl, refl)

module _ (get_user : String → Option User) (now : ℕ) (device_code : String)
    (client_id : Option String) where
  -- What a poll asks of the stored grant before it hands out the authorization.
  pub record IsClaimable (g : DeviceCodeGrant) (u : User) : Type 0 where
    pub issued_to : client_id ≡ some g.client_id
    pub alive : now ≤ g.expires_at
    pub approved : g.status ≡ "authorized"
    pub known : user_of get_user g.username ≡ some u

  poll_to :
      (s : DeviceCodeStore) (d g : DeviceCodeGrant) (u : User)
      → (poll_found get_user now device_code client_id s (some d)).1 ≡ PollOutcome.authorized u g
      → (d ≡ g) × IsClaimable d u
  poll_to s d g u h = (
    ground (arith, h),
    record {
      issued_to = elim (Option-cases client_id) [
        | inl e ↦ absurd (ground (arith, e, h))
        | inr (c, e) ↦ ground (arith, e, h, eq_iff d.client_id c)
      ];
      alive = ground (arith, h);
      approved = ground (arith, h, eq_iff d.status "authorized");
      known = ground (arith, h);
    },
  )

  poll_from :
      (s : DeviceCodeStore) (g : DeviceCodeGrant) (u : User)
      → IsClaimable g u
      → poll_found get_user now device_code client_id s (some g)
        ≡ claim get_user device_code g s (some u)
  poll_from s g u c = ground (arith, eq_refl g.client_id, status_authorized g.status c.approved)

  -- A poll hands out an authorization exactly when one is stored under the device code that was
  -- issued to the polling client, has not expired, was approved, and whose user is still configured.
  pub poll-authorized_iff :
      (s : DeviceCodeStore) (g : DeviceCodeGrant) (u : User)
      → ((poll get_user now device_code client_id s).1 ≡ PollOutcome.authorized u g)
        ↔ ((get device_code s.codes ≡ some g) × IsClaimable g u)
  unfolding poll
  poll-authorized_iff s g u =
      (sound, λ (e, c). rw e (ap (λ (r : DeviceCodeStore × PollOutcome). r.1) (poll_from s g u c)))
    where
      sound :
          (poll get_user now device_code client_id s).1 ≡ PollOutcome.authorized u g
          → (get device_code s.codes ≡ some g) × IsClaimable g u
      sound h = elim (Option-cases (get device_code s.codes)) [
        | inl e ↦ cc (rw e at h)
        | inr (d, e) ↦
            let (same, c) = poll_to s d g u (rw e at h) in
            (e ∙ ap some same, subst (λ x. IsClaimable x u) same c)
      ]

  -- A poll that hands out an authorization removes it; it is then under no device code but others.
  pub poll_consumes :
      (s : DeviceCodeStore) (g : DeviceCodeGrant) (u : User)
      → (poll get_user now device_code client_id s).1 ≡ PollOutcome.authorized u g
      → (poll get_user now device_code client_id s).0 ≡ record {
        codes = remove device_code s.codes;
        by_user_code = remove g.user_code s.by_user_code;
      }
  poll_consumes s g u h =
      let (e, c) = (poll-authorized_iff s g u).0 h in
      unfold poll in rw e (ap (λ (r : DeviceCodeStore × PollOutcome). r.0) (poll_from s g u c))

  -- Whatever grant a poll leaves was stored before it, as it is or with the status "expired".
  pub poll_entries :
      (s : DeviceCodeStore) (k : String) (g : DeviceCodeGrant)
      → get k (poll get_user now device_code client_id s).0.codes ≡ some g
      → (d : DeviceCodeGrant) × (get k s.codes ≡ some d)
        × ((g ≡ d) ⊎ ((g ≡ record d { status = "expired" }) × (d.expires_at < now)))
  unfolding poll
  poll_entries s k g h = elim (Option-cases (get device_code s.codes)) [
    | inl e ↦ (g, (rw e at h), inl refl)
    | inr (c, e) ↦ entries_found s c k g e (rw e at h)
  ]
    where
      entries_found :
          (s : DeviceCodeStore) (c : DeviceCodeGrant) (k : String) (g : DeviceCodeGrant)
          → get device_code s.codes ≡ some c
          → get k (poll_found get_user now device_code client_id s (some c)).0.codes ≡ some g
          → (d : DeviceCodeGrant) × (get k s.codes ≡ some d)
            × ((g ≡ d) ⊎ ((g ≡ record d { status = "expired" }) × (d.expires_at < now)))
      entries_found s c k g e h = elim (Option-cases (get k s.codes)) [
        | inl f ↦ absurd (
            ground (
              arith,
              e,
              f,
              h,
              eq_iff device_code k,
              get-remove k device_code s.codes,
              get-put k device_code (record c { status = "expired" }) s.codes,
            ))
        | inr (d, f) ↦ (
          d,
          f,
          ground (
            arith,
            e,
            f,
            h,
            eq_iff device_code k,
            get-remove k device_code s.codes,
            get-put k device_code (record c { status = "expired" }) s.codes,
          ),
        )
      ]

  pub poll_unique :
      (s : DeviceCodeStore)
      → HasUniqueKeys s.codes
      → HasUniqueKeys (poll get_user now device_code client_id s).0.codes
  unfolding poll
  poll_unique s u = elim (Option-cases (get device_code s.codes)) [
    | inl e ↦ rw e u
    | inr (c, e) ↦ rw e (
        ground (
          arith,
          u,
          remove-HasUniqueKeys device_code s.codes u,
          put-HasUniqueKeys device_code (record c { status = "expired" }) s.codes u,
        ))
  ]
