-- ===== src/DeviceCode/Trace.antt =====
-- Runs of the device authorization store: any order of calls by devices, users and the clock.
use nanoidp.Prelude.{
  ℕ, ◌+◌, ◌≤◌, String, ◌≡◌, refl, sym, subst, ap, ◌∙◌, ◌⊎◌, inl, inr, Bool, true, false, not, ◌&&◌,
  Option, none, some, List, [], ◌∷◌, arith, ◌==◌, eq_iff, if◌then◌else◌, Option-cases, Bool-cases,
}
use nanoidp.Dict.{get, HasUniqueKeys}
use nanoidp.Dict.Laws.{get-remove}
use nanoidp.Models.{User}
use nanoidp.DeviceCode
use nanoidp.DeviceCode.{
  DeviceCodeGrant, DeviceCodeStore, DeviceRequest, PollOutcome, VerifyOutcome, is_expired,
  new_grant, max_pending,
}
use nanoidp.DeviceCode.Laws.{get-create, create_unique, get-prune_expired, prune_expired_unique}
use nanoidp.DeviceCode.Poll.{poll_entries, poll_unique, poll-authorized_iff, poll_consumes}
use nanoidp.DeviceCode.Verify.{
  verify_entries, verify_unique, stays, expires, denies, approves, verify-authorized_iff,
}

pub data Call : Type 0 where
  create : ℕ → String → String → DeviceRequest → Call
  poll : ℕ → String → Option String → Call
  verify : ℕ → String → String → String → String → Call
  prune : ℕ → Call

abbrev pub creates : String → Call → Bool
creates k (create now device_code user_code r) = device_code == k
creates k (poll now device_code client_id) = false
creates k (verify now user_code action username password) = false
creates k (prune now) = false

abbrev pub never_creates : String → List Call → Bool
never_creates k [] = true
never_creates k (call ∷ calls) = not (creates k call) && never_creates k calls

abbrev is_authorized : PollOutcome → Bool
is_authorized (PollOutcome.authorized u g) = true
is_authorized _ = false

module _ (get_user : String → Option User) (authenticate : String → String → Option User) where
  unfoldable pub after : Call → DeviceCodeStore → DeviceCodeStore
  after (create now device_code user_code r) s = (DeviceCode.create now device_code user_code r s).0
  after (poll now device_code client_id) s =
      (DeviceCode.poll get_user now device_code client_id s).0
  after (verify now user_code action username password) s =
      (DeviceCode.verify authenticate now user_code action username password s).0
  after (prune now) s = (DeviceCode.prune_expired now s).0

  unfoldable pub run : List Call → DeviceCodeStore → DeviceCodeStore
  run [] s = s
  run (call ∷ calls) s = run calls (after call s)

  -- The call is a verification that succeeds for the user of that name, by a user code that the index
  -- has for the device code.
  abbrev pub Approves : Call → DeviceCodeStore → String → Option String → Type 0
  Approves (verify now user_code action username password) s k who =
      (u : User) × ((DeviceCode.verify authenticate now user_code action username password s).1
        ≡ VerifyOutcome.authorized u)
      × (get user_code s.by_user_code ≡ some k)
      × (who ≡ some u.username)
  Approves (create now device_code user_code r) s k who = ⊥
  Approves (poll now device_code client_id) s k who = ⊥
  Approves (prune now) s k who = ⊥

  -- Some call of the run approves.
  pub data Approval (k : String) (who : Option String) : List Call → DeviceCodeStore → Type 0 where
    here :
        {call : Call} {calls : List Call} {s : DeviceCodeStore}
        → Approves call s k who
        → Approval k who (call ∷ calls) s
    later :
        {call : Call} {calls : List Call} {s : DeviceCodeStore}
        → Approval k who calls (after call s)
        → Approval k who (call ∷ calls) s

  -- The grant stands there approved, for the user of that name.
  abbrev IsApproved : String → Option String → DeviceCodeStore → Type 0
  IsApproved k who s =
      (d : DeviceCodeGrant) × (get k s.codes ≡ some d)
      × (d.status ≡ "authorized")
      × (d.username ≡ who)

  after_unique :
      (call : Call) (s : DeviceCodeStore)
      → HasUniqueKeys s.codes
      → HasUniqueKeys (after call s).codes
  unfolding after
  after_unique (create now device_code user_code r) s u =
      create_unique now device_code user_code r s u
  after_unique (poll now device_code client_id) s u =
      poll_unique get_user now device_code client_id s u
  after_unique (verify now user_code action username password) s u =
      verify_unique authenticate now user_code action username password s u
  after_unique (prune now) s u = prune_expired_unique now s u

  abbrev status_of : DeviceCodeGrant → String
  status_of g = g.status

  not_approved :
      (status other : String)
      → status ≡ "authorized"
      → status ≡ other
      → (other == "authorized") ≡ false
      → ⊥
  not_approved status other p q ne = cc ((eq_iff other "authorized").1 (sym q ∙ p), ne)

  after-IsApproved :
      (call : Call) (s : DeviceCodeStore) (k : String) (g : DeviceCodeGrant)
      → HasUniqueKeys s.codes
      → get k (after call s).codes ≡ some g
      → g.status ≡ "authorized"
      → IsApproved k g.username s ⊎ Approves call s k g.username
  unfolding after
  after-IsApproved (create now device_code user_code r) s k g u e a = inl (
    g,
    ground
        (arith, e, a, get-create now device_code user_code r s k u, eq_iff "pending" "authorized"),
    a,
    refl,
  )
  after-IsApproved (poll now device_code client_id) s k g u e a =
      let (d, f, change) = poll_entries get_user now device_code client_id s k g e in
      elim change [
        | inl same ↦ inl (d, f, ground (arith, same, a), ground (arith, same))
        | inr (late, _) ↦ absurd (not_approved g.status "expired" a (ap status_of late) refl)
      ]
  after-IsApproved (verify now user_code action username password) s k g u e a =
      let (d, f, change) =
        verify_entries authenticate now user_code action username password s k g e in
      elim change [
        | stays same ↦ inl (d, f, ground (arith, same, a), ground (arith, same))
        | expires _ same ↦ absurd (not_approved g.status "expired" a (ap status_of same) refl)
        | denies _ same ↦ absurd (not_approved g.status "denied" a (ap status_of same) refl)
        | approves user found ok same ↦ inr (
          user,
          (verify-authorized_iff authenticate now user_code action username password s user).1
              (k, d, found, ok),
          found.indexed,
          ap (λ (x : DeviceCodeGrant). x.username) same,
        )
      ]
  after-IsApproved (prune now) s k g u e a =
      inl (g, ground (arith, e, get-prune_expired now k s u), a, refl)

  run-IsApproved :
      (calls : List Call) (s : DeviceCodeStore) (k : String) (g : DeviceCodeGrant)
      → HasUniqueKeys s.codes
      → get k (run calls s).codes ≡ some g
      → g.status ≡ "authorized"
      → IsApproved k g.username s ⊎ Approval k g.username calls s
  unfolding run
  run-IsApproved [] s k g u e a = inl (g, e, a, refl)
  run-IsApproved (call ∷ calls) s k g u e a =
      elim (run-IsApproved calls (after call s) k g (after_unique call s u) e a) [
        | inr app ↦ inr (later app)
        | inl (d, f, st, same) ↦ elim (after-IsApproved call s k d u f st) [
          | inl (d', f', st', same') ↦ inl (d', f', st', same' ∙ same)
          | inr ap ↦ inr (here (subst (Approves call s k) same ap))
        ]
      ]

  -- After any run from a store without repeated keys that does not hold the device code, a poll
  -- hands out its authorization only if some verification in the run succeeded by a user code that
  -- led to this device code, for the user whose name the grant carries.
  pub poll_needs-Approval :
      (calls : List Call) (s : DeviceCodeStore) (k : String) (now : ℕ) (client_id : Option String)
      (u : User) (g : DeviceCodeGrant)
      → HasUniqueKeys s.codes
      → get k s.codes ≡ none
      → (DeviceCode.poll get_user now k client_id (run calls s)).1 ≡ PollOutcome.authorized u g
      → Approval k g.username calls s
  poll_needs-Approval calls s k now client_id u g unique absent h =
      let (e, c) = (poll-authorized_iff get_user now k client_id (run calls s) g u).0 h in
      elim (run-IsApproved calls s k g unique e c.approved) [
        | inr app ↦ app
        | inl (d, f, _, _) ↦ cc (sym absent ∙ f)
      ]

  claims : String → Call → DeviceCodeStore → Bool
  claims k (poll now device_code client_id) s =
      device_code == k && is_authorized (DeviceCode.poll get_user now device_code client_id s).1
  claims k _ s = false

  -- How often the run hands out the authorization of that device code.
  unfoldable pub claimed : String → List Call → DeviceCodeStore → ℕ
  unfolding claims
  claimed k [] s = 0
  claimed k (call ∷ calls) s =
      let rest = claimed k calls (after call s) in if claims k call s then rest + 1 else rest

  after_absent :
      (k : String) (call : Call) (s : DeviceCodeStore)
      → HasUniqueKeys s.codes
      → creates k call ≡ false
      → get k s.codes ≡ none
      → get k (after call s).codes ≡ none
  unfolding after
  after_absent k (create now device_code user_code r) s u other e =
      ground (arith, other, e, get-create now device_code user_code r s k u)
  after_absent k (poll now device_code client_id) s u other e =
      elim (Option-cases (get k (DeviceCode.poll get_user now device_code client_id s).0.codes)) [
        | inl gone ↦ gone
        | inr (g, f) ↦
            let (d, f', _) = poll_entries get_user now device_code client_id s k g f in
            cc (sym e ∙ f')
      ]
  after_absent k (verify now user_code action username password) s u other e =
      elim (Option-cases
        (get k (DeviceCode.verify authenticate now user_code action username password s).0.codes)) [
          | inl gone ↦ gone
          | inr (g, f) ↦
              let (d, f', _) =
                verify_entries authenticate now user_code action username password s k g f in
              cc (sym e ∙ f')
        ]
  after_absent k (prune now) s u other e = ground (arith, e, get-prune_expired now k s u)

  authorized_value :
      (o : PollOutcome)
      → is_authorized o ≡ true
      → (u : User) × (g : DeviceCodeGrant) × (o ≡ PollOutcome.authorized u g)
  authorized_value (PollOutcome.authorized u g) h = (u, g, refl)
  authorized_value _ h = cc

  claims_removes :
      (k : String) (call : Call) (s : DeviceCodeStore)
      → claims k call s ≡ true
      → ((get k s.codes ≡ none) → ⊥) × (get k (after call s).codes ≡ none)
  unfolding claims after
  claims_removes k (poll now device_code client_id) s h =
      let (u, g, a) =
        authorized_value (DeviceCode.poll get_user now device_code client_id s).1
          (ground (arith, h)) in
      let same : device_code ≡ k = (eq_iff device_code k).0 (ground (arith, h)) in
      let (e, c) = (poll-authorized_iff get_user now device_code client_id s g u).0 a in
      (
        λ gone. cc (subst (λ x. get x s.codes ≡ some g) same e, gone),
        rw (poll_consumes get_user now device_code client_id s g u a)
            (ground (arith, same, get-remove k device_code s.codes, eq_iff device_code k)),
      )
  claims_removes k _ s h = cc

  claimed_absent :
      (k : String) (calls : List Call) (s : DeviceCodeStore)
      → HasUniqueKeys s.codes
      → never_creates k calls ≡ true
      → get k s.codes ≡ none
      → claimed k calls s ≡ 0
  unfolding claimed
  claimed_absent k [] s u n e = refl
  claimed_absent k (call ∷ calls) s u n e = elim (Bool-cases (claims k call s)) [
    | inl hit ↦ absurd ((claims_removes k call s hit).0 e)
    | inr miss ↦ rw miss (
        claimed_absent k calls (after call s) (after_unique call s u) (ground (arith, n))
          (after_absent k call s u (ground (arith, n)) e))
  ]

  -- In any run from a store without repeated keys that does not draw the device code anew, its
  -- authorization is handed out at most once.
  pub claimed-le-one :
      (k : String) (calls : List Call) (s : DeviceCodeStore)
      → HasUniqueKeys s.codes
      → never_creates k calls ≡ true
      → claimed k calls s ≤ 1
  unfolding claimed
  claimed-le-one k [] s u n = omega arith
  claimed-le-one k (call ∷ calls) s u n = elim (Bool-cases (claims k call s)) [
    | inl hit ↦ rw hit (
        omega (
          arith,
          claimed_absent k calls (after call s) (after_unique call s u) (ground (arith, n))
              (claims_removes k call s hit).1,
        ))
    | inr miss ↦
        rw miss (claimed-le-one k calls (after call s) (after_unique call s u) (ground (arith, n)))
  ]
