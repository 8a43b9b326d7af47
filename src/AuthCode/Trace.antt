-- ===== src/AuthCode/Trace.antt =====
-- Runs of the authorization code store: any order of calls, such as concurrent redemptions of one
-- code, since the lock makes each call whole.
use nanoidp.Prelude.{
  ℕ, ◌+◌, ◌≤◌, String, ◌≡◌, refl, subst, Bool, true, false, not, ◌&&◌, Option, none, some, List, [],
  ◌∷◌, arith, ◌==◌, eq_iff, if◌then◌else◌, Option-cases, Bool-cases, inl, inr,
}
use nanoidp.Dict.{get, HasUniqueKeys}
use nanoidp.AuthCode.{
  AuthorizationCode, AuthCodeStore, CodeRequest, create_code, get_code_info, Consumed, granted,
  refused, raised, consume_code,
}
use nanoidp.AuthCode.Laws.{
  IsWellFormed, get-create_code, consume_code-granted_iff, consume_code-IsWellFormed,
  consume_code_entries, consume_code_marks, create_code-IsWellFormed,
}

-- A call, with its reading of the clock.
pub data Call : Type 0 where
  create : ℕ → String → CodeRequest → Call
  consume : ℕ → String → String → String → Option String → Call

is_granted : Consumed → Bool
is_granted (granted c) = true
is_granted refused = false
is_granted raised = false

granted_value : (o : Consumed) → is_granted o ≡ true → (c : AuthorizationCode) × (o ≡ granted c)
unfolding is_granted
granted_value (granted c) h = (c, refl)
granted_value refused h = cc
granted_value raised h = cc

abbrev pub creates : String → Call → Bool
creates k (create now code r) = code == k
creates k (consume now code client_id uri verifier) = false

-- A code that cannot be handed out any more.
is_spent : Option AuthorizationCode → Bool
is_spent none = true
is_spent (some c) = c.used

module _ (s256 : String → String) where
  unfoldable pub after : Call → AuthCodeStore → AuthCodeStore
  after (create now code r) s = create_code now code r s
  after (consume now code client_id uri verifier) s =
      (consume_code s256 now code client_id uri verifier s).0

  redeems : String → Call → AuthCodeStore → Bool
  redeems k (create now code r) s = false
  redeems k (consume now code client_id uri verifier) s =
      code == k && is_granted (consume_code s256 now code client_id uri verifier s).1

  -- How often the run hands out the code of that name.
  unfoldable pub redemptions : String → List Call → AuthCodeStore → ℕ
  unfolding redeems is_granted
  redemptions k [] s = 0
  redemptions k (call ∷ calls) s =
      let rest = redemptions k calls (after call s) in if redeems k call s then rest + 1 else rest

  unfoldable pub run : List Call → AuthCodeStore → AuthCodeStore
  run [] s = s
  run (call ∷ calls) s = run calls (after call s)

  abbrev pub never_creates : String → List Call → Bool
  never_creates k [] = true
  never_creates k (call ∷ calls) = not (creates k call) && never_creates k calls

  after-IsWellFormed :
      (call : Call) (s : AuthCodeStore) → IsWellFormed s → IsWellFormed (after call s)
  unfolding after
  after-IsWellFormed (create now code r) s w = create_code-IsWellFormed now code r s w
  after-IsWellFormed (consume now code client_id uri verifier) s w =
      consume_code-IsWellFormed s256 now code client_id uri verifier s w

  after-spent :
      (k : String) (call : Call) (s : AuthCodeStore)
      → HasUniqueKeys s.codes
      → creates k call ≡ false
      → is_spent (get_code_info k s) ≡ true
      → is_spent (get_code_info k (after call s)) ≡ true
  unfolding after is_spent
  after-spent k (create now code r) s u other spent =
      ground (arith, get-create_code now code r s u k)
  after-spent k (consume now code client_id uri verifier) s u other spent =
      elim (Option-cases (get k (consume_code s256 now code client_id uri verifier s).0.codes)) [
        | inl e ↦ unfold get_code_info in rw e
        | inr (d, e) ↦
            let (c, f, m) = consume_code_entries s256 now code client_id uri verifier s k d e in
            unfold get_code_info in ground (arith, e, f, m, spent)
      ]

  redeems_grants :
      (k : String) (now : ℕ) (code client_id uri : String) (verifier : Option String)
      (s : AuthCodeStore)
      → redeems k (consume now code client_id uri verifier) s ≡ true
      → (c : AuthorizationCode) × (code ≡ k)
        × ((consume_code s256 now code client_id uri verifier s).1 ≡ granted c)
  unfolding redeems
  redeems_grants k now code client_id uri verifier s h =
      let (c, g) =
        granted_value (consume_code s256 now code client_id uri verifier s).1 (ground arith) in
      (c, (eq_iff code k).0 (ground arith), g)

  redeems_needs_unspent :
      (k : String) (call : Call) (s : AuthCodeStore)
      → redeems k call s ≡ true
      → (c : AuthorizationCode) × (get_code_info k s ≡ some c) × (c.used ≡ false)
  unfolding redeems
  redeems_needs_unspent k (create now code r) s h = cc
  redeems_needs_unspent k (consume now code client_id uri verifier) s h =
      let (c', same, g) = redeems_grants k now code client_id uri verifier s h in
      let (c, e, r, m) = (consume_code-granted_iff s256 now code client_id uri verifier s c').0 g in
      (c, subst (λ j. get_code_info j s ≡ some c) same e, r.fresh)

  redeems_spends :
      (k : String) (call : Call) (s : AuthCodeStore)
      → redeems k call s ≡ true
      → is_spent (get_code_info k (after call s)) ≡ true
  unfolding after is_spent redeems
  redeems_spends k (create now code r) s h = cc
  redeems_spends k (consume now code client_id uri verifier) s h =
      let (c, same, g) = redeems_grants k now code client_id uri verifier s h in
      let (e, u) = consume_code_marks s256 now code client_id uri verifier s c g in
      subst
        (λ j.
          is_spent (get_code_info j (consume_code s256 now code client_id uri verifier s).0) ≡ true)
        same (rw e u)

  redemptions_spent :
      (k : String) (calls : List Call) (s : AuthCodeStore)
      → IsWellFormed s
      → never_creates k calls ≡ true
      → is_spent (get_code_info k s) ≡ true
      → redemptions k calls s ≡ 0
  unfolding redemptions
  redemptions_spent k [] s w n spent = refl
  redemptions_spent k (call ∷ calls) s w n spent = elim (Bool-cases (redeems k call s)) [
    | inl hit ↦
        let (c, e, fresh) = redeems_needs_unspent k call s hit in
        absurd (unfold is_spent in ground (arith, e, fresh, spent))
    | inr miss ↦ rw miss (
        redemptions_spent k calls (after call s) (after-IsWellFormed call s w) (ground arith)
          (after-spent k call s w.unique (ground arith) spent))
  ]

  -- In any run that starts from a well-formed store and does not draw the code anew, whatever calls
  -- are made in whatever order, the code is handed out at most once.
  pub redemptions-le-one :
      (k : String) (calls : List Call) (s : AuthCodeStore)
      → IsWellFormed s
      → never_creates k calls ≡ true
      → redemptions k calls s ≤ 1
  unfolding redemptions
  redemptions-le-one k [] s w n = omega arith
  redemptions-le-one k (call ∷ calls) s w n = elim (Bool-cases (redeems k call s)) [
    | inl hit ↦ rw hit (
        omega (
          arith,
          redemptions_spent k calls (after call s) (after-IsWellFormed call s w) (ground arith)
              (redeems_spends k call s hit),
        ))
    | inr miss ↦
        rw miss
          (redemptions-le-one k calls (after call s) (after-IsWellFormed call s w) (ground arith))
  ]

  -- Every run keeps the store well formed.
  pub run-IsWellFormed :
      (calls : List Call) (s : AuthCodeStore) → IsWellFormed s → IsWellFormed (run calls s)
  unfolding run
  run-IsWellFormed [] s w = w
  run-IsWellFormed (call ∷ calls) s w =
      run-IsWellFormed calls (after call s) (after-IsWellFormed call s w)
