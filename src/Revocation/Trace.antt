-- ===== src/Revocation/Trace.antt =====
-- Runs of the revocation store: any order of revocations and refreshes, concurrent ones included,
-- since the lock makes each writing call whole.
use nanoidp.Prelude.{
  ℕ, ◌+◌, ◌≤◌, String, ◌≡◌, refl, subst, ap, ◌∙◌, ◌≢◌, inl, inr, Bool, true, false, not, ◌&&◌,
  Option, none, some, List, [], ◌∷◌, arith, eq_iff, if◌then◌else◌, is_none, Bool-cases, same,
  same-some, All,
}
use nanoidp.Dict.{get}
use nanoidp.Revocation
use nanoidp.Revocation.{
  Expiry, until, never, ExpiresAt, RevocationStore, effective_expiry, is_past, is_revoked,
  family_retention, check_and_claim_refresh,
}
use nanoidp.Revocation.Laws.{
  IsWellFormed, Lasts, Before, NoLater-refl, trusted, revoke-Lasts, revoke_monotonic,
  revoke-IsWellFormed, revoke-families_keep,
}
use nanoidp.Revocation.Claim.{
  is_live, is_live_in, claim-reuse, claim_keeps_token, claim_keeps_family, claim-IsWellFormed,
  claim_takes, claim_revokes_family,
}

pub data Call : Type 0 where
  revoke : ℕ → String → ExpiresAt → Call
  claim : ℕ → Option String → Option String → Bool → ExpiresAt → Call

abbrev pub clock : Call → ℕ
clock (revoke now token_id x) = now
clock (claim now jti family rotate x) = now

unfoldable pub after : Call → RevocationStore → RevocationStore
after (revoke now token_id x) s = Revocation.revoke now token_id x s
after (claim now jti family rotate x) s = (check_and_claim_refresh now jti family rotate x s).0

unfoldable pub run : List Call → RevocationStore → RevocationStore
run [] s = s
run (call ∷ calls) s = run calls (after call s)

-- The clock reads less than the expiry at every call of the run.
abbrev pub AllBefore : Expiry → List Call → Type 0
AllBefore e calls = All (λ call. Before (clock call) e) calls

after-IsWellFormed :
    (call : Call) (s : RevocationStore) → IsWellFormed s → IsWellFormed (after call s)
unfolding after
after-IsWellFormed (revoke now token_id x) s w = revoke-IsWellFormed now token_id x s w
after-IsWellFormed (claim now jti family rotate x) s w =
    claim-IsWellFormed now jti family rotate x s w

pub run-IsWellFormed :
    (calls : List Call) (s : RevocationStore) → IsWellFormed s → IsWellFormed (run calls s)
unfolding run
run-IsWellFormed [] s w = w
run-IsWellFormed (call ∷ calls) s w =
    run-IsWellFormed calls (after call s) (after-IsWellFormed call s w)

after_keeps_token :
    (k : String) (e : Expiry) (call : Call) (s : RevocationStore)
    → IsWellFormed s
    → Before (clock call) e
    → Lasts e (get k s.tokens)
    → Lasts e (get k (after call s).tokens)
unfolding after
after_keeps_token k e (revoke now token_id x) s w b l = revoke_monotonic now token_id x s w k e b l
after_keeps_token k e (claim now jti family rotate x) s w b l =
    claim_keeps_token now jti family rotate x s w k e b l

after_keeps_family :
    (k : String) (e : Expiry) (call : Call) (s : RevocationStore)
    → IsWellFormed s
    → Before (clock call) e
    → Lasts e (get k s.families)
    → Lasts e (get k (after call s).families)
unfolding after
after_keeps_family k e (revoke now token_id x) s w b l =
    revoke-families_keep now token_id x s w k e b l
after_keeps_family k e (claim now jti family rotate x) s w b l =
    claim_keeps_family now jti family rotate x s w k e b l

run_keeps_token :
    (k : String) (e : Expiry) (calls : List Call) (s : RevocationStore)
    → IsWellFormed s
    → AllBefore e calls
    → Lasts e (get k s.tokens)
    → Lasts e (get k (run calls s).tokens)
unfolding run
run_keeps_token k e [] s w b l = l
run_keeps_token k e (call ∷ calls) s w (b, bs) l =
    run_keeps_token k e calls (after call s) (after-IsWellFormed call s w) bs
      (after_keeps_token k e call s w b l)

run_keeps_family :
    (k : String) (e : Expiry) (calls : List Call) (s : RevocationStore)
    → IsWellFormed s
    → AllBefore e calls
    → Lasts e (get k s.families)
    → Lasts e (get k (run calls s).families)
unfolding run
run_keeps_family k e [] s w b l = l
run_keeps_family k e (call ∷ calls) s w (b, bs) l =
    run_keeps_family k e calls (after call s) (after-IsWellFormed call s w) bs
      (after_keeps_family k e call s w b l)

Lasts-present : (e : Expiry) (o : Option Expiry) → Lasts e o → not (is_none o) ≡ true
Lasts-present e none l = absurd l
Lasts-present e (some x) l = refl

Lasts-live :
    (now : ℕ) (e : Expiry) (o : Option Expiry) → Before now e → Lasts e o → is_live now o ≡ true
Lasts-live now e none b l = absurd l
Lasts-live now never (some never) b l = refl
Lasts-live now never (some (until x)) b l = absurd l
Lasts-live now (until e) (some never) b l = refl
Lasts-live now (until e) (some (until x)) b l = ground (arith, b, l)

-- A token id that is revoked in a store without repeated keys stays revoked, whatever is called,
-- as long as the clock of the calls has not reached the expiry that the revocation was given; for
-- ever if its token has none.
pub revoked_stays :
    (now : ℕ) (k : String) (x : ExpiresAt) (calls : List Call) (s : RevocationStore)
    → IsWellFormed s
    → AllBefore (trusted x) calls
    → is_revoked (some k) (run calls (Revocation.revoke now k x s)) ≡ true
unfolding is_revoked
revoked_stays now k x calls s w b =
    Lasts-present (trusted x) (get k (run calls (Revocation.revoke now k x s)).tokens) (
      run_keeps_token k (trusted x) calls (Revocation.revoke now k x s)
        (revoke-IsWellFormed now k x s w) b (revoke-Lasts now k x s w))

-- Where a revoked token of a family that is not yet revoked is presented under rotation, to a
-- store without repeated keys, every later refresh with that family is refused while the retention
-- of the family lasts, whichever of its tokens is presented and whatever calls lie between.
pub reuse_stops_family :
    (now : ℕ) (jti : Option String) (f : String) (x : ExpiresAt) (calls : List Call) (later : ℕ)
    (jti' : Option String) (rotate : Bool) (x' : ExpiresAt) (s : RevocationStore)
    → IsWellFormed s
    → f ≢ ""
    → is_live_in now jti s.tokens ≡ true
    → is_live now (get f s.families) ≡ false
    → AllBefore (effective_expiry now (family_retention x)) calls
    → Before later (effective_expiry now (family_retention x))
    → (check_and_claim_refresh later jti'
        (some f)
        rotate
        x'
        (run calls (check_and_claim_refresh now jti (some f) true x s).0)).1
      ≡ true
reuse_stops_family now jti f x calls later jti' rotate x' s w ne live quiet bs b =
    let e = effective_expiry now (family_retention x) in
    let claimed = (check_and_claim_refresh now jti (some f) true x s).0 in
    let valid = claim-IsWellFormed now jti (some f) true x s w in
    let marked = claim_revokes_family now jti (some f) true x s w f refl ne refl live quiet in
    let kept = run_keeps_family f e calls claimed valid bs (rw marked (NoLater-refl e)) in
    let alive = Lasts-live later e (get f (run calls claimed).families) b kept in
    claim-reuse later jti' (some f) rotate x' (run calls claimed)
      (run-IsWellFormed calls claimed valid)
    ∙ ground (arith, alive, eq_iff f "")

-- The call presents the refresh token of that id with its expiry, with rotation on.
abbrev Presents : String → ExpiresAt → Call → Type 0
Presents k x (revoke now token_id y) = Unit
Presents k x (claim now jti family rotate y) = jti ≡ some k → (rotate ≡ true) × (y ≡ x)

accepts : String → Call → RevocationStore → Bool
accepts k (revoke now token_id x) s = false
accepts k (claim now jti family rotate x) s =
    same jti (some k) && not (check_and_claim_refresh now jti family rotate x s).1

-- How often the run accepts the refresh token of that id.
unfoldable pub accepted : String → List Call → RevocationStore → ℕ
unfolding accepts
accepted k [] s = 0
accepted k (call ∷ calls) s =
    let rest = accepted k calls (after call s) in if accepts k call s then rest + 1 else rest

accepts_needs_absent :
    (k : String) (e : Expiry) (call : Call) (s : RevocationStore)
    → IsWellFormed s
    → Before (clock call) e
    → Lasts e (get k s.tokens)
    → accepts k call s ≡ false
unfolding accepts
accepts_needs_absent k e (revoke now token_id x) s w b l = refl
accepts_needs_absent k e (claim now jti family rotate x) s w b l =
    elim (Bool-cases (same jti (some k))) [
      | inr other ↦ ground (arith, other)
      | inl presented ↦
          let p = same-some jti k presented in
          ground (
            arith,
            presented,
            claim-reuse now jti family rotate x s w,
            ap (λ j. is_live_in now j s.tokens) p,
            Lasts-live now e (get k s.tokens) b l,
          )
    ]

accepts_claims :
    (k : String) (x : ExpiresAt) (call : Call) (s : RevocationStore)
    → IsWellFormed s
    → k ≢ ""
    → Presents k x call
    → accepts k call s ≡ true
    → Lasts (trusted x) (get k (after call s).tokens)
unfolding accepts after
accepts_claims k x (revoke now token_id y) s w ne p h = cc
accepts_claims k x (claim now jti family rotate y) s w ne p h =
    let presented = same-some jti k (ground (arith, h)) in
    let (rotates, own) = p presented in
    subst
      (λ z. Lasts (trusted z) (get k (check_and_claim_refresh now jti family rotate y s).0.tokens))
      own (claim_takes now jti family rotate y s w k presented ne rotates (ground (arith, h)))

accepted_claimed :
    (k : String) (e : Expiry) (calls : List Call) (s : RevocationStore)
    → IsWellFormed s
    → AllBefore e calls
    → Lasts e (get k s.tokens)
    → accepted k calls s ≡ 0
unfolding accepted
accepted_claimed k e [] s w b l = refl
accepted_claimed k e (call ∷ calls) s w (b, bs) l = rw (accepts_needs_absent k e call s w b l) (
    accepted_claimed k e calls (after call s) (after-IsWellFormed call s w) bs
      (after_keeps_token k e call s w b l))

-- Under rotation a refresh token whose id is not blank is accepted at most once while it lives: in
-- any run from a store without repeated keys, in any order, in which each call that presents its
-- id has rotation on and passes its expiry, and in which no clock reading has reached that expiry.
pub accepted-le-one :
    (k : String) (x : ExpiresAt) (calls : List Call) (s : RevocationStore)
    → IsWellFormed s
    → k ≢ ""
    → AllBefore (trusted x) calls
    → All (Presents k x) calls
    → accepted k calls s ≤ 1
unfolding accepted
accepted-le-one k x [] s w ne b p = omega arith
accepted-le-one k x (call ∷ calls) s w ne (b, bs) (p, ps) = elim (Bool-cases (accepts k call s)) [
  | inl hit ↦ rw hit (
      omega (
        arith,
        accepted_claimed k (trusted x) calls (after call s) (after-IsWellFormed call s w) bs
            (accepts_claims k x call s w ne p hit),
      ))
  | inr miss ↦
      rw miss (accepted-le-one k x calls (after call s) (after-IsWellFormed call s w) ne bs ps)
]
