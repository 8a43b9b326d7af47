-- ===== src/Revocation/Tests.antt =====
-- Runs of the revocation store on concrete tokens.
use nanoidp.Prelude.{ℕ, ◌≤◌, ◌≡◌, refl, true, false, some, [], ◌∷◌, arith}
use nanoidp.Dict.{get, put, remove, keys_where, remove_all}
use nanoidp.Revocation.{
  RevocationStore, empty, until, unset, numeric, revoke, is_revoked, sweep, effective_expiry,
  is_past, family_retention, check_and_claim_refresh,
}
use nanoidp.Revocation.Laws.{IsWellFormed, Lasts}
use nanoidp.Revocation.Claim.{is_live, is_live_in, claim-IsWellFormed}
use nanoidp.Revocation.Trace
use nanoidp.Revocation.Trace.{
  Call, run, accepted, accepted-le-one, revoked_stays, reuse_stops_family,
}

empty-IsWellFormed : IsWellFormed empty
empty-IsWellFormed = record { tokens_unique = tt; families_unique = tt }

abbrev present : ℕ → Call
present now = Trace.claim now (some "t1") (some "f1") true (numeric 1000)

-- The token is accepted once, and its second presentation is reuse.
abbrev claimed_once : RevocationStore
claimed_once = (check_and_claim_refresh 10 (some "t1") (some "f1") true (numeric 1000) empty).0

claim_first :
    (check_and_claim_refresh 10 (some "t1") (some "f1") true (numeric 1000) empty).1 ≡ false
unfolding check_and_claim_refresh sweep effective_expiry get put keys_where remove_all
claim_first = refl

claim_second :
    (check_and_claim_refresh 20 (some "t1") (some "f1") true (numeric 1000) claimed_once).1 ≡ true
unfolding check_and_claim_refresh sweep effective_expiry get put keys_where remove_all remove
claim_second = refl

claimed_once-IsWellFormed : IsWellFormed claimed_once
claimed_once-IsWellFormed =
    claim-IsWellFormed 10 (some "t1") (some "f1") true (numeric 1000) empty empty-IsWellFormed

accepted-le-one_example : accepted "t1" (present 10 ∷ present 20 ∷ []) empty ≤ 1
accepted-le-one_example =
    accepted-le-one "t1" (numeric 1000) (present 10 ∷ present 20 ∷ []) empty empty-IsWellFormed
      (λ e. cc) (refl, (refl, tt)) (λ e. (refl, refl), (λ e. (refl, refl), tt))

revoked_stays_example :
    is_revoked
      (some "t1")
      (run (present 20 ∷ Trace.revoke 30 "t2" unset ∷ []) (revoke 10 "t1" (numeric 1000) empty))
    ≡ true
revoked_stays_example =
    revoked_stays 10 "t1" (numeric 1000) (present 20 ∷ Trace.revoke 30 "t2" unset ∷ []) empty
      empty-IsWellFormed (refl, (refl, tt))

token_is_live : is_live_in 20 (some "t1") claimed_once.tokens ≡ true
unfolding check_and_claim_refresh sweep effective_expiry get put keys_where remove_all
token_is_live = refl

family_is_quiet : is_live 20 (get "f1" claimed_once.families) ≡ false
unfolding check_and_claim_refresh sweep effective_expiry get put keys_where remove_all
family_is_quiet = refl

retention_before :
    (now : ℕ)
    → now ≤ 1000
    → is_past now (effective_expiry 20 (family_retention (numeric 1000))) ≡ false
unfolding effective_expiry
retention_before now h = ground arith

reuse_stops_family_example :
    (check_and_claim_refresh 40 (some "t2") (some "f1") true (numeric 2000) (
      run
        (Trace.revoke 30 "t9" unset ∷ [])
        (check_and_claim_refresh 20 (some "t1") (some "f1") true (numeric 1000) claimed_once).0)).1
    ≡ true
reuse_stops_family_example =
    reuse_stops_family 20 (some "t1") "f1" (numeric 1000) (Trace.revoke 30 "t9" unset ∷ []) 40
      (some "t2") true (numeric 2000) claimed_once claimed_once-IsWellFormed (λ e. cc) token_is_live
      family_is_quiet (retention_before 30 (omega arith), tt) (retention_before 40 (omega arith))

token-Lasts : Lasts (until 1000) (get "t1" claimed_once.tokens)
unfolding check_and_claim_refresh sweep effective_expiry get put keys_where remove_all
token-Lasts = omega arith
