-- ===== src/TokenEndpoint/Issuance.antt =====
-- What follows a grant handler that succeeds at the token endpoint (src/nanoidp/routes/oauth.py).
use nanoidp.Prelude.{
  ℕ, ◌+◌, ◌*◌, ◌/◌, String, ◌≡◌, ◌≢◌, refl, true, false, some, arith, eq_iff, Bool-cases, inl, inr,
}
use nanoidp.Dict.{Dict, get, HasUniqueKeys}
use nanoidp.Dict.Laws.{first_of}
use nanoidp.Json.{Json, num}
use nanoidp.Revocation.{second}
use nanoidp.Config.{ConfigManager}
use nanoidp.ClientAuth.{Request}
use nanoidp.Token.Mint.{TokenRequest, Draws, Minted, asks_unbound}
use nanoidp.Token.Signing.{
  is_textual, SignsTextIssuers, access, access_exp, create_token-some, create_token-none,
}
use nanoidp.Grants.Monad.{IdpState, Step, next, raised, ◌>>=◌}
use nanoidp.Grants.Defs.{GrantOutcome, GrantContext}
use nanoidp.Grants.Laws.{SameStores}
use nanoidp.TokenEndpoint.{
  effective_issuer, token_context, token_request, Platform, dispatch, issue,
}

module _ (p : Platform) (draws : Draws) (candidate : String) (config : ConfigManager) (r : Request)
    (client_id : String) (minutes : ℕ) (extra : Dict Json) where
  abbrev ctx : GrantContext
  ctx = token_context config r client_id

  -- The grant handler and what follows it.
  abbrev pub serve : IdpState → IdpState × Step Minted
  serve s = (dispatch p ctx >>= issue p draws candidate ctx minutes extra) s

  -- What becomes of a grant that left the state `t`.
  pub data Issued (s t : IdpState) : Type 0 where
    delivered :
        (m : Minted) (u : IdpState) (claims : Dict Json)
        → is_textual (get "iss" extra) ≡ true
        → serve s ≡ (u, next m)
        → SameStores t u
        → m.expires_in ≡ minutes * 60
        → p.sign claims ≡ some m.access_token
        → get "exp" claims
          ≡ first_of
              (get "exp" extra)
              (some (num ((r.transport.now + minutes * (60 * second)) / second)))
        → Issued s t
    crashed : is_textual (get "iss" extra) ≡ false → serve s ≡ (t, raised) → Issued s t

  -- Where signing takes every claim but an `iss` that is not a text, and the `extra` parameter is a
  -- dict without repeated keys, a grant handler that succeeds for a request that reached it (its
  -- client id is not blank) is followed by tokens or by an exception. Tokens follow exactly where
  -- `extra` has no `iss` or one that is a text: the stores stay as the handler left them,
  -- `expires_in` is the lifetime asked for, and so is the `exp` that is signed, unless `extra` has
  -- one, which is then signed in its place. Otherwise the request ends in an exception, and what the
  -- handler spent stays spent.
  pub issue-Issued :
      (s t : IdpState) (o : GrantOutcome)
      → SignsTextIssuers p.sign
      → HasUniqueKeys extra
      → client_id ≢ ""
      → dispatch p ctx s ≡ (t, next o)
      → Issued s t
  unfolding issue
  issue-Issued s t o signs unique given e =
      let request : TokenRequest =
        token_request ctx (effective_issuer config.settings candidate) minutes extra o in
      let bound : asks_unbound request ≡ false = ground (arith, given, eq_iff client_id "") in
      let now = r.transport.now in
      elim (Bool-cases (is_textual (get "iss" extra))) [
        | inl textual ↦
            let (m, made, expires, signed) =
              create_token-some p.upper p.show config p.sign p.at_hash now draws request signs
                unique bound textual in
            delivered m (serve s).0
              (access p.upper p.show config p.sign p.at_hash now draws request) textual
              (rw (e, made) refl) (rw (e, made) (refl, refl, refl)) expires signed
              (access_exp p.upper p.show config now draws request unique)
        | inr other ↦
            let failed =
              create_token-none p.upper p.show config p.sign p.at_hash now draws request signs
                unique other in
            crashed other (rw (e, failed) refl)
      ]
