-- ===== src/AuthCode/Pkce.antt =====
-- PKCE at the redemption of an authorization code (src/nanoidp/services/auth_code.py).
use nanoidp.Prelude.{
  ℕ, ◌+◌, ◌≤◌, String, ◌≡◌, refl, sym, subst, ◌∙◌, ◌≢◌, true, Option, none, some, arith, eq_iff,
  eq_refl, is_ascii,
}
use nanoidp.AuthCode.{
  AuthorizationCode, AuthCodeStore, CodeRequest, create_code, get_code_info, granted, mark_used,
  consume_code, authorization_code, code_lifetime, check_pkce, verify_pkce, verified,
}
use nanoidp.AuthCode.Laws.{IsWellFormed, get-create_code, consume_code-granted_iff}

s256_proof :
    (s256 : String → String) (c : AuthorizationCode) (challenge : String) (verifier : Option String)
    → c.code_challenge ≡ some challenge
    → challenge ≢ ""
    → c.code_challenge_method ≡ some "S256"
    → check_pkce s256 c verifier ≡ verified true
    → (v : String) × (verifier ≡ some v) × (is_ascii v ≡ true) × (s256 v ≡ challenge)
unfolding check_pkce verify_pkce
s256_proof s256 c ch none f ne m h = absurd (ground (arith, eq_iff ch ""))
s256_proof s256 c ch (some v) f ne m h = (
  v,
  refl,
  ground (arith, eq_iff ch "", eq_iff (s256 v) ch),
  ground (arith, eq_iff ch "", eq_iff (s256 v) ch),
)

-- A code that was just created in a well-formed store is handed out to its client, with the
-- redirect URI of the request, by any call within ten minutes whose verifier passes the PKCE
-- check.
pub consume-create :
    (s256 : String → String) (now later : ℕ) (code : String) (r : CodeRequest)
    (verifier : Option String) (s : AuthCodeStore)
    → IsWellFormed s
    → later ≤ now + code_lifetime
    → check_pkce s256 (authorization_code now code r) verifier ≡ verified true
    → (consume_code s256 later code r.client_id r.redirect_uri verifier
        (create_code now code r s)).1
      ≡ granted (mark_used (authorization_code now code r))
consume-create s256 now later code r verifier s w alive proved =
    (consume_code-granted_iff s256 later code r.client_id r.redirect_uri verifier
        (create_code now code r s) (mark_used (authorization_code now code r))).1
      (
        authorization_code now code r,
        get-create_code now code r s w.unique code ∙ rw (eq_refl code),
        record {
          alive = alive;
          fresh = refl;
          same_client = refl;
          same_uri = refl;
          proved = proved;
        },
        refl,
      )

-- A stored code with an S256 challenge that is not blank is handed out only to a call that brings
-- an ASCII verifier whose digest is that challenge.
pub consume_code-needs_verifier :
    (s256 : String → String) (now : ℕ) (code client_id uri : String) (verifier : Option String)
    (s : AuthCodeStore) (c c' : AuthorizationCode) (challenge : String)
    → get_code_info code s ≡ some c
    → c.code_challenge ≡ some challenge
    → challenge ≢ ""
    → c.code_challenge_method ≡ some "S256"
    → (consume_code s256 now code client_id uri verifier s).1 ≡ granted c'
    → (v : String) × (verifier ≡ some v) × (is_ascii v ≡ true) × (s256 v ≡ challenge)
consume_code-needs_verifier s256 now code client_id uri verifier s c c' ch e f ne m g =
    let (d, ed, r, _) = (consume_code-granted_iff s256 now code client_id uri verifier s c').0 g in
    let same : d ≡ c = cc (sym ed ∙ e) in
    s256_proof s256 c ch verifier f ne m
      (subst (λ x. check_pkce s256 x verifier ≡ verified true) same r.proved)
