-- ===== src/Token/Signing.antt =====
-- The signing of the tokens of a call of `create_token` (src/nanoidp/services/token.py,
-- src/nanoidp/services/crypto.py), which the caller's `extra` claims can make raise.
use nanoidp.Prelude.{
  ℕ, ◌+◌, ◌*◌, ◌/◌, String, ◌≡◌, refl, ap, ◌∙◌, Bool, true, false, Option, none, some, List, [],
  ◌==◌, Bool-cases, inl, inr,
}
use nanoidp.Dict.{Dict, get, update, HasUniqueKeys}
use nanoidp.Dict.Laws.{first_of, first_of-none, get-put, get-put_text, get-remove_all, get-update}
use nanoidp.Json.{Json, null, bool, num, str, arr, obj}
use nanoidp.Config.{ConfigManager}
use nanoidp.Revocation.{second}
use nanoidp.Token.Mint.{
  JwtRequest, always_claims, registered_claims, create_jwt, TokenRequest, Draws, Minted,
  user_claims, put_nonce, issuer_of, minutes, refresh_extra, id_extra, access_extra, access_claims,
  refresh_claims, id_claims, create_token, asks_unbound, asks_openid, issues_refresh, signed_if,
}
use nanoidp.Token.Claims.{
  get-put_names, get-put_number, get-put_list, get-put_if_other, access_extra-HasUniqueKeys,
  refresh_extra-HasUniqueKeys, get-create_jwt, get-registered, get-offer_all,
}
use nanoidp.Token.Laws.{id_extra-HasUniqueKeys}

-- A text, or nothing.
abbrev pub is_textual : Option Json → Bool
is_textual none = true
is_textual (some null) = false
is_textual (some (bool b)) = false
is_textual (some (num n)) = false
is_textual (some (str s)) = true
is_textual (some (arr a)) = false
is_textual (some (obj o)) = false

ruleset extra_laws = (get-put, get-put_text, get-put_names, get-put_number, get-remove_all)

module _ (authorities : List String) (r : TokenRequest) where
  -- A claim of no user.
  user_claims_other :
      (j : String)
      → ("authorities" == j) ≡ false
      → ("attributes" == j) ≡ false
      → ("source_acl" == j) ≡ false
      → ("groups" == j) ≡ false
      → ("entitlements" == j) ≡ false
      → ("identity_class" == j) ≡ false
      → get j (user_claims authorities r.user) ≡ none
  unfolding get
  user_claims_other j a b c d e f =
      get-put_if_other _ j "authorities" _ _ a
      ∙ (get-put_if_other _ j "attributes" _ _ b
          ∙ (get-put_if_other _ j "source_acl" _ _ c
              ∙ (get-put_if_other _ j "groups" _ _ d
                  ∙ (get-put_if_other _ j "entitlements" _ _ e
                      ∙ (get-put_text j "identity_class" r.user.identity_class [] ∙ rw f refl)))))

  extra_iss :
      HasUniqueKeys r.extra_claims
      → get "iss" (access_extra authorities r) ≡ get "iss" r.extra_claims
  unfolding access_extra
  extra_iss u =
      let merged = get-update "iss" (user_claims authorities r.user) r.extra_claims u in
      let own = user_claims_other "iss" refl refl refl refl refl refl in
      simp (extra_laws, merged, own, first_of-none)

  extra_exp :
      HasUniqueKeys r.extra_claims
      → get "exp" (access_extra authorities r) ≡ get "exp" r.extra_claims
  unfolding access_extra
  extra_exp u =
      let merged = get-update "exp" (user_claims authorities r.user) r.extra_claims u in
      let own = user_claims_other "exp" refl refl refl refl refl refl in
      simp (extra_laws, merged, own, first_of-none)

module _ (now : ℕ) (r : JwtRequest) where
  -- A registered claim, and one of the `extra` in its place.
  given_claim :
      (j : String) (x y : Option Json)
      → HasUniqueKeys r.extra
      → r.nonce ≡ none
      → ("tenant" == j) ≡ false
      → ("roles" == j) ≡ false
      → get j r.extra ≡ x
      → get j (always_claims now r) ≡ y
      → get j (create_jwt now r) ≡ first_of x y
  given_claim j x y u plain a b h g =
      get-create_jwt j now r u plain ∙ rw (h, get-registered j now r a b ∙ g) refl

  -- The issuer of a token whose call sets none in its `extra`.
  own_issuer :
      HasUniqueKeys r.extra
      → get "iss" r.extra ≡ none
      → get "iss" (create_jwt now r) ≡ some (str r.issuer)
  unfolding create_jwt
  own_issuer u none_given =
      let merged : get "iss" (update (registered_claims now r) r.extra) ≡ some (str r.issuer) =
        get-update "iss" (registered_claims now r) r.extra u
        ∙ (rw none_given (get-registered "iss" now r refl refl ∙ unfold get in refl)) in
      without_nonce r.nonce merged
    where
      without_nonce :
          (n : Option String)
          → get "iss" (update (registered_claims now r) r.extra) ≡ some (str r.issuer)
          → get "iss" (put_nonce n (update (registered_claims now r) r.extra)) ≡ some (str r.issuer)
      without_nonce none e = e
      without_nonce (some n) e = get-put "iss" "nonce" (str n) _ ∙ e

module _ (upper : String → String) (show : Json → String) (config : ConfigManager) (now : ℕ)
    (draws : Draws) (r : TokenRequest) where
  -- An `iss` of the caller's stands in the access token.
  access_iss :
      HasUniqueKeys r.extra_claims
      → get "iss" (access_claims upper show config now draws r)
        ≡ first_of (get "iss" r.extra_claims) (some (str (issuer_of upper show config r)))
  unfolding access_claims get
  access_iss u =
      given_claim now _ "iss" _ _ (access_extra-HasUniqueKeys _ r) refl refl refl (extra_iss _ r u)
        refl

  -- And so does an `exp`.
  pub access_exp :
      HasUniqueKeys r.extra_claims
      → get "exp" (access_claims upper show config now draws r)
        ≡ first_of
            (get "exp" r.extra_claims)
            (some (num ((now + minutes upper show config r * (60 * second)) / second)))
  unfolding access_claims get
  access_exp u =
      given_claim now _ "exp" _ _ (access_extra-HasUniqueKeys _ r) refl refl refl (extra_exp _ r u)
        refl

  refresh_iss :
      get "iss" (refresh_claims upper show config now draws r)
      ≡ some (str (issuer_of upper show config r))
  unfolding refresh_claims
  refresh_iss =
      own_issuer now _ (refresh_extra-HasUniqueKeys now draws.family r)
        (unfold refresh_extra get in simp (extra_laws, get-put_list))

  id_iss :
      (at_hash : String)
      → get "iss" (id_claims upper show config now draws at_hash r)
        ≡ some (str (issuer_of upper show config r))
  unfolding id_claims
  id_iss at_hash =
      own_issuer now _ (id_extra-HasUniqueKeys upper show config now at_hash r)
        (unfold id_extra get in (get-offer_all r.user _ "iss" _ refl ∙ simp extra_laws))

-- A signing that does not raise.
abbrev pub is_signed : Option String → Bool
is_signed none = false
is_signed (some token) = true

-- PyJWT's `encode` takes every claim that is JSON, and raises TypeError exactly where an `iss` is
-- given that is not a text.
abbrev pub SignsTextIssuers : (Dict Json → Option String) → Type 0
SignsTextIssuers sign = (d : Dict Json) → is_signed (sign d) ≡ is_textual (get "iss" d)

signed : (o : Option String) → is_signed o ≡ true → (token : String) × (o ≡ some token)
signed none h = cc
signed (some token) h = (token, refl)

unsigned : (o : Option String) → is_signed o ≡ false → o ≡ none
unsigned none h = refl
unsigned (some token) h = cc

signed_if-some :
    (b : Bool) (o : Option String)
    → is_signed o ≡ true
    → (x : Option String) × (signed_if b o ≡ some x)
signed_if-some false o h = (none, refl)
signed_if-some true none h = cc
signed_if-some true (some token) h = (some token, refl)

textual_first :
    (o : Option Json) (issuer : String) → is_textual (first_of o (some (str issuer))) ≡ is_textual o
textual_first none issuer = refl
textual_first (some j) issuer = refl

module _ (upper : String → String) (show : Json → String) (config : ConfigManager)
    (sign : Dict Json → Option String) (at_hash : String → String) (now : ℕ) (draws : Draws)
    (r : TokenRequest) where
  abbrev pub access : Dict Json
  access = access_claims upper show config now draws r

  access_signed :
      SignsTextIssuers sign
      → HasUniqueKeys r.extra_claims
      → is_signed (sign access) ≡ is_textual (get "iss" r.extra_claims)
  access_signed signs u =
      signs access
      ∙ (ap is_textual (access_iss upper show config now draws r u)
          ∙ textual_first (get "iss" r.extra_claims) _)

  -- The call returns tokens, where it may bind a refresh token and the caller gives no `iss` but a
  -- text.
  pub create_token-some :
      SignsTextIssuers sign
      → HasUniqueKeys r.extra_claims
      → asks_unbound r ≡ false
      → is_textual (get "iss" r.extra_claims) ≡ true
      → (m : Minted) × (create_token upper show config sign at_hash now draws r ≡ some m)
        × (m.expires_in ≡ minutes upper show config r * 60)
        × (sign access ≡ some m.access_token)
  unfolding create_token
  create_token-some signs u bound textual =
      let (token, e) = signed (sign access) (access_signed signs u ∙ textual) in
      let id_claims' = id_claims upper show config now draws (at_hash token) r in
      let refresh = refresh_claims upper show config now draws r in
      let (id, f) =
        signed_if-some (asks_openid r.scope) (sign id_claims') (
          signs id_claims'
          ∙ ap is_textual (id_iss upper show config now draws r (at_hash token))) in
      let (renewal, g) =
        signed_if-some (issues_refresh r) (sign refresh)
          (signs refresh ∙ ap is_textual (refresh_iss upper show config now draws r)) in
      rw (bound, e, f, g) (_, refl, refl, refl)

  -- The call raises where the caller gives another `iss`.
  pub create_token-none :
      SignsTextIssuers sign
      → HasUniqueKeys r.extra_claims
      → is_textual (get "iss" r.extra_claims) ≡ false
      → create_token upper show config sign at_hash now draws r ≡ none
  unfolding create_token
  create_token-none signs u other =
      let e = unsigned (sign access) (access_signed signs u ∙ other) in
      elim (Bool-cases (asks_unbound r)) [
        | inl unbound ↦ rw unbound refl
        | inr bound ↦ rw (bound, e) refl
      ]
