-- ===== src/Endpoints/Privacy.antt =====
-- What `/userinfo` (src/nanoidp/routes/oauth.py) tells, and to whom.
use nanoidp.Prelude.{
  String, ◌≡◌, refl, ◌∙◌, Bool, true, false, not, Option, none, some, List, [], ◌∷◌, arith, ◌==◌,
  eq_iff, Bool-cases, Option-cases, inl, inr, elem, is_none, is_empty, if◌then◌else◌,
}
use nanoidp.Dict.{Dict, get}
use nanoidp.Dict.Laws.{first_of, get-put, get-put_if}
use nanoidp.Json.{Json, obj, fields}
use nanoidp.Models.{User}
use nanoidp.Config.{ConfigManager}
use nanoidp.Revocation.{is_revoked}
use nanoidp.ClientAuth.{Request}
use nanoidp.Token.{sanitize_claim_names, resolve_user_claim}
use nanoidp.Token.Mint.{items_of}
use nanoidp.Grants.Monad.{IdpState}
use nanoidp.Endpoints.{
  Checked, signed, unsigned, Reply, refusal, json, blank, text_claim, text_or_null,
}
use nanoidp.Endpoints.UserInfo.{
  put_found, put_claim, put_claim_if, put_requested, is_strict, lets, scoped_claims, granted_scopes,
  put_attributes, user_response, user_of, userinfo_claims, is_marked, extract_bearer_token,
  userinfo,
}

get-put_found :
    (k name : String) (o : Option Json) (d : Dict Json)
    → get k (put_found name o d) ≡ (if name == k then first_of o (get k d) else get k d)
get-put_found k name none d = ground arith
get-put_found k name (some v) d = ground (arith, get-put k name v d)

get-put_claim :
    (k name : String) (user : User) (d : Dict Json)
    → get k (put_claim user name d)
      ≡ (if name == k then first_of (resolve_user_claim user name) (get k d) else get k d)
get-put_claim k name user d = get-put_found k name (resolve_user_claim user name) d

-- A claim that is not asked for is left as it is.
get-put_requested :
    (k : String) (user : User) (names : List String) (d : Dict Json)
    → elem k names ≡ false
    → get k (put_requested user names d) ≡ get k d
unfolding put_requested
get-put_requested k user [] d h = refl
get-put_requested k user (name ∷ names) d h =
    let e : get k (put_claim_if (is_none (get name d)) user name d) ≡ get k d =
      ground (arith, h, get-put_claim k name user d, eq_iff name k, eq_iff k name) in
    get-put_requested k user names (put_claim_if (is_none (get name d)) user name d)
      (ground (arith, h))
    ∙ e

other_claim :
    (k name : String) (user : User) (d : Dict Json)
    → (name == k) ≡ false
    → get k (put_claim user name d) ≡ get k d
other_claim k name user d h = get-put_claim k name user d ∙ rw h refl

other_claim_if :
    (b : Bool) (k name : String) (user : User) (d : Dict Json)
    → (name == k) ≡ false
    → get k (put_claim_if b user name d) ≡ get k d
other_claim_if true k name user d h = other_claim k name user d h
other_claim_if false k name user d h = refl

withheld :
    (b : Bool) (k name : String) (user : User) (d : Dict Json)
    → b ≡ false
    → get k (put_claim_if b user name d) ≡ get k d
withheld b k name user d h = rw h refl

module _ (user : User) (d : Dict Json) where
  no_attributes :
      (k : String) → ("attributes" == k) ≡ false → get k (put_attributes user d) ≡ get k d
  no_attributes k h =
      get-put_if (not (is_empty user.attributes)) k "attributes" (obj (fields user.attributes)) d
      ∙ ground (arith, h)

  -- The claims of no scope.
  unscoped :
      (k : String)
      → ("identity_class" == k) ≡ false
      → ("tenant" == k) ≡ false
      → ("groups" == k) ≡ false
      → ("roles" == k) ≡ false
      → get k (
          put_claim user "identity_class"
            (put_claim user "tenant" (put_claim user "groups" (put_claim user "roles" d))))
        ≡ get k d
  unscoped k i t g r =
      other_claim k "identity_class" user _ i
      ∙ (other_claim k "tenant" user _ t
          ∙ (other_claim k "groups" user _ g ∙ other_claim k "roles" user _ r))

module _ (strict : Bool) (scopes : List String) (user : User) (d : Dict Json) where
  scoped_email :
      lets strict scopes "email" ≡ false
      → get "email" (scoped_claims strict scopes user d) ≡ get "email" d
  unfolding scoped_claims
  scoped_email h =
      no_attributes user _ "email" refl
      ∙ (unscoped user _ "email" refl refl refl refl
          ∙ (other_claim_if _ "email" "preferred_username" user _ refl
              ∙ (other_claim_if _ "email" "email_verified" user _ refl
                  ∙ withheld _ "email" "email" user d h)))

  scoped_email_verified :
      lets strict scopes "email" ≡ false
      → get "email_verified" (scoped_claims strict scopes user d) ≡ get "email_verified" d
  unfolding scoped_claims
  scoped_email_verified h =
      no_attributes user _ "email_verified" refl
      ∙ (unscoped user _ "email_verified" refl refl refl refl
          ∙ (other_claim_if _ "email_verified" "preferred_username" user _ refl
              ∙ (withheld _ "email_verified" "email_verified" user _ h
                  ∙ other_claim_if _ "email_verified" "email" user d refl)))

  scoped_preferred_username :
      lets strict scopes "profile" ≡ false
      → get "preferred_username" (scoped_claims strict scopes user d) ≡ get "preferred_username" d
  unfolding scoped_claims
  scoped_preferred_username h =
      no_attributes user _ "preferred_username" refl
      ∙ (unscoped user _ "preferred_username" refl refl refl refl
          ∙ (withheld _ "preferred_username" "preferred_username" user _ h
              ∙ (other_claim_if _ "preferred_username" "email_verified" user _ refl
                  ∙ other_claim_if _ "preferred_username" "email" user d refl)))

-- The names that the client asked for.
abbrev pub requested_names : Dict Json → List String
requested_names claims = items_of (sanitize_claim_names (get "req_userinfo_claims" claims))

-- A claim about the user that neither the scope nor the request covers is not in the response.
response_lacks :
    (k : String) (strict : Bool) (claims : Dict Json) (o : Option User) (d : Dict Json)
    → get k d ≡ none
    → elem k (requested_names claims) ≡ false
    → ((user : User) → get k (scoped_claims strict (granted_scopes claims) user d) ≡ get k d)
    → get k (user_response strict claims o d) ≡ none
response_lacks k strict claims none d absent m scoped = absent
response_lacks k strict claims (some user) d absent m scoped =
    get-put_requested k user (requested_names claims) _ m ∙ (scoped user ∙ absent)

-- Under a strict profile, UserInfo tells the email, and whether it is verified, only with the scope
-- "email" or where the client asked for that claim by name, and the preferred user name only with the
-- scope "profile" or where it was asked for.
pub userinfo_claims_gated :
    (config : ConfigManager) (claims : Dict Json)
    → is_strict config.settings.security_profile ≡ true
    → (elem "email" (granted_scopes claims) ≡ false
        → elem "email" (requested_names claims) ≡ false
        → get "email" (userinfo_claims config claims) ≡ none)
      × (elem "email" (granted_scopes claims) ≡ false
          → elem "email_verified" (requested_names claims) ≡ false
          → get "email_verified" (userinfo_claims config claims) ≡ none)
      × (elem "profile" (granted_scopes claims) ≡ false
          → elem "preferred_username" (requested_names claims) ≡ false
          → get "preferred_username" (userinfo_claims config claims) ≡ none)
unfolding userinfo_claims get
userinfo_claims_gated config claims strict =
    let strictness = is_strict config.settings.security_profile in
    let user = user_of config (text_claim (get "sub" claims)) in
    let scopes = granted_scopes claims in
    let base : Dict Json = ("sub", text_or_null (text_claim (get "sub" claims))) ∷ [] in
    (
      λ outside unasked.
          response_lacks "email" strictness claims user base refl unasked
            (λ u. scoped_email strictness scopes u base (rw (strict, outside) refl)),
      λ outside unasked.
          response_lacks "email_verified" strictness claims user base refl unasked
            (λ u. scoped_email_verified strictness scopes u base (rw (strict, outside) refl)),
      λ outside unasked.
          response_lacks "preferred_username" strictness claims user base refl unasked
            (λ u. scoped_preferred_username strictness scopes u base (rw (strict, outside) refl)),
    )

abbrev pub is_json : Reply → Bool
is_json (refusal status error description) = false
is_json (json d) = true
is_json blank = false

module _ (verify_jwt : String → Option String → Checked) (config : ConfigManager)
    (r : Request) where
  -- The token behind a UserInfo response.
  pub record IsServed (s : IdpState) : Type 0 where
    pub token : String
    pub claims : Dict Json
    pub bearer : extract_bearer_token r ≡ some token
    pub verified : verify_jwt token (some config.settings.audience) ≡ signed claims
    pub unmarked : is_marked claims ≡ false
    pub live : is_revoked (text_claim (get "jti" claims)) s.revocations ≡ false
    pub answer : (userinfo config r verify_jwt s).1 ≡ json (userinfo_claims config claims)

  -- UserInfo answers with claims only to a bearer token that verifies for the audience of the server,
  -- is not marked as an ID or refresh token and is not revoked, and then with the claims of that
  -- token's user.
  pub userinfo-IsServed :
      (s : IdpState) → is_json (userinfo config r verify_jwt s).1 ≡ true → IsServed s
  unfolding userinfo
  userinfo-IsServed s h = elim (Option-cases (extract_bearer_token r)) [
    | inl e ↦ absurd (false_true (rw e at h))
    | inr (token, e) ↦ elim (Bool-cases (token == "")) [
      | inl empty_token ↦ absurd (false_true (rw (e, empty_token) at h))
      | inr given ↦ checked token e given (verify_jwt token (some config.settings.audience)) refl
    ]
  ]
    where
      false_true : false ≡ true → ⊥
      false_true x = cc

      checked :
          (token : String)
          → extract_bearer_token r ≡ some token
          → (token == "") ≡ false
          → (c : Checked) → verify_jwt token (some config.settings.audience) ≡ c
          → IsServed s
      checked token e given (unsigned m) v = absurd (false_true (rw (e, given, v) at h))
      checked token e given (signed claims) v = elim (Bool-cases (is_marked claims)) [
        | inl marked ↦ absurd (false_true (rw (e, given, v, marked) at h))
        | inr plain ↦ elim (Bool-cases (is_revoked (text_claim (get "jti" claims)) s.revocations)) [
          | inl gone ↦ absurd (false_true (rw (e, given, v, plain, gone) at h))
          | inr live ↦ record {
            token = token;
            claims = claims;
            bearer = e;
            verified = v;
            unmarked = plain;
            live = live;
            answer = rw (e, given, v, plain, live) refl;
          }
        ]
      ]
