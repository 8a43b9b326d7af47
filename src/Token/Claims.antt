-- ===== src/Token/Claims.antt =====
-- What the minted tokens (src/nanoidp/services/token.py) hold, claim by claim.
use nanoidp.Prelude.{
  ℕ, String, ◌≡◌, refl, sym, ap, ◌∙◌, Bool, true, false, not, Option, none, some, List, [], ◌∷◌,
  arith, ◌==◌, eq_iff, Bool-cases, inl, inr, if◌then◌else◌, is_text, is_empty, elem,
}
use nanoidp.Dict.{Dict, get, put_if, update, HasUniqueKeys}
use nanoidp.Dict.Laws.{
  first_of, get-absent, get-put, get-update, get-put_if, get-put_new, put-HasUniqueKeys,
  remove_all-HasUniqueKeys, update-HasUniqueKeys, put_if-HasUniqueKeys, put_new-HasUniqueKeys,
  put_text-HasUniqueKeys,
}
use nanoidp.Json.{Json, num, str, arr, texts}
use nanoidp.Models.{User}
use nanoidp.Token.{authoritative_claims, reserved_claims, sanitize_claim_names, resolve_user_claim}
use nanoidp.Token.Mint.{
  JwtRequest, registered_claims, always_claims, create_jwt, put_nonce, TokenRequest, put_names,
  put_number, put_list, user_claims, access_extra, offer, offer_all, refresh_extra,
  effective_auth_time,
}

-- The claim that `put_names` writes.
abbrev pub names_value : Option (List String) → Option Json
names_value none = none
names_value (some names) = some (arr (texts names))

abbrev pub number_value : Option ℕ → Option Json
number_value none = none
number_value (some n) = some (num n)

pub get-put_names :
    (j k : String) (o : Option (List String)) (d : Dict Json)
    → get j (put_names k o d) ≡ (if k == j then first_of (names_value o) (get j d) else get j d)
get-put_names j k none d = ground arith
get-put_names j k (some names) d = ground (arith, get-put j k (arr (texts names)) d)

pub get-put_number :
    (j k : String) (o : Option ℕ) (d : Dict Json)
    → get j (put_number k o d) ≡ (if k == j then first_of (number_value o) (get j d) else get j d)
get-put_number j k none d = ground arith
get-put_number j k (some n) d = ground (arith, get-put j k (num n) d)

-- The claim that `put_list` writes.
abbrev pub list_value : List String → Option Json
list_value [] = none
list_value (x ∷ xs) = some (arr (texts (x ∷ xs)))

pub get-put_list :
    (j k : String) (xs : List String) (d : Dict Json)
    → get j (put_list k xs d) ≡ (if k == j then first_of (list_value xs) (get j d) else get j d)
unfolding put_if
get-put_list j k [] d = ground arith
get-put_list j k (x ∷ xs) d = ground (arith, get-put j k (arr (texts (x ∷ xs))) d)

put_names-HasUniqueKeys :
    (k : String) (o : Option (List String)) (d : Dict Json)
    → HasUniqueKeys d
    → HasUniqueKeys (put_names k o d)
put_names-HasUniqueKeys k none d u = u
put_names-HasUniqueKeys k (some names) d u = put-HasUniqueKeys k (arr (texts names)) d u

put_number-HasUniqueKeys :
    (k : String) (o : Option ℕ) (d : Dict Json) → HasUniqueKeys d → HasUniqueKeys (put_number k o d)
put_number-HasUniqueKeys k none d u = u
put_number-HasUniqueKeys k (some n) d u = put-HasUniqueKeys k (num n) d u

put_list-HasUniqueKeys :
    (k : String) (xs : List String) (d : Dict Json)
    → HasUniqueKeys d
    → HasUniqueKeys (put_list k xs d)
put_list-HasUniqueKeys k xs d u = put_if-HasUniqueKeys (not (is_empty xs)) k (arr (texts xs)) d u

user_claims-HasUniqueKeys :
    (authorities : List String) (user : User) → HasUniqueKeys (user_claims authorities user)
user_claims-HasUniqueKeys authorities user = put_list-HasUniqueKeys _ authorities _ (
    put_if-HasUniqueKeys _ _ _ _ (
      put_list-HasUniqueKeys _ user.source_acl _ (
        put_list-HasUniqueKeys _ user.groups _ (
          put_list-HasUniqueKeys _ user.entitlements _
            (put_text-HasUniqueKeys _ user.identity_class [] tt)))))

pub access_extra-HasUniqueKeys :
    (authorities : List String) (r : TokenRequest) → HasUniqueKeys (access_extra authorities r)
unfolding access_extra
access_extra-HasUniqueKeys authorities r = put-HasUniqueKeys _ _ _ (
    put_text-HasUniqueKeys _ r.client_id _ (
      put_names-HasUniqueKeys _ (sanitize_claim_names r.userinfo_claims) _ (
        put_text-HasUniqueKeys _ r.scope _ (
          remove_all-HasUniqueKeys authoritative_claims _ (
            update-HasUniqueKeys _ r.extra_claims
              (user_claims-HasUniqueKeys authorities r.user))))))

offer-HasUniqueKeys :
    (name : String) (o : Option Json) (d : Dict Json)
    → HasUniqueKeys d
    → HasUniqueKeys (offer name o d)
offer-HasUniqueKeys name none d u = u
offer-HasUniqueKeys name (some v) d u = put_new-HasUniqueKeys name v d u

pub offer_all-HasUniqueKeys :
    (user : User) (names : List String) (d : Dict Json)
    → HasUniqueKeys d
    → HasUniqueKeys (offer_all user names d)
unfolding offer_all
offer_all-HasUniqueKeys user [] d u = u
offer_all-HasUniqueKeys user (name ∷ names) d u =
    offer_all-HasUniqueKeys user names _
      (offer-HasUniqueKeys name (resolve_user_claim user name) d u)

pub refresh_extra-HasUniqueKeys :
    (now : ℕ) (family : String) (r : TokenRequest) → HasUniqueKeys (refresh_extra now family r)
unfolding refresh_extra get
refresh_extra-HasUniqueKeys now family r = put-HasUniqueKeys _ _ _ (
    put_list-HasUniqueKeys _ _ _ (
      put_names-HasUniqueKeys _ (sanitize_claim_names r.userinfo_claims) _ (
        put_names-HasUniqueKeys _ (sanitize_claim_names r.id_token_claims) _ (
          put_text-HasUniqueKeys _ r.client_id _ (
            put_number-HasUniqueKeys _ (effective_auth_time now r) _
              (put_text-HasUniqueKeys _ r.scope _ (refl, (refl, tt))))))))

-- A claim of the token: one of its `extra`, and else a registered one.
pub get-create_jwt :
    (j : String) (now : ℕ) (r : JwtRequest)
    → HasUniqueKeys r.extra
    → r.nonce ≡ none
    → get j (create_jwt now r) ≡ first_of (get j r.extra) (get j (registered_claims now r))
unfolding create_jwt
get-create_jwt j now r u plain =
    ap (λ n. get j (put_nonce n (update (registered_claims now r) r.extra))) plain
    ∙ get-update j (registered_claims now r) r.extra u

-- A requested claim leaves every reserved claim as it is.
pub get-offer :
    (user : User) (name k : String) (d : Dict Json)
    → elem k reserved_claims ≡ true
    → get k (offer name (resolve_user_claim user name) d) ≡ get k d
unfolding resolve_user_claim
get-offer user name k d reserved = elim (Bool-cases (name == k)) [
  | inl e ↦ rw ((eq_iff name k).0 e, reserved) refl
  | inr other ↦ untouched other (resolve_user_claim user name)
]
  where
    untouched : (name == k) ≡ false → (o : Option Json) → get k (offer name o d) ≡ get k d
    untouched other none = refl
    untouched other (some v) = get-put_new k name v d ∙ rw other refl

pub get-offer_all :
    (user : User) (names : List String) (k : String) (d : Dict Json)
    → elem k reserved_claims ≡ true
    → get k (offer_all user names d) ≡ get k d
unfolding offer_all
get-offer_all user [] k d reserved = refl
get-offer_all user (name ∷ names) k d reserved =
    get-offer_all user names k _ reserved ∙ get-offer user name k d reserved

pub get-put_if_other :
    (b : Bool) (j k : String) (v : Json) (d : Dict Json)
    → (k == j) ≡ false
    → get j (put_if b k v d) ≡ get j d
get-put_if_other b j k v d other = ground (arith, get-put_if b j k v d, other)

-- The registered claims that stand in every token.
pub get-registered :
    (j : String) (now : ℕ) (r : JwtRequest)
    → ("tenant" == j) ≡ false
    → ("roles" == j) ≡ false
    → get j (registered_claims now r) ≡ get j (always_claims now r)
unfolding registered_claims
get-registered j now r t q =
    get-put_if_other (is_text r.tenant) j "tenant" (str r.tenant) _ t
    ∙ get-put_if_other (not (is_empty r.roles)) j "roles" (arr (texts r.roles)) _ q

-- No other claim is registered.
pub get-unregistered :
    (j : String) (now : ℕ) (r : JwtRequest)
    → ("tenant" == j) ≡ false
    → ("roles" == j) ≡ false
    → elem j ("jti" ∷ "iss" ∷ "sub" ∷ "aud" ∷ "iat" ∷ "nbf" ∷ "exp" ∷ []) ≡ false
    → get j (registered_claims now r) ≡ none
get-unregistered j now r t q m = get-registered j now r t q ∙ get-absent j (always_claims now r) m

-- A nonce hides the same claim of either.
pub get-put_nonce :
    (n : Option String) (j : String) (d e : Dict Json)
    → get j d ≡ get j e
    → get j (put_nonce n d) ≡ get j (put_nonce n e)
get-put_nonce none j d e same = same
get-put_nonce (some n) j d e same =
    get-put j "nonce" (str n) d
    ∙ (ap (λ x. if "nonce" == j then some (str n) else x) same ∙ sym (get-put j "nonce" (str n) e))
