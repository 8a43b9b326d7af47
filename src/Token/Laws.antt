-- ===== src/Token/Laws.antt =====
-- The claims that the caller and the client can, and cannot, influence
-- (src/nanoidp/services/token.py).
use nanoidp.Prelude.{
  ℕ, String, ◌≡◌, ◌≢◌, refl, sym, ap, ◌∙◌, true, false, none, some, List, [], ◌∷◌, arith, ◌==◌,
  eq_iff, eq_refl, Bool-cases, inl, inr, if◌then◌else◌, is_text, elem, length, leb,
}
use nanoidp.Dict.{get, HasUniqueKeys}
use nanoidp.Dict.Laws.{
  first_of, first_of-none, text_value, get-put, get-put_text, get-remove_all, get-update,
  get-update_same, put_text-HasUniqueKeys,
}
use nanoidp.Json.{Json, str}
use nanoidp.Config.{ConfigManager, get_client}
use nanoidp.Resource.Laws.{elem-append}
use nanoidp.Token.{
  authoritative_claims, reserved_claims, sanitize_claim_names, audience_from, audience_step,
  resolve_id_token_audience, extra_audiences, build_authorities,
}
use nanoidp.Token.Mint.{
  create_jwt, registered_claims, TokenRequest, Draws, access_extra, access_claims, id_extra,
  id_claims, items_of, user_claims,
}
use nanoidp.Token.Claims.{
  names_value, get-put_names, access_extra-HasUniqueKeys, offer_all-HasUniqueKeys, get-offer_all,
  get-create_jwt, get-unregistered, get-put_nonce,
}

module _ (authorities : List String) (r : TokenRequest) where
  extra_scope : get "scope" (access_extra authorities r) ≡ text_value r.scope
  unfolding access_extra
  extra_scope =
      get-put "scope" "token_use" (str "access") _
      ∙ (get-put_text "scope" "client_id" r.client_id _
          ∙ (get-put_names "scope" "req_userinfo_claims" (sanitize_claim_names r.userinfo_claims) _
              ∙ (get-put_text "scope" "scope" r.scope _
                  ∙ (ap (first_of (text_value r.scope))
                        (get-remove_all "scope" authoritative_claims _)
                      ∙ first_of-none (text_value r.scope)))))

  extra_userinfo :
      get "req_userinfo_claims" (access_extra authorities r)
      ≡ names_value (sanitize_claim_names r.userinfo_claims)
  unfolding access_extra
  extra_userinfo =
      get-put "req_userinfo_claims" "token_use" (str "access") _
      ∙ (get-put_text "req_userinfo_claims" "client_id" r.client_id _
          ∙ (get-put_names "req_userinfo_claims" "req_userinfo_claims"
                (sanitize_claim_names r.userinfo_claims) _
              ∙ (ap (first_of (names_value (sanitize_claim_names r.userinfo_claims))) (
                    get-put_text "req_userinfo_claims" "scope" r.scope _
                    ∙ get-remove_all "req_userinfo_claims" authoritative_claims _)
                  ∙ first_of-none (names_value (sanitize_claim_names r.userinfo_claims)))))

  extra_token_use : get "token_use" (access_extra authorities r) ≡ some (str "access")
  unfolding access_extra
  extra_token_use = get-put "token_use" "token_use" (str "access") _

  extra_client_id :
      (c : String)
      → r.client_id ≡ some c
      → c ≢ ""
      → get "client_id" (access_extra authorities r) ≡ some (str c)
  unfolding access_extra
  extra_client_id c e given =
      let named : is_text c ≡ true = ground (arith, given, eq_iff c "") in
      get-put "client_id" "token_use" (str "access") _
      ∙ (get-put_text "client_id" "client_id" r.client_id _ ∙ rw (e, named) refl)

  -- A claim of the caller's that the call does not set stays.
  extra_token_type :
      (v : Json)
      → HasUniqueKeys r.extra_claims
      → get "token_type" r.extra_claims ≡ some v
      → get "token_type" (access_extra authorities r) ≡ some v
  unfolding access_extra
  extra_token_type v u given =
      get-put "token_type" "token_use" (str "access") _
      ∙ (get-put_text "token_type" "client_id" r.client_id _
          ∙ (get-put_names "token_type" "req_userinfo_claims"
                (sanitize_claim_names r.userinfo_claims) _
              ∙ (get-put_text "token_type" "scope" r.scope _
                  ∙ (get-remove_all "token_type" authoritative_claims _
                      ∙ (get-update "token_type" (user_claims authorities r.user) r.extra_claims u
                          ∙ ap (λ o. first_of o (get "token_type" (user_claims authorities r.user)))
                              given)))))

module _ (upper : String → String) (show : Json → String) (config : ConfigManager) where
  get-access :
      (j : String) (now : ℕ) (draws : Draws) (r : TokenRequest)
      → ("tenant" == j) ≡ false
      → ("roles" == j) ≡ false
      → elem j ("jti" ∷ "iss" ∷ "sub" ∷ "aud" ∷ "iat" ∷ "nbf" ∷ "exp" ∷ []) ≡ false
      → get j (access_claims upper show config now draws r)
        ≡ get j (
            access_extra (build_authorities upper show config.settings.authority_prefixes r.user) r)
  unfolding access_claims get
  get-access j now draws r t q m =
      get-create_jwt j now _ (access_extra-HasUniqueKeys _ r) refl
      ∙ (ap (first_of _) (get-unregistered j now _ t q m) ∙ first_of-none _)

  -- Every access token says that it is one, and the scope and the UserInfo claims in it are those of
  -- the grant, absent where the grant has none: this holds for all `extra` claims of the caller.
  pub access_claims_authoritative :
      (now : ℕ) (draws : Draws) (r : TokenRequest)
      → (get "token_use" (access_claims upper show config now draws r) ≡ some (str "access"))
        × (get "scope" (access_claims upper show config now draws r) ≡ text_value r.scope)
        × (get "req_userinfo_claims" (access_claims upper show config now draws r)
            ≡ names_value (sanitize_claim_names r.userinfo_claims))
  access_claims_authoritative now draws r = (
    get-access "token_use" now draws r refl refl refl ∙ extra_token_use _ r,
    get-access "scope" now draws r refl refl refl ∙ extra_scope _ r,
    get-access "req_userinfo_claims" now draws r refl refl refl ∙ extra_userinfo _ r,
  )

  pub access_client_id :
      (now : ℕ) (draws : Draws) (r : TokenRequest) (c : String)
      → r.client_id ≡ some c
      → c ≢ ""
      → get "client_id" (access_claims upper show config now draws r) ≡ some (str c)
  access_client_id now draws r c e given =
      get-access "client_id" now draws r refl refl refl ∙ extra_client_id _ r c e given

  -- A `token_type` that the caller gives in the `extra` claims (a dict without repeated keys) stands
  -- in the access token, beside its `token_use` "access".
  pub access_claims_token_type :
      (now : ℕ) (draws : Draws) (r : TokenRequest) (v : Json)
      → HasUniqueKeys r.extra_claims
      → get "token_type" r.extra_claims ≡ some v
      → (get "token_type" (access_claims upper show config now draws r) ≡ some v)
        × (get "token_use" (access_claims upper show config now draws r) ≡ some (str "access"))
  access_claims_token_type now draws r v u given = (
    get-access "token_type" now draws r refl refl refl ∙ extra_token_type _ r v u given,
    get-access "token_use" now draws r refl refl refl ∙ extra_token_use _ r,
  )

  pub id_extra-HasUniqueKeys :
      (now : ℕ) (at_hash : String) (r : TokenRequest)
      → HasUniqueKeys (id_extra upper show config now at_hash r)
  unfolding id_extra get
  id_extra-HasUniqueKeys now at_hash r =
      offer_all-HasUniqueKeys r.user (items_of (sanitize_claim_names r.id_token_claims)) _
        (put_text-HasUniqueKeys "azp" _ _ (refl, (refl, (refl, tt))))

  get-id :
      (k : String) (now : ℕ) (at_hash : String) (r : TokenRequest)
      → elem k reserved_claims ≡ true
      → get k (id_extra upper show config now at_hash r)
        ≡ get k (id_extra upper show config now at_hash (record r { id_token_claims = none }))
  unfolding id_extra sanitize_claim_names
  get-id k now at_hash r reserved =
      get-offer_all r.user (items_of (sanitize_claim_names r.id_token_claims)) k _ reserved
      ∙ sym (get-offer_all r.user [] k _ reserved)

  -- The claims that a client asks for, and any malformed value in their place, change no reserved
  -- claim of the ID Token: it is what it would be without the request.
  pub id_claims_reserved :
      (now : ℕ) (draws : Draws) (at_hash k : String) (r : TokenRequest)
      → elem k reserved_claims ≡ true
      → get k (id_claims upper show config now draws at_hash r)
        ≡ get k
            (id_claims upper show config now draws at_hash (record r { id_token_claims = none }))
  unfolding id_claims create_jwt registered_claims
  id_claims_reserved now draws at_hash k r reserved =
      let plain : TokenRequest = record r { id_token_claims = none } in
      get-put_nonce r.nonce k _ _ (
        get-update_same k _ _ _ (id_extra-HasUniqueKeys now at_hash r)
          (id_extra-HasUniqueKeys now at_hash plain) (get-id k now at_hash r reserved))

-- The audiences so far stay.
elem-audience_from :
    (resource client_id x : String) (aud extras : List String)
    → elem x aud ≡ true
    → elem x (audience_from resource client_id aud extras) ≡ true
unfolding audience_from
elem-audience_from resource client_id x aud [] h = h
elem-audience_from resource client_id x aud (extra ∷ extras) h =
    elem-audience_from resource client_id x (audience_step resource client_id aud extra) extras
      (ground (arith, h, elem-append x aud (extra ∷ [])))

-- The resource audience does not come in.
audience_from-excludes :
    (resource client_id : String) (aud extras : List String)
    → (resource == client_id) ≡ false
    → elem resource aud ≡ false
    → elem resource (audience_from resource client_id aud extras) ≡ false
unfolding audience_from
audience_from-excludes resource client_id aud [] other h = h
audience_from-excludes resource client_id aud (extra ∷ extras) other h =
    audience_from-excludes resource client_id (audience_step resource client_id aud extra) extras
      other
      (ground (
        arith,
        h,
        other,
        elem-append resource aud (extra ∷ []),
        eq_iff extra resource,
        eq_iff resource extra,
        eq_iff extra client_id,
        eq_iff resource client_id,
      ))

excluded :
    (config : ConfigManager) (client_id : String)
    → config.settings.audience ≢ client_id
    → elem config.settings.audience (
        audience_from config.settings.audience client_id
          (client_id ∷ [])
          (extra_audiences (get_client config client_id)))
      ≡ false
excluded config client_id other =
    let apart : (config.settings.audience == client_id) ≡ false =
      ground (arith, other, eq_iff config.settings.audience client_id) in
    audience_from-excludes config.settings.audience client_id (client_id ∷ [])
      (extra_audiences (get_client config client_id)) apart (rw apart refl)

-- The ID Token of a client (its id not blank) is for that client; the resource audience is not among
-- its audiences unless it is the client's id; and the authorized party is the client where there are
-- several audiences, and absent else.
pub resolve_id_token_audience-client :
    (config : ConfigManager) (client_id : String)
    → client_id ≢ ""
    → (elem client_id (resolve_id_token_audience config (some client_id)).0 ≡ true)
      × (config.settings.audience ≢ client_id
          → elem config.settings.audience (resolve_id_token_audience config (some client_id)).0
            ≡ false)
      × ((resolve_id_token_audience config (some client_id)).1 ≡ (
          if leb (length (resolve_id_token_audience config (some client_id)).0) 1
          then none
          else some client_id))
unfolding resolve_id_token_audience
resolve_id_token_audience-client config client_id given =
    let aud =
      audience_from config.settings.audience client_id (client_id ∷ [])
        (extra_audiences (get_client config client_id)) in
    let present : elem client_id aud ≡ true =
      elem-audience_from config.settings.audience client_id client_id (client_id ∷ [])
        (extra_audiences (get_client config client_id)) (rw (eq_refl client_id) refl) in
    let blank : (client_id == "") ≡ false = ground (arith, given, eq_iff client_id "") in
    elim (Bool-cases (leb (length aud) 1)) [
      | inl one ↦ rw (blank, one) (present, excluded config client_id, rw one refl)
      | inr several ↦ rw (blank, several) (present, excluded config client_id, rw several refl)
    ]
