-- ===== src/ClientAuth/Laws.antt =====
-- What client authentication guarantees at the token endpoint (src/nanoidp/routes/oauth.py).
use nanoidp.Prelude.{
  String, ◌≡◌, refl, subst, ◌≢◌, inl, inr, true, false, Option, none, some, arith, eq_iff,
  Option-cases, Bool-cases,
}
use nanoidp.Models.{
  OAuthClient, AuthMethod, client_secret_basic, client_secret_post, public_client, is_public,
}
use nanoidp.Config.{ConfigManager, get_client, check_client}
use nanoidp.Config.Laws.{Registered, check_client_iff}
use nanoidp.ClientAuth.{
  Authorization, Request, form_get, request_client_identity, method_of, found_client, enforce_post,
  enforce_basic, enforce_method, enforce_registered_client_auth, proceed, reason_to,
  enforce_token_endpoint_auth,
}

-- The one way in which a request proves a confidential client: by the body alone or by Basic alone,
-- with the id and secret of a client on the list.
pub data Proof (config : ConfigManager) (client_id : Option String) (auth : Option Authorization)
    (secret : Option String) : Type 0 where
  by_post :
      (i p : String)
      → auth ≡ none
      → client_id ≡ some i
      → secret ≡ some p
      → Registered i p config.settings.clients
      → Proof config client_id auth secret
  by_basic :
      (a : Authorization) (i p : String)
      → auth ≡ some a
      → secret ≡ none
      → a.username ≡ some i
      → a.password ≡ some p
      → Registered i p config.settings.clients
      → Proof config client_id auth secret

checked :
    (config : ConfigManager) (o q : Option String)
    → check_client config o q ≡ true
    → (i : String) × (p : String) × (o ≡ some i)
      × (q ≡ some p)
      × Registered i p config.settings.clients
unfolding check_client
checked config none q h = cc
checked config (some i) none h = cc
checked config (some i) (some p) h =
    (i, p, refl, refl, (check_client_iff config i p).0 (unfold check_client in h))

post-Proof :
    (config : ConfigManager) (client_id : Option String) (auth : Option Authorization)
    (secret : Option String)
    → enforce_post config client_id auth secret ≡ none
    → Proof config client_id auth secret
post-Proof config client_id (some a) secret h = cc
post-Proof config client_id none secret h =
    let (i, p, e, f, r) = checked config client_id secret (ground (arith, h)) in
    by_post i p refl e f r

basic-Proof :
    (config : ConfigManager) (client_id : Option String) (auth : Option Authorization)
    (secret : Option String)
    → enforce_basic config auth secret ≡ none
    → Proof config client_id auth secret
basic-Proof config client_id auth (some s) h = cc
basic-Proof config client_id none none h = cc
basic-Proof config client_id (some a) none h =
    let (i, p, e, f, r) = checked config a.username a.password (ground (arith, h)) in
    by_basic a i p refl refl e f r

method-Proof :
    (m : AuthMethod) (config : ConfigManager) (client_id : Option String)
    (auth : Option Authorization) (secret : Option String)
    → enforce_method m config client_id auth secret ≡ none
    → Proof config client_id auth secret
method-Proof client_secret_post config client_id auth secret h =
    post-Proof config client_id auth secret h
method-Proof client_secret_basic config client_id auth secret h =
    basic-Proof config client_id auth secret h
method-Proof public_client config client_id auth secret h =
    basic-Proof config client_id auth secret h

-- The registered method is the one that was used.
pub enforce_registered_client_auth-Proof :
    (config : ConfigManager) (client_id : Option String) (auth : Option Authorization)
    (secret : Option String)
    → enforce_registered_client_auth config client_id auth secret ≡ none
    → Proof config client_id auth secret
unfolding enforce_registered_client_auth
enforce_registered_client_auth-Proof config client_id auth secret h =
    method-Proof (method_of (found_client config client_id)) config client_id auth secret h

no_reason : (o : Option String) → reason_to o ≡ proceed → o ≡ none
no_reason none h = refl
no_reason (some reason) h = cc

-- The request brings the secret for the client: in the body alone, or in a Basic header alone that
-- names the client.
pub data Brings (r : Request) (client_id secret : String) : Type 0 where
  in_body :
      r.authorization ≡ none
      → (request_client_identity r).body_client_secret ≡ some secret
      → Brings r client_id secret
  in_header :
      (a : Authorization)
      → r.authorization ≡ some a
      → (request_client_identity r).body_client_secret ≡ none
      → a.username ≡ some client_id
      → a.password ≡ some secret
      → Brings r client_id secret

-- Who may pass the token endpoint under a client id.
pub data Admitted (config : ConfigManager) (grant_type client_id : String) (r : Request)
    : Type 0 where
  public :
      (c : OAuthClient)
      → get_client config client_id ≡ some c
      → is_public c ≡ true
      → grant_type ≢ "client_credentials"
      → Admitted config grant_type client_id r
  confidential :
      (secret : String)
      → Registered client_id secret config.settings.clients
      → Brings r client_id secret
      → Admitted config grant_type client_id r

-- The user of a Basic header is the client that the request names, if the two do not mismatch.
basic_names :
    (r : Request) (a : Authorization) (i client_id : String)
    → (request_client_identity r).mismatch ≡ false
    → (request_client_identity r).client_id ≡ some client_id
    → r.authorization ≡ some a
    → a.username ≡ some i
    → i ≡ client_id
unfolding request_client_identity
basic_names r a i client_id m n e u = elim (Option-cases (form_get "client_id" r.form)) [
  | inl f ↦ ground (arith, m, n, e, u, f)
  | inr (b, f) ↦ ground (arith, m, n, e, u, f, eq_iff i b)
]

-- A request that names one client, without a mismatch, and that the token endpoint lets through is
-- for a public client and another grant than client_credentials, or it brings the registered secret
-- of a confidential client with the very id that it names, in the body alone or in a Basic header
-- alone.
pub enforce_token_endpoint_auth-Admitted :
    (config : ConfigManager) (grant_type client_id : String) (r : Request)
    → (request_client_identity r).mismatch ≡ false
    → (request_client_identity r).client_id ≡ some client_id
    → enforce_token_endpoint_auth config grant_type r.authorization client_id
        (request_client_identity r).body_client_secret
      ≡ proceed
    → Admitted config grant_type client_id r
unfolding enforce_token_endpoint_auth
enforce_token_endpoint_auth-Admitted config grant_type client_id r m n h =
    elim (Option-cases (get_client config client_id)) [
      | inr (c, e) ↦ elim (Bool-cases (is_public c)) [
        | inl open_client ↦
            public c e open_client
              (ground (arith, h, e, open_client, eq_iff grant_type "client_credentials"))
        | inr closed ↦ proved (ground (arith, h, e, closed))
      ]
      | inl e ↦ proved (ground (arith, h, e))
    ]
  where
    of_proof :
        Proof config (some client_id) r.authorization (request_client_identity r).body_client_secret
        → Admitted config grant_type client_id r
    of_proof (by_post i p none_given e f reg) =
        let same : i ≡ client_id = cc in
        confidential p (subst (λ j. Registered j p config.settings.clients) same reg)
          (in_body none_given f)
    of_proof (by_basic a i p e f u q reg) =
        let same : i ≡ client_id = basic_names r a i client_id m n e u in
        confidential p (subst (λ j. Registered j p config.settings.clients) same reg)
          (in_header a e f (subst (λ j. a.username ≡ some j) same u) q)

    proved :
        reason_to (
            enforce_registered_client_auth config
              (some client_id)
              r.authorization
              (request_client_identity r).body_client_secret)
          ≡ proceed
        → Admitted config grant_type client_id r
    proved h = of_proof (
        enforce_registered_client_auth-Proof config (some client_id) r.authorization
          (request_client_identity r).body_client_secret (no_reason _ h))
