-- ===== src/Authorize/Outcome.antt =====
-- How `/authorize` (src/nanoidp/routes/oauth.py) answers.
use nanoidp.Prelude.{
  String, ◌≡◌, refl, subst, ap, ◌∙◌, ◌⊎◌, inl, inr, Bool, true, false, ◌&&◌, ◌||◌, Option, none,
  some, ◌∷◌, Bool-cases, is_text, is_empty, after_prefix,
}
use nanoidp.Json.{Json}
use nanoidp.Models.{User, OAuthClient, persona_mode_enabled, auto_login_enabled}
use nanoidp.Config.{ConfigManager, interactive_authenticate}
use nanoidp.AuthCode.{AuthCodeStore, create_code}
use nanoidp.RedirectUri.{ParsedUrl}
use nanoidp.Authorize.{
  AuthorizeRequest, AuthorizeParams, AuthorizeReply, local, redirect, login_page, cleared, WebState,
  Stage, go, reply, read_authorize_params, stored,
}
use nanoidp.Authorize.Validate.{state_and_issuer, forged, audit_suspicious_authorize_post}
use nanoidp.Authorize.Login.{
  TwoStepPhase, attempt, username_required, password_required, username_step, code_request,
  username_of, password_of, auto_login_prefix, issue_authorization_code, auto_login_as,
  auto_login_hint, try_persona_auto_login, login_as, login_phase, handle_authorize_login, login_leg,
  login, audited_if, authorize,
}
use nanoidp.Authorize.Valid.{IsValid, SafeAnswer, returns, validate-Judged}
use nanoidp.Authorize.Laws.{GoesTo, IsTrusted, goes, replies}

-- The response is the login page.
abbrev pub IsPage : AuthorizeReply → Type 0
IsPage (local e) = ⊥
IsPage (redirect uri params) = ⊥
IsPage (login_page message username) = Unit

module _ (urlparse : String → Option ParsedUrl) (loads : String → Option Json)
    (is_valid : String → Bool) (repr : String → String) (checkpw : String → String → Option Bool)
    (code : String) (config : ConfigManager) (r : AuthorizeRequest) where
  -- How a user came to be known: by the login form, or as the persona of a hint where automatic
  -- logins are on.
  pub data IsLoggedIn (p : AuthorizeParams) (user : User) : Type 0 where
    by_form :
        r.is_post ≡ true
        → interactive_authenticate checkpw config (username_of r) (password_of r) ≡ some user
        → IsLoggedIn p user
    by_hint :
        (username : String)
        → auto_login_enabled config.settings ≡ true
        → after_prefix auto_login_prefix p.login_hint ≡ some username
        → interactive_authenticate checkpw config username "" ≡ some user
        → IsLoggedIn p user

  -- The response that carries the code.
  abbrev pub code_redirect : AuthorizeParams → AuthorizeReply
  code_redirect p = redirect p.redirect_uri (("code", code) ∷ state_and_issuer urlparse config r p)

  -- The codes after one was issued to the user.
  abbrev pub codes_with : AuthorizeParams → User → AuthCodeStore → AuthCodeStore
  codes_with p user s =
      create_code r.request.transport.now code (code_request loads p user.username) s

  -- How a step of the login ends: with a value, an answer that issues nothing, or a code.
  data Login {A : Type 0} (p : AuthorizeParams) (s : WebState) (x : WebState × Stage A)
      : Type 0 where
    goes_on : (a : A) (t : WebState) → x ≡ (t, go a) → t.idp.codes ≡ s.idp.codes → Login p s x
    sends_back :
        (t : WebState) (y : AuthorizeReply)
        → x ≡ (t, reply y)
        → t.idp.codes ≡ s.idp.codes
        → IsPage y ⊎ GoesTo p.redirect_uri y
        → Login p s x
    issues :
        (t : WebState) (user : User)
        → x ≡ (t, reply (code_redirect p))
        → IsLoggedIn p user
        → t.idp.codes ≡ codes_with p user s.idp.codes
        → t.session ≡ cleared
        → Login p s x

  auto_login_as-Login :
      (p : AuthorizeParams) (username : String) (o : Option User) (s : WebState)
      → auto_login_enabled config.settings ≡ true
      → after_prefix auto_login_prefix p.login_hint ≡ some username
      → interactive_authenticate checkpw config username "" ≡ o
      → Login p s (auto_login_as urlparse loads is_valid repr checkpw code config r p username o s)
  unfolding issue_authorization_code
  auto_login_as-Login p username none s on hint e = sends_back _ _ refl refl (inr refl)
  auto_login_as-Login p username (some user) s on hint e =
      issues _ user refl (by_hint username on hint e) refl refl

  auto_login_hint-Login :
      (p : AuthorizeParams) (o : Option String) (s : WebState)
      → auto_login_enabled config.settings ≡ true
      → after_prefix auto_login_prefix p.login_hint ≡ o
      → Login p s (auto_login_hint urlparse loads is_valid repr checkpw code config r p o s)
  auto_login_hint-Login p none s on hint = goes_on tt s refl refl
  auto_login_hint-Login p (some username) s on hint =
      auto_login_as-Login p username (interactive_authenticate checkpw config username "") s on hint
        refl

  try-Login :
      (p : AuthorizeParams) (s : WebState)
      → Login p s (try_persona_auto_login urlparse loads is_valid repr checkpw code config r p s)
  unfolding try_persona_auto_login
  try-Login p s = elim (Bool-cases (auto_login_enabled config.settings)) [
    | inr off ↦ rw off (goes_on tt s refl refl)
    | inl on ↦
        rw on (auto_login_hint-Login p (after_prefix auto_login_prefix p.login_hint) s on refl)
  ]

  login_as-Login :
      (p : AuthorizeParams) (o : Option User) (s : WebState)
      → r.is_post ≡ true
      → interactive_authenticate checkpw config (username_of r) (password_of r) ≡ o
      → Login p s (
          login_as urlparse loads is_valid repr checkpw code config r p
            (username_of r)
            (password_of r)
            o
            s)
  unfolding issue_authorization_code
  login_as-Login p (some user) s post e = issues _ user refl (by_form post e) refl refl
  login_as-Login p none s post e =
      elim (Bool-cases (
        (persona_mode_enabled config.settings && is_text (username_of r))
        || (is_text (username_of r) && is_text (password_of r)))) [
          | inl tried ↦ rw tried (goes_on _ _ refl refl)
          | inr blank ↦ rw blank (elim (Bool-cases (persona_mode_enabled config.settings)) [
            | inl persona ↦ rw persona (goes_on _ s refl refl)
            | inr password ↦ rw password (goes_on _ s refl refl)
          ])
        ]

  login_phase-Login :
      (p : AuthorizeParams) (phase : TwoStepPhase) (s : WebState)
      → r.is_post ≡ true
      → Login p s (login_phase urlparse loads is_valid repr checkpw code config r p phase s)
  login_phase-Login p username_required s post = goes_on _ s refl refl
  login_phase-Login p password_required s post = goes_on _ s refl refl
  login_phase-Login p username_step s post = goes_on _ s refl refl
  login_phase-Login p attempt s post =
      login_as-Login p (interactive_authenticate checkpw config (username_of r) (password_of r)) s
        post refl

  handle-Login :
      (p : AuthorizeParams) (s : WebState)
      → r.is_post ≡ true
      → Login p s (handle_authorize_login urlparse loads is_valid repr checkpw code config r p s)
  unfolding handle_authorize_login
  handle-Login p s post = login_phase-Login p _ s post

  -- How the login as a whole ends: with an answer that issues nothing, or a code.
  data Ended (p : AuthorizeParams) (s : WebState) (x : WebState × Stage (Unit {0})) : Type 0 where
    nothing :
        (t : WebState) (y : AuthorizeReply)
        → x ≡ (t, reply y)
        → t.idp.codes ≡ s.idp.codes
        → IsPage y ⊎ GoesTo p.redirect_uri y
        → Ended p s x
    a_code :
        (t : WebState) (user : User)
        → x ≡ (t, reply (code_redirect p))
        → IsLoggedIn p user
        → t.idp.codes ≡ codes_with p user s.idp.codes
        → t.session ≡ cleared
        → Ended p s x

  leg-Ended :
      (b : Bool) (p : AuthorizeParams) (s : WebState)
      → r.is_post ≡ b
      → Ended p s (login_leg urlparse loads is_valid repr checkpw code config r b p s)
  leg-Ended false p s e = nothing s _ refl refl (inl tt)
  leg-Ended true p s post = elim (handle-Login p s post) [
    | goes_on m u f k ↦ rw f (nothing u _ refl k (inl tt))
    | sends_back u y f k q ↦ rw f (nothing u y refl k q)
    | issues u user f who k c ↦ rw f (a_code u user refl who k c)
  ]

  login-Ended :
      (p : AuthorizeParams) (s : WebState)
      → Ended p s (login urlparse loads is_valid repr checkpw code config r p s)
  unfolding login
  login-Ended p s = elim (try-Login p s) [
    | sends_back t y e k q ↦ rw e (nothing t y refl k q)
    | issues t user e who k c ↦ rw e (a_code t user refl who k c)
    | goes_on a t e k ↦ rw e (elim (leg-Ended r.is_post p t refl) [
      | nothing u y f l q ↦ nothing u y f (l ∙ k) q
      | a_code u user f who l c ↦ a_code u user f who (l ∙ ap (codes_with p user) k) c
    ])
  ]

  audited_codes :
      (b : Bool) (p : AuthorizeParams) (s : WebState)
      → (audited_if urlparse loads is_valid repr checkpw code config r b p s).idp.codes
        ≡ s.idp.codes
  unfolding audit_suspicious_authorize_post
  audited_codes false p s = refl
  audited_codes true p s = elim (Bool-cases (is_empty (forged r) && is_text p.client_id)) [
    | inl quiet ↦ rw quiet refl
    | inr noted ↦ rw noted refl
  ]

  -- The parameters that the request asks for.
  abbrev pub asked : WebState → AuthorizeParams
  asked s = read_authorize_params r s.session

  -- How a request is answered.
  pub data Answered (s : WebState) : Type 0 where
    refused :
        (t : WebState) (x : AuthorizeReply)
        → authorize urlparse loads is_valid repr checkpw code config r s ≡ (t, reply x)
        → t.idp.codes ≡ s.idp.codes
        → IsPage x ⊎ SafeAnswer urlparse config r is_valid repr (asked s) x
        → Answered s
    granted_code :
        (t : WebState) (p : AuthorizeParams) (client : OAuthClient) (user : User)
        → IsValid urlparse config r is_valid repr (asked s) p client
        → IsLoggedIn p user
        → authorize urlparse loads is_valid repr checkpw code config r s
          ≡ (t, reply (code_redirect p))
        → t.idp.codes ≡ codes_with p user s.idp.codes
        → t.session ≡ cleared
        → Answered s

  -- Every authorization request is answered. The answer issues no code, and is the login page, a local
  -- error, or a redirect to the request's URI, which is then trusted: acceptable, of a known client,
  -- and registered where that client has registered any. Or it is a redirect to such a URI with a code
  -- that was stored for a user who has logged in, with parameters that passed every validator, and the
  -- session is cleared.
  pub authorize-Answered : (s : WebState) → Answered s
  unfolding authorize
  authorize-Answered s =
      let p = asked s in
      let start =
        audited_if urlparse loads is_valid repr checkpw code config r r.is_post p
          (record s { session = stored p }) in
      let same : start.idp.codes ≡ s.idp.codes = audited_codes r.is_post p _ in
      elim (validate-Judged urlparse config r is_valid repr p start) [
        | replies t x e k q ↦ refused t x (rw e refl) (k ∙ same) (inr q)
        | goes v e valid ↦ elim (login-Ended v.0 start) [
          | nothing t y f k (inl page) ↦ refused t y (rw (e, f) refl) (k ∙ same) (inl page)
          | nothing t y f k (inr to) ↦
              refused t y (rw (e, f) refl) (k ∙ same) (inr (sent_back p v.0 v.1 y valid to))
          | a_code t user f who k c ↦
              granted_code t v.0 v.1 user valid who (rw (e, f) refl)
                (k ∙ ap (codes_with v.0 user) same) c
        ]
      ]
    where
      sent_back :
          (a p : AuthorizeParams) (client : OAuthClient) (y : AuthorizeReply)
          → IsValid urlparse config r is_valid repr a p client
          → GoesTo p.redirect_uri y
          → SafeAnswer urlparse config r is_valid repr a y
      sent_back a p client y valid to =
          let uri : p.redirect_uri ≡ a.redirect_uri =
            ap (λ (x : AuthorizeParams). x.redirect_uri) valid.kept in
          let id : p.client_id ≡ a.client_id =
            ap (λ (x : AuthorizeParams). x.client_id) valid.kept in
          returns client
            (subst (λ u. IsTrusted urlparse config r a.client_id u client) uri
              (subst (λ i. IsTrusted urlparse config r i p.redirect_uri client) id valid.trusted))
            (subst (λ u. GoesTo u y) uri to)
