-- ===== src/DevicePages/Confirm.antt =====
-- src/nanoidp/routes/oauth.py: the page on which a user confirms a device, and the logout. The HTML is
-- left out; `str.upper` and the decoding of a JWT without its signature are arguments.
use Prim.Native.String
use nanoidp.Prelude.{
  String, Bool, true, false, not, ◌&&◌, ◌||◌, Option, none, some, [], ◌∷◌, ◌==◌, is_none, is_given,
  is_text, strip, if◌then◌else◌,
}
use nanoidp.Dict.{Dict, get}
use nanoidp.Json.{Json, bool, str}
use nanoidp.Models.{persona_mode_enabled, two_step_login_active}
use nanoidp.Config.{ConfigManager, interactive_authenticate}
use nanoidp.DeviceCode
use nanoidp.DeviceCode.{
  DeviceCodeStore, VerifyOutcome, invalid_code, already_used, missing_credentials,
  invalid_credentials,
}
use nanoidp.Revocation
use nanoidp.Revocation.{unset}
use nanoidp.ClientAuth.{form_get}
use nanoidp.RedirectUri.{has_char}
use nanoidp.Grants.Monad.{IdpState}
use nanoidp.Endpoints.{text_claim, record_event}
use nanoidp.Authorize.{AuthorizeRequest, WebState, cleared}
use nanoidp.Authorize.Login.{
  TwoStepPhase, attempt, username_required, password_required, username_step, two_step_phase,
}

-- The page: the code in its field, its messages, and the user name in its field.
pub record DevicePage : Type 0 where
  pub user_code : String
  pub error : Option String
  pub success : Option String
  pub login_username : String

abbrev text_or : String → Option String → String
text_or default none = default
text_or default (some s) = s

abbrev page : String → String → Option String → Option String → DevicePage
page user_code username error success = record {
  user_code = user_code;
  error = error;
  success = success;
  login_username = username;
}

abbrev pub missing_input : Bool → String → String → String → Bool
missing_input persona_mode action username password =
    not (action == "deny")
    && ((persona_mode && not (is_text username))
        || (not persona_mode && (not (is_text username) || not (is_text password))))

-- An attempt with nothing filled in is not one with wrong credentials.
abbrev pub told_apart : Bool → VerifyOutcome → VerifyOutcome
told_apart missing invalid_code = invalid_code
told_apart missing already_used = already_used
told_apart missing VerifyOutcome.expired = VerifyOutcome.expired
told_apart missing VerifyOutcome.denied = VerifyOutcome.denied
told_apart missing missing_credentials = missing_credentials
told_apart missing invalid_credentials =
    if missing then missing_credentials else invalid_credentials
told_apart missing (VerifyOutcome.authorized user) = VerifyOutcome.authorized user

module _ (upper : String → String) (checkpw : String → String → Option Bool)
    (config : ConfigManager) (r : AuthorizeRequest) where
  abbrev field : String → String → String
  field key default = text_or default (form_get key r.request.form)

  abbrev pub user_code : String
  user_code = strip (upper (field "user_code" ""))

  abbrev pub username : String
  username = strip (field "username" "")

  abbrev verification : String → String → Dict Json → IdpState → IdpState
  verification status who details s =
      record_event r.request "device_verification" status "/device" (some who) none details s

  -- What the page says of an outcome, and what is recorded.
  abbrev pub answer_outcome : VerifyOutcome → IdpState → IdpState × DevicePage
  answer_outcome invalid_code s =
      (s, page user_code username (some "Invalid or expired user code") none)
  answer_outcome already_used s =
      (s, page user_code username (some "This code has already been used") none)
  answer_outcome VerifyOutcome.expired s =
      (s, page user_code username (some "This code has expired") none)
  answer_outcome VerifyOutcome.denied s = (
    verification "denied" username (("user_code", str user_code) ∷ []) s,
    page user_code username none (some "Device authorization denied"),
  )
  answer_outcome missing_credentials s = (
    s,
    page user_code username
        (some (
          if persona_mode_enabled config.settings
          then "Select a user"
          else "Username and password are required"))
        none,
  )
  answer_outcome invalid_credentials s = (
    verification "failed" username
        (("user_code", str user_code) ∷ ("reason", str "Invalid credentials") ∷ []) s,
    page user_code username (some "Invalid username or password") none,
  )
  answer_outcome (VerifyOutcome.authorized user) s = (
    verification "success" user.username (("user_code", str user_code) ∷ []) s,
    page user_code username none
        (some "Device authorized successfully! You can close this window."),
  )

  abbrev pub verified : DeviceCodeStore × VerifyOutcome → IdpState → IdpState × DevicePage
  verified (store, outcome) s =
      answer_outcome
        (told_apart
          (missing_input (persona_mode_enabled config.settings) (field "action" "authorize")
            username (field "password" ""))
          outcome)
        (record s { devices = store })

  abbrev pub confirm_phase : TwoStepPhase → IdpState → IdpState × DevicePage
  confirm_phase username_required s =
      (s, page user_code username (some "Username is required") none)
  confirm_phase password_required s =
      (s, page user_code username (some "Password is required") none)
  confirm_phase username_step s = (s, page user_code username none none)
  confirm_phase attempt s =
      verified
        (DeviceCode.verify (interactive_authenticate checkpw config) r.request.transport.now
          user_code (field "action" "authorize") username (field "password" "") s.devices)
        s

  abbrev pub confirm : Bool → IdpState → IdpState × DevicePage
  confirm false s = (s, page (text_or "" (form_get "user_code" r.args)) "" none none)
  confirm true s =
      confirm_phase
        (two_step_phase
          (two_step_login_active config.settings && not (field "action" "authorize" == "deny"))
          username (field "password" "") (not (is_none (form_get "password" r.request.form))) true)
        s

  unfoldable pub device_verify : IdpState → IdpState × DevicePage
  device_verify s = confirm r.is_post s

-- Where the logout goes: to a URI, or to its page.
pub data LogoutReply : Type 0 where
  redirect : String → LogoutReply
  logout_page : LogoutReply

module _ (decode : String → Option (Dict Json)) (r : AuthorizeRequest) where
  abbrev pub param : String → Option String
  param key = form_get key (if r.is_post then r.request.form else r.args)

  -- The revocation that an id_token_hint brings; its expiry is not trusted.
  abbrev pub revoke_hinted : Option String → IdpState → IdpState
  revoke_hinted none s = s
  revoke_hinted (some jti) s = if jti == "" then s else record s {
    revocations = Revocation.revoke r.request.transport.now jti unset s.revocations;
  }

  -- The claims of the hint, where it decodes.
  abbrev hinted : Option String → Option (Dict Json)
  hinted none = none
  hinted (some hint) = if hint == "" then none else decode hint

  abbrev logged_out : Option String → IdpState → IdpState
  logged_out who s =
      record_event r.request "logout_request" "success" "/logout" who (param "client_id")
        (("has_redirect", bool (is_given (param "post_logout_redirect_uri"))) ∷ []) s

  abbrev pub forget : Option (Dict Json) → IdpState → IdpState
  forget none s = logged_out none s
  forget (some claims) s =
      logged_out (text_claim (get "sub" claims)) (revoke_hinted (text_claim (get "jti" claims)) s)

  abbrev with_state : String → Option String → String
  with_state uri none = uri
  with_state uri (some state) =
      if state == ""
      then uri
      else String.◌++◌ uri
          (String.◌++◌ (if has_char 63 uri then "&" else "?") (String.◌++◌ "state=" state))

  abbrev logout_reply : Option String → LogoutReply
  logout_reply none = logout_page
  logout_reply (some uri) =
      if uri == "" then logout_page else redirect (with_state uri (param "state"))

  unfoldable pub end_session : WebState → WebState × LogoutReply
  end_session s = (
    record { idp = forget (hinted (param "id_token_hint")) s.idp; session = cleared },
    logout_reply (param "post_logout_redirect_uri"),
  )
