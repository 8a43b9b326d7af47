-- ===== src/AuthCode.antt =====
-- src/nanoidp/services/auth_code.py: the store of OAuth2 authorization codes, with PKCE.
-- Every method runs under the store's lock, so a run of the program is a sequence of whole calls. A
-- call that reads the clock takes its reading as `now`, in microseconds; the random code that
-- `secrets.token_urlsafe` draws, and the SHA-256 digest, are parameters. The log lines are left out.
pub mod Laws
pub mod Pkce
pub mod Trace
mod Tests
use nanoidp.Prelude.{
  ℕ, ◌+◌, ◌*◌, String, ◌≡◌, Bool, true, false, Option, none, some, List, [], ◌∷◌, ◌==◌, ltb,
  if◌then◌else◌, is_given, is_text, is_ascii,
}
use nanoidp.Dict.{Dict, get, put, remove, keys_where, remove_all}

-- The `claims` request, normalized to the names asked for at the two places.
pub record ClaimsRequest : Type 0 where
  pub id_token : Option (List String)
  pub userinfo : Option (List String)

pub record AuthorizationCode : Type 0 where
  pub code : String
  pub client_id : String
  pub redirect_uri : String
  pub scope : String
  pub username : String
  pub code_challenge : Option String
  pub code_challenge_method : Option String
  pub nonce : Option String
  pub state : Option String
  pub resource : Option (List String)
  pub claims : Option ClaimsRequest
  pub created_at : ℕ
  pub expires_at : ℕ
  pub used : Bool

pub record AuthCodeStore : Type 0 where
  pub codes : Dict AuthorizationCode

abbrev pub empty : AuthCodeStore
empty = record { codes = [] }

-- The arguments of `create_code`.
pub record CodeRequest : Type 0 where
  pub client_id : String
  pub redirect_uri : String
  pub username : String
  pub scope : String
  pub code_challenge : Option String
  pub code_challenge_method : Option String
  pub nonce : Option String
  pub state : Option String
  pub claims : Option ClaimsRequest
  pub resource : Option (List String)

-- timedelta(minutes=10), in microseconds
abbrev pub code_lifetime : ℕ
code_lifetime = 600 * 1000000

-- `now > auth.expires_at`
abbrev pub is_expired : ℕ → AuthorizationCode → Bool
is_expired now c = ltb c.expires_at now

unfoldable pub cleanup_expired : ℕ → AuthCodeStore → AuthCodeStore
cleanup_expired now s = record { codes = remove_all (keys_where (is_expired now) s.codes) s.codes }

abbrev pub authorization_code : ℕ → String → CodeRequest → AuthorizationCode
authorization_code now code r = record {
  code = code;
  client_id = r.client_id;
  redirect_uri = r.redirect_uri;
  scope = r.scope;
  username = r.username;
  code_challenge = r.code_challenge;
  code_challenge_method = r.code_challenge_method;
  nonce = r.nonce;
  state = r.state;
  resource = r.resource;
  claims = r.claims;
  created_at = now;
  expires_at = now + code_lifetime;
  used = false;
}

-- `code` is the random text that the call drew, which it also returns.
unfoldable pub create_code : ℕ → String → CodeRequest → AuthCodeStore → AuthCodeStore
create_code now code r s =
    let cleaned = cleanup_expired now s in
    record { codes = put code (authorization_code now code r) cleaned.codes }

-- get_code_info
unfoldable pub get_code_info : String → AuthCodeStore → Option AuthorizationCode
get_code_info code s = get code s.codes

-- What `_verify_pkce` does: it returns, or `encode("ascii")` raises UnicodeEncodeError.
pub data PkceCheck : Type 0 where
  verified : Bool → PkceCheck
  not_ascii : PkceCheck

-- What `consume_code` does: it returns the code or None, or it raises.
pub data Consumed : Type 0 where
  granted : AuthorizationCode → Consumed
  refused : Consumed
  raised : Consumed

-- The value of a text that the caller has found to be given.
abbrev text_of : Option String → String
text_of none = ""
text_of (some s) = s

-- The method's record as it stands once it is marked.
abbrev pub mark_used : AuthorizationCode → AuthorizationCode
mark_used c = record c { used = true }

module _ (s256 : String → String) where
  unfoldable pub verify_pkce : String → String → Option String → PkceCheck
  verify_pkce verifier challenge none = verified (verifier == challenge)
  verify_pkce verifier challenge (some method) =
      if method == "plain"
      then verified (verifier == challenge)
      else if method == "S256"
      then (if is_ascii verifier then verified (s256 verifier == challenge) else not_ascii)
      else verified false

  -- The PKCE step of `consume_code`.
  unfoldable pub check_pkce : AuthorizationCode → Option String → PkceCheck
  check_pkce c verifier =
      if is_given c.code_challenge
      then (if is_given verifier
          then verify_pkce (text_of verifier) (text_of c.code_challenge) c.code_challenge_method
          else verified false)
      else verified true

  abbrev settle : String → AuthCodeStore → AuthorizationCode → PkceCheck → AuthCodeStore × Consumed
  settle code s c not_ascii = (s, raised)
  settle code s c (verified false) = (s, refused)
  settle code s c (verified true) =
      (record { codes = put code (mark_used c) s.codes }, granted (mark_used c))

  abbrev consume_found :
      ℕ
      → String
      → String
      → String
      → Option String
      → AuthCodeStore
      → Option AuthorizationCode
      → AuthCodeStore × Consumed
  consume_found now code client_id redirect_uri verifier s none = (s, refused)
  consume_found now code client_id redirect_uri verifier s (some c) =
      if is_expired now c
      then (record { codes = remove code s.codes }, refused)
      else if c.used
      then (record { codes = remove code s.codes }, refused)
      else if c.client_id == client_id
      then (if c.redirect_uri == redirect_uri
          then settle code s c (check_pkce c verifier)
          else (s, refused))
      else (s, refused)

  unfoldable pub consume_code :
      ℕ → String → String → String → Option String → AuthCodeStore → AuthCodeStore × Consumed
  consume_code now code client_id redirect_uri verifier s =
      consume_found now code client_id redirect_uri verifier s (get code s.codes)
