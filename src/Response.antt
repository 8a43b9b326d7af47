-- ===== src/Response.antt =====
-- src/nanoidp/routes/_oauth_error.py: the error responses of RFC 6749, as values.
use nanoidp.Prelude.{ℕ, String, Bool, Option, none, some, if◌then◌else◌}

pub record OAuthError : Type 0 where
  pub error : String
  pub description : String
  pub status : ℕ
  pub www_authenticate : Option String

abbrev pub oauth_error : String → String → ℕ → OAuthError
oauth_error error description status = record {
  error = error;
  description = description;
  status = status;
  www_authenticate = none;
}

unfoldable pub invalid_client_error : String → Bool → OAuthError
invalid_client_error description basic_attempted =
    if basic_attempted
    then record {
      error = "invalid_client";
      description = description;
      status = 401;
      www_authenticate = some "Basic realm=\"nanoidp\"";
    }
    else oauth_error "invalid_client" description 400
