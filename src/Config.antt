-- ===== src/Config.antt =====
-- src/nanoidp/config.py: the look-ups and credential checks of `ConfigManager`, over a loaded
-- configuration. `bcrypt.checkpw` is a parameter, which raises ValueError or TypeError as `none`.
pub mod Laws
mod Tests
use nanoidp.Prelude.{
  String, Bool, true, false, ◌&&◌, ◌||◌, Option, none, some, List, [], ◌∷◌, ◌==◌, if◌then◌else◌,
  is_none, is_text,
}
use nanoidp.Dict.{Dict, get}
use nanoidp.Models.{User, OAuthClient, Settings, is_public, persona_mode_enabled}

pub record ConfigManager : Type 0 where
  pub settings : Settings
  pub users : Dict User
  pub default_user : String

unfoldable pub get_user : ConfigManager → String → Option User
get_user config username = get username config.users

find_client : String → List OAuthClient → Option OAuthClient
find_client client_id [] = none
find_client client_id (client ∷ clients) =
    if client.client_id == client_id then some client else find_client client_id clients

unfoldable pub get_client : ConfigManager → String → Option OAuthClient
unfolding find_client
get_client config client_id = find_client client_id config.settings.clients

-- `x == secret` where the secret may be None.
abbrev is_secret : Option String → String → Bool
is_secret none given = false
is_secret (some secret) given = secret == given

match_client : String → String → List OAuthClient → Bool
match_client client_id client_secret [] = false
match_client client_id client_secret (client ∷ clients) =
    let rest = match_client client_id client_secret clients in
    if is_public client || is_none client.client_secret
    then rest
    else if client.client_id == client_id && is_secret client.client_secret client_secret
    then true
    else rest

unfoldable pub check_client : ConfigManager → Option String → Option String → Bool
unfolding match_client
check_client config none client_secret = false
check_client config (some client_id) none = false
check_client config (some client_id) (some client_secret) =
    match_client client_id client_secret config.settings.clients

module _ (checkpw : String → String → Option Bool) where
  abbrev when : Bool → User → Option User
  when b user = if b then some user else none

  abbrev check_password : Settings → User → String → String → Option User
  check_password s user stored given =
      if s.password_hashing
      then elim (checkpw given stored) [
        | some ok ↦ when ok user
        | none ↦ if s.enforce_password_check then none else when (stored == given) user
      ]
      else when (stored == given) user

  abbrev authenticate_found : Settings → Option User → String → Option User
  authenticate_found s none given = none
  authenticate_found s (some user) given = elim user.password [
    | none ↦ none
    | some stored ↦ check_password s user stored given
  ]

  unfoldable pub authenticate : ConfigManager → String → String → Option User
  unfolding get_user
  authenticate config username password =
      authenticate_found config.settings (get_user config username) password

  unfoldable pub interactive_authenticate : ConfigManager → String → String → Option User
  interactive_authenticate config username password =
      if persona_mode_enabled config.settings
      then (if is_text username then get_user config username else none)
      else if is_text username && is_text password
      then authenticate config username password
      else none
