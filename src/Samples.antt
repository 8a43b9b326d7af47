-- ===== src/Samples.antt =====
-- Concrete users, clients and settings, which the tests of the parts use.
use nanoidp.Prelude.{true, false, none, some, [], ◌∷◌}
use nanoidp.Models.{User, OAuthClient, Settings, client_secret_post, public_client}
use nanoidp.Config.{ConfigManager}

abbrev pub alice : User
alice = record {
  username = "alice";
  password = some "secret";
  email = "alice@example.org";
  identity_class = none;
  entitlements = [];
  roles = "ADMIN" ∷ [];
  groups = [];
  tenant = "default";
  source_acl = [];
  attributes = [];
}

abbrev pub web : OAuthClient
web = record {
  client_id = "web";
  client_secret = some "s3";
  token_endpoint_auth_method = client_secret_post;
  additional_audiences = [];
  redirect_uris = "https://app/cb" ∷ [];
  allowed_scopes = "openid" ∷ "email" ∷ [];
  allowed_resources = "https://api" ∷ [];
}

abbrev pub spa : OAuthClient
spa = record {
  client_id = "spa";
  client_secret = none;
  token_endpoint_auth_method = public_client;
  additional_audiences = [];
  redirect_uris = [];
  allowed_scopes = [];
  allowed_resources = [];
}

abbrev pub sample_settings : Settings
sample_settings = record {
  issuer = "http://idp";
  issuer_from_request = false;
  issuer_allowlist = [];
  device_verification_base_url = none;
  audience = "idp";
  token_expiry_minutes = 60;
  refresh_token_rotation = true;
  clients = spa ∷ web ∷ [];
  scopes_supported = "openid" ∷ "email" ∷ "profile" ∷ [];
  scope_enforcement = true;
  security_profile = "oauth21";
  require_pkce = false;
  login_mode = "password";
  auto_login = false;
  two_step = false;
  password_hashing = false;
  enforce_password_check = true;
  authority_prefixes = [];
}

abbrev pub sample_config : ConfigManager
sample_config = record {
  settings = sample_settings;
  users = ("alice", alice) ∷ [];
  default_user = "alice";
}
