-- ===== src/ClientAuth/Tests.antt =====
-- Client authentication of a concrete request.
use nanoidp.Prelude.{◌≡◌, refl, false, none, some, [], ◌∷◌}
use nanoidp.Samples.{sample_config}
use nanoidp.Config.{get_client, check_client}
use nanoidp.ClientAuth.{Request, request_client_identity, enforce_token_endpoint_auth, proceed}

abbrev posted : Request
posted = record {
  transport = record { now = 0; method = "POST"; remote_addr = none; user_agent = none };
  form = ("client_id", "web") ∷ ("client_secret", "s3") ∷ [];
  authorization = none;
  authorization_header = "";
}

no_mismatch : (request_client_identity posted).mismatch ≡ false
unfolding request_client_identity
no_mismatch = refl

names_web : (request_client_identity posted).client_id ≡ some "web"
unfolding request_client_identity
names_web = refl

web_proceeds :
    enforce_token_endpoint_auth sample_config "authorization_code" none "web"
      (request_client_identity posted).body_client_secret
    ≡ proceed
unfolding request_client_identity enforce_token_endpoint_auth get_client check_client
web_proceeds = refl
