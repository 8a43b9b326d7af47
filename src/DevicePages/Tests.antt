-- ===== src/DevicePages/Tests.antt =====
-- A device that asks for codes, and a logout.
use nanoidp.Prelude.{String, ◌≡◌, refl, Bool, true, Option, none, some, List, [], ◌∷◌}
use nanoidp.Dict.{Dict, get}
use nanoidp.Json.{Json, str}
use nanoidp.Samples.{sample_config}
use nanoidp.AuthCode
use nanoidp.DeviceCode
use nanoidp.Revocation
use nanoidp.Revocation.{is_revoked}
use nanoidp.AuditLog.{new_log}
use nanoidp.ClientAuth.{Request}
use nanoidp.Grants.Monad.{IdpState}
use nanoidp.Endpoints.{text_claim}
use nanoidp.Authorize.{AuthorizeRequest, WebState, cleared}
use nanoidp.DevicePages.{device_authorization}
use nanoidp.DevicePages.Confirm.{end_session}
use nanoidp.DevicePages.Laws.{Start, device_authorization-Start, end_session_revokes}

abbrev any_text : String → Bool
any_text value = true

abbrev quoted : String → String
quoted value = value

abbrev posting : List (String × String) → Request
posting form = record {
  transport = record { now = 10; method = "POST"; remote_addr = none; user_agent = none };
  form = form;
  authorization = none;
  authorization_header = "";
}

abbrev fresh : IdpState
fresh = record {
  codes = AuthCode.empty;
  devices = DeviceCode.empty;
  revocations = Revocation.empty;
  audit = new_log 10;
}

abbrev starting : Request
starting = posting (("client_id", "spa") ∷ ("scope", "openid") ∷ [])

device_authorization-Start_example :
    Start any_text quoted "device" "USER" sample_config starting "http://idp" fresh (
      device_authorization any_text quoted "device" "USER" sample_config starting "http://idp"
        fresh)
device_authorization-Start_example =
    device_authorization-Start any_text quoted "device" "USER" sample_config starting "http://idp"
      fresh

abbrev hinted : Dict Json
hinted = ("jti", str "t1") ∷ ("sub", str "alice") ∷ []

abbrev decodes : String → Option (Dict Json)
decodes token = some hinted

abbrev leaving : AuthorizeRequest
leaving = record {
  is_post = true;
  args = [];
  request = posting (("id_token_hint", "jwt") ∷ []);
  candidate = "http://idp";
}

abbrev browser : WebState
browser = record { idp = fresh; session = cleared }

hinted_id : text_claim (get "jti" hinted) ≡ some "t1"
unfolding get
hinted_id = refl

end_session_revokes_example :
    (is_revoked (some "t1") (end_session decodes leaving browser).0.idp.revocations ≡ true)
    × ((end_session decodes leaving browser).0.idp.codes ≡ browser.idp.codes)
    × ((end_session decodes leaving browser).0.idp.devices ≡ browser.idp.devices)
end_session_revokes_example =
    end_session_revokes decodes leaving browser "jwt" "t1" hinted refl (λ e. cc) refl hinted_id
      (λ e. cc)
