-- ===== src/RedirectUri/Tests.antt =====
-- Redirect URIs of concrete clients.
use nanoidp.Prelude.{String, ◌≡◌, refl, Option, none, some, [], ◌∷◌, elem}
use nanoidp.RedirectUri.{
  ParsedUrl, port, split_authority, before_last_colon, is_loopback_redirect_uri,
  strip_loopback_port, redirect_uri_is_registered,
}
use nanoidp.RedirectUri.Laws.{registered_exactly}

-- Every URI parses as one on the loopback interface, at a port.
abbrev local : String → Option ParsedUrl
local uri = some (record {
  scheme = "http";
  netloc = "127.0.0.1:8080";
  path = "/cb";
  fragment = "";
  hostname = some "127.0.0.1";
  port = port 8080;
})

abbrev unparsed : String → Option ParsedUrl
unparsed uri = none

stripped : strip_loopback_port local "http://127.0.0.1:8080/cb" ≡ some "http://127.0.0.1/cb"
unfolding strip_loopback_port split_authority before_last_colon
stripped = refl

registered_exactly_example :
    redirect_uri_is_registered unparsed "https://app/cb" ("https://app/cb" ∷ [])
    ≡ elem "https://app/cb" ("https://app/cb" ∷ [])
registered_exactly_example =
    registered_exactly unparsed "https://app/cb" ("https://app/cb" ∷ [])
      (unfold is_loopback_redirect_uri in refl)
