-- ===== src/Config/Tests.antt =====
-- Credentials of the concrete configuration.
use nanoidp.Prelude.{◌≡◌, ◌↔◌, refl, String, Bool, true, Option, none, some}
use nanoidp.Dict.{get}
use nanoidp.Models.{persona_mode_enabled}
use nanoidp.Samples.{alice, sample_config}
use nanoidp.Config.{get_user, check_client, authenticate, interactive_authenticate}
use nanoidp.Config.Laws.{Registered, Accepts, check_client_iff, authenticate_iff}

-- bcrypt that refuses every stored text as malformed.
abbrev malformed : String → String → Option Bool
malformed given stored = none

abbrev given : String
given = "secret"

check_client_iff_example :
    (check_client sample_config (some "web") (some "s3") ≡ true)
    ↔ Registered "web" "s3" sample_config.settings.clients
check_client_iff_example = check_client_iff sample_config "web" "s3"

authenticate_iff_example : (authenticate malformed sample_config "alice" given ≡ some alice) ↔ (
    (get_user sample_config "alice" ≡ some alice)
    × ((stored : String) × (alice.password ≡ some stored)
        × Accepts malformed sample_config.settings stored given))
authenticate_iff_example = authenticate_iff malformed sample_config "alice" given alice

alice_logs_in : interactive_authenticate malformed sample_config "alice" given ≡ some alice
unfolding interactive_authenticate authenticate get_user get persona_mode_enabled
alice_logs_in = refl
