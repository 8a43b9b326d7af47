-- ===== src/DeviceCode/Tests.antt =====
-- Runs of the device authorization store on concrete grants.
use nanoidp.Prelude.{
  ◌≤◌, ◌≡◌, ◌↔◌, ◌&&◌, ◌==◌, refl, String, false, Option, none, some, List, [], ◌∷◌, length,
  if◌then◌else◌,
}
use nanoidp.Dict.{get, put, remove, keys_where, HasUniqueKeys}
use nanoidp.Models.{User}
use nanoidp.Samples.{alice}
use nanoidp.DeviceCode
use nanoidp.DeviceCode.{
  DeviceCodeGrant, DeviceCodeStore, DeviceRequest, PollOutcome, VerifyOutcome, empty, create, poll,
  verify, prune_expired, drop_codes, new_grant, max_pending, is_expired,
}
use nanoidp.DeviceCode.Laws.{create-cap, create_unique}
use nanoidp.DeviceCode.Verify.{approval}
use nanoidp.DeviceCode.Trace
use nanoidp.DeviceCode.Trace.{Call, Approval, claimed, run, claimed-le-one, poll_needs-Approval}

abbrev known : String → Option User
known name = if name == "alice" then some alice else none

abbrev login : String → String → Option User
login name password = if name == "alice" && password == "secret" then some alice else none

abbrev tv : DeviceRequest
tv = record { client_id = "tv"; scope = "openid"; expires_in = 600; interval = 5; resource = none }

abbrev started : DeviceCodeStore
started = (create 0 "d1" "ABCD-EFGH" tv empty).0

abbrev approved : DeviceCodeStore
approved = (verify login 1000000 "ABCD-EFGH" "authorize" "alice" "secret" started).0

-- Approval, the claim, and the second poll.
approve_once :
    (verify login 1000000 "ABCD-EFGH" "authorize" "alice" "secret" started).1
    ≡ VerifyOutcome.authorized alice
unfolding verify create prune_expired drop_codes get put remove keys_where
approve_once = refl

abbrev approved_grant : DeviceCodeGrant
approved_grant =
    approval login 1000000 "ABCD-EFGH" "authorize" "alice" "secret" (new_grant 0 "ABCD-EFGH" tv)
      alice

poll_once :
    (poll known 2000000 "d1" (some "tv") approved).1 ≡ PollOutcome.authorized alice approved_grant
unfolding verify poll create prune_expired drop_codes get put remove keys_where
poll_once = refl

poll_again :
    (poll known 3000000 "d1" (some "tv") (poll known 2000000 "d1" (some "tv") approved).0).1
    ≡ DeviceCode.not_found
unfolding verify poll create prune_expired drop_codes get put remove keys_where
poll_again = refl

started_unique : HasUniqueKeys started.codes
started_unique = create_unique 0 "d1" "ABCD-EFGH" tv empty tt

abbrev calls : List Call
calls =
    Trace.verify 1000000 "ABCD-EFGH" "authorize" "alice" "secret"
    ∷ Trace.poll 2000000 "d1" (some "tv")
    ∷ Trace.poll 3000000 "d1" (some "tv")
    ∷ []

claimed-le-one_example : claimed known login "d1" calls started ≤ 1
claimed-le-one_example = claimed-le-one known login "d1" calls started started_unique refl

abbrev from_start : List Call
from_start =
    Trace.create 0 "d1" "ABCD-EFGH" tv
    ∷ Trace.verify 1000000 "ABCD-EFGH" "authorize" "alice" "secret"
    ∷ []

from_start-poll :
    (poll known 2000000 "d1" (some "tv") (run known login from_start empty)).1
    ≡ PollOutcome.authorized alice approved_grant
unfolding run Trace.after verify poll create prune_expired drop_codes get put remove keys_where
from_start-poll = refl

nothing_stored : get "d1" empty.codes ≡ none
unfolding get
nothing_stored = refl

poll_needs-Approval_example : Approval known login "d1" (some "alice") from_start empty
poll_needs-Approval_example =
    poll_needs-Approval known login from_start empty "d1" 2000000 (some "tv") alice approved_grant
      tt nothing_stored from_start-poll

approved_entry : get "d1" approved.codes ≡ some approved_grant
unfolding verify create prune_expired drop_codes get put remove keys_where
approved_entry = refl

create-cap_example :
    (length started.codes ≤ max_pending
      → length (create 5 "d2" "JKLM-NPQR" tv started).0.codes ≤ max_pending)
    × (((create 5 "d2" "JKLM-NPQR" tv started).1 ≡ false)
        ↔ (max_pending ≤ length (prune_expired 5 started).0.codes))
create-cap_example = create-cap 5 "d2" "JKLM-NPQR" tv started
