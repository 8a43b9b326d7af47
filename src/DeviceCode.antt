-- ===== src/DeviceCode.antt =====
-- src/nanoidp/services/device_code.py: the state of device authorizations (RFC 8628). Every method
-- runs under the store's lock, so a run is a sequence of whole calls. Times are microseconds, and a
-- call takes its reading of the clock as `now`; the two random codes that `create` draws are
-- arguments, and so are the callbacks `get_user` and `authenticate`.
pub mod Laws
pub mod Poll
pub mod Verify
pub mod Trace
mod Tests
use nanoidp.Prelude.{
  ℕ, ◌+◌, ◌*◌, ◌/◌, String, Bool, true, false, Option, none, some, List, [], ◌∷◌, ◌==◌, ltb, leb,
  if◌then◌else◌, length, is_given, is_text, same,
}
use nanoidp.Dict.{Dict, get, put, remove, keys_where}
use nanoidp.Models.{User}

abbrev pub max_pending : ℕ
max_pending = 10000

abbrev pub second : ℕ
second = 1000000

-- `status` is one of the texts "pending", "authorized", "denied" and "expired".
pub record DeviceCodeGrant : Type 0 where
  pub user_code : String
  pub client_id : String
  pub scope : String
  pub expires_at : ℕ
  pub interval : ℕ
  pub status : String
  pub username : Option String
  pub auth_time : Option ℕ
  pub resource : Option (List String)

pub record DeviceCodeStore : Type 0 where
  pub codes : Dict DeviceCodeGrant
  pub by_user_code : Dict String

abbrev pub empty : DeviceCodeStore
empty = record { codes = []; by_user_code = [] }

pub data PollOutcome : Type 0 where
  not_found wrong_client expired pending denied user_not_found unknown_status : PollOutcome
  authorized : User → DeviceCodeGrant → PollOutcome

pub data VerifyOutcome : Type 0 where
  invalid_code already_used expired denied missing_credentials invalid_credentials : VerifyOutcome
  authorized : User → VerifyOutcome

-- `time.time() > grant.expires_at`
abbrev pub is_expired : ℕ → DeviceCodeGrant → Bool
is_expired now g = ltb g.expires_at now

-- The user code of the grant of that code, which the index is cleared of.
abbrev pub unindex : Option DeviceCodeGrant → Dict String → Dict String
unindex none index = index
unindex (some g) index = remove g.user_code index

-- The body of the loop of `prune_expired`.
abbrev pub drop_code : String → DeviceCodeStore → DeviceCodeStore
drop_code code s = record {
  codes = remove code s.codes;
  by_user_code = unindex (get code s.codes) s.by_user_code;
}

unfoldable pub drop_codes : List String → DeviceCodeStore → DeviceCodeStore
drop_codes [] s = s
drop_codes (code ∷ codes) s = drop_codes codes (drop_code code s)

-- With the number of entries dropped.
unfoldable pub prune_expired : ℕ → DeviceCodeStore → DeviceCodeStore × ℕ
prune_expired now s =
    let stale = keys_where (is_expired now) s.codes in (drop_codes stale s, length stale)

-- The arguments of `create`.
pub record DeviceRequest : Type 0 where
  pub client_id : String
  pub scope : String
  pub expires_in : ℕ
  pub interval : ℕ
  pub resource : Option (List String)

abbrev pub new_grant : ℕ → String → DeviceRequest → DeviceCodeGrant
new_grant now user_code r = record {
  user_code = user_code;
  client_id = r.client_id;
  scope = r.scope;
  expires_at = now + r.expires_in * second;
  interval = r.interval;
  status = "pending";
  username = none;
  auth_time = none;
  resource = r.resource;
}

abbrev pub insert : String → DeviceCodeGrant → DeviceCodeStore → DeviceCodeStore
insert device_code g s = record {
  codes = put device_code g s.codes;
  by_user_code = put g.user_code device_code s.by_user_code;
}

-- The answer is false where `DeviceCodeStoreFull` is raised; what was pruned stays pruned.
unfoldable pub create :
    ℕ → String → String → DeviceRequest → DeviceCodeStore → DeviceCodeStore × Bool
create now device_code user_code r s =
    let pruned = (prune_expired now s).0 in
    if leb max_pending (length pruned.codes)
    then (pruned, false)
    else (insert device_code (new_grant now user_code r) pruned, true)

abbrev pub set_grant : String → DeviceCodeGrant → DeviceCodeStore → DeviceCodeStore
set_grant device_code g s = record s { codes = put device_code g s.codes }

module _ (get_user : String → Option User) where
  -- get_user(grant.username) if grant.username else None
  abbrev pub user_of : Option String → Option User
  user_of none = none
  user_of (some name) = if is_text name then get_user name else none

  abbrev claim :
      String → DeviceCodeGrant → DeviceCodeStore → Option User → DeviceCodeStore × PollOutcome
  claim device_code g s none = (s, user_not_found)
  claim device_code g s (some user) = (
    record { codes = remove device_code s.codes; by_user_code = remove g.user_code s.by_user_code },
    PollOutcome.authorized user g,
  )

  abbrev poll_status : String → DeviceCodeGrant → DeviceCodeStore → DeviceCodeStore × PollOutcome
  poll_status device_code g s =
      if g.status == "pending"
      then (s, pending)
      else if g.status == "denied"
      then (s, PollOutcome.denied)
      else if g.status == "expired"
      then (s, PollOutcome.expired)
      else if g.status == "authorized"
      then claim device_code g s (user_of g.username)
      else (s, unknown_status)

  abbrev poll_found :
      ℕ
      → String
      → Option String
      → DeviceCodeStore
      → Option DeviceCodeGrant
      → DeviceCodeStore × PollOutcome
  poll_found now device_code client_id s none = (s, not_found)
  poll_found now device_code client_id s (some g) =
      if same (some g.client_id) client_id
      then (if is_expired now g
          then (set_grant device_code (record g { status = "expired" }) s, PollOutcome.expired)
          else poll_status device_code g s)
      else (s, wrong_client)

  unfoldable pub poll : ℕ → String → Option String → DeviceCodeStore → DeviceCodeStore × PollOutcome
  poll now device_code client_id s =
      poll_found now device_code client_id s (get device_code s.codes)

module _ (authenticate : String → String → Option User) where
  abbrev approve :
      ℕ → String → DeviceCodeGrant → DeviceCodeStore → Option User → DeviceCodeStore × VerifyOutcome
  approve now device_code g s none = (s, invalid_credentials)
  approve now device_code g s (some user) = (
    set_grant device_code
        (record g {
          status = "authorized";
          username = some user.username;
          auth_time = some (now / second);
        })
        s,
    VerifyOutcome.authorized user,
  )

  abbrev verify_found :
      ℕ
      → String
      → String
      → String
      → DeviceCodeStore
      → String
      → Option DeviceCodeGrant
      → DeviceCodeStore × VerifyOutcome
  verify_found now action username password s device_code none = (s, invalid_code)
  verify_found now action username password s device_code (some g) =
      if g.status == "pending"
      then (if is_expired now g
          then (set_grant device_code (record g { status = "expired" }) s, VerifyOutcome.expired)
          else if action == "deny"
          then (set_grant device_code (record g { status = "denied" }) s, VerifyOutcome.denied)
          else if is_text username
          then approve now device_code g s (authenticate username password)
          else (s, missing_credentials))
      else (s, already_used)

  -- The device code that the index has for a user code, and its grant.
  abbrev verify_indexed :
      ℕ
      → String
      → String
      → String
      → DeviceCodeStore
      → Option String
      → DeviceCodeStore × VerifyOutcome
  verify_indexed now action username password s none = (s, invalid_code)
  verify_indexed now action username password s (some device_code) =
      if is_text device_code
      then verify_found now action username password s device_code (get device_code s.codes)
      else (s, invalid_code)

  unfoldable pub verify :
      ℕ → String → String → String → String → DeviceCodeStore → DeviceCodeStore × VerifyOutcome
  verify now user_code action username password s =
      verify_indexed now action username password s (get user_code s.by_user_code)

unfoldable pub clear : DeviceCodeStore → DeviceCodeStore
clear s = empty
