-- ===== src/Revocation.antt =====
-- src/nanoidp/services/revocation.py: revoked token ids and rotation families, each remembered until
-- its expiry. The methods that write run under the store's lock, so a run is a sequence of whole
-- calls. Times are microseconds, and a call takes its reading of the clock as `now`.
pub mod Laws
pub mod Claim
pub mod Trace
mod Tests
use nanoidp.Prelude.{
  ℕ, ◌+◌, ◌*◌, String, Bool, true, false, not, ◌&&◌, ◌||◌, Option, none, some, List, [], ◌∷◌, leb,
  max, if◌then◌else◌, is_none, is_given,
}
use nanoidp.Dict.{Dict, get, put, keys_where, remove_all}

abbrev pub second : ℕ
second = 1000000

-- _DEFAULT_RETENTION_SECONDS, in microseconds: eight days
abbrev pub default_retention : ℕ
default_retention = 8 * 24 * 3600 * second

-- The moment up to which an entry is remembered; `never` is `float("inf")`.
pub data Expiry : Type 0 where
  until : ℕ → Expiry
  never : Expiry

-- The argument `expires_at`: omitted, None, a number, or a value that `float` refuses.
pub data ExpiresAt : Type 0 where
  unset absent malformed : ExpiresAt
  numeric : ℕ → ExpiresAt

pub record RevocationStore : Type 0 where
  pub tokens : Dict Expiry
  pub families : Dict Expiry

abbrev pub empty : RevocationStore
empty = record { tokens = []; families = [] }

unfoldable pub effective_expiry : ℕ → ExpiresAt → Expiry
effective_expiry now unset = until (now + default_retention)
effective_expiry now absent = never
effective_expiry now malformed = never
effective_expiry now (numeric e) = until (max e (now + 60 * second))

-- `exp <= now`
abbrev pub is_past : ℕ → Expiry → Bool
is_past now (until e) = leb e now
is_past now never = false

abbrev sweep_entries : ℕ → Dict Expiry → Dict Expiry
sweep_entries now d = remove_all (keys_where (is_past now) d) d

unfoldable pub sweep : ℕ → RevocationStore → RevocationStore
sweep now s = record {
  tokens = sweep_entries now s.tokens;
  families = sweep_entries now s.families;
}

abbrev pub later_of : Expiry → Expiry → Expiry
later_of never b = never
later_of (until a) never = never
later_of (until a) (until b) = until (max a b)

-- `d.get(k, 0.0)`
abbrev pub or_zero : Option Expiry → Expiry
or_zero none = until 0
or_zero (some e) = e

unfoldable pub revoke : ℕ → String → ExpiresAt → RevocationStore → RevocationStore
revoke now token_id expires_at s =
    let swept = sweep now s in
    record swept {
      tokens =
          put token_id
            (later_of (or_zero (get token_id swept.tokens)) (effective_expiry now expires_at))
            swept.tokens;
    }

-- `token_id is not None and token_id in d`
abbrev pub is_in : Option String → Dict Expiry → Bool
is_in none d = false
is_in (some k) d = not (is_none (get k d))

unfoldable pub is_revoked : Option String → RevocationStore → Bool
is_revoked token_id s = is_in token_id s.tokens

-- `d[k] = e` where the caller has tested that `k` is given.
abbrev pub put_given : Option String → Expiry → Dict Expiry → Dict Expiry
put_given none e d = d
put_given (some k) e d = put k e d

-- How long a family is remembered whose reuse was seen.
abbrev pub family_retention : ExpiresAt → ExpiresAt
family_retention absent = absent
family_retention unset = unset
family_retention malformed = unset
family_retention (numeric e) = unset

-- The answer is true where reuse was detected.
unfoldable pub check_and_claim_refresh :
    ℕ → Option String → Option String → Bool → ExpiresAt → RevocationStore → RevocationStore × Bool
check_and_claim_refresh now jti family rotate expires_at s =
    let swept = sweep now s in
    let family_revoked = is_given family && is_in family swept.families in
    let token_revoked = is_in jti swept.tokens in
    if token_revoked || family_revoked
    then (
      if rotate && is_given family && not family_revoked
          then record swept {
            families =
                put_given family (effective_expiry now (family_retention expires_at))
                  swept.families;
          }
          else swept,
      true,
    )
    else (
      if rotate && is_given jti
          then record swept {
            tokens = put_given jti (effective_expiry now expires_at) swept.tokens;
          }
          else swept,
      false,
    )

unfoldable pub clear : RevocationStore → RevocationStore
clear s = empty
