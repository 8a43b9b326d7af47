-- ===== src/AuditLog.antt =====
-- src/nanoidp/services/audit.py and src/nanoidp/routes/_audit.py: the bounded audit log with its
-- counters. The console line and the audit hooks are left out; `timestamp` is a reading of the clock.
pub mod Laws
pub mod Query
mod Tests
use nanoidp.Prelude.{
  ℕ, ◌+◌, String, Bool, true, false, not, ◌&&◌, ◌||◌, Option, none, some, List, [], ◌∷◌, ◌++◌, ◌==◌,
  leb, ltb, if◌then◌else◌, is_given, same, length, keep, take, sorted_set,
}
use nanoidp.Dict.{Dict}
use nanoidp.Json.{Json}

pub record AuditEntry : Type 0 where
  pub timestamp : ℕ
  pub event_type : String
  pub username : Option String
  pub client_id : Option String
  pub ip_address : String
  pub user_agent : String
  pub endpoint : String
  pub method : String
  pub status : String
  pub details : Dict Json

pub record Stats : Type 0 where
  pub total_requests : ℕ
  pub token_requests : ℕ
  pub saml_sso_requests : ℕ
  pub saml_attribute_queries : ℕ
  pub login_attempts : ℕ
  pub successful_logins : ℕ
  pub failed_logins : ℕ

abbrev pub no_stats : Stats
no_stats = record {
  total_requests = 0;
  token_requests = 0;
  saml_sso_requests = 0;
  saml_attribute_queries = 0;
  login_attempts = 0;
  successful_logins = 0;
  failed_logins = 0;
}

-- `entries` is the deque, its oldest entry first.
pub record AuditLog : Type 0 where
  pub max_entries : ℕ
  pub entries : List AuditEntry
  pub stats : Stats

abbrev pub new_log : ℕ → AuditLog
new_log max_entries = record { max_entries = max_entries; entries = []; stats = no_stats }

abbrev drop_first : List AuditEntry → List AuditEntry
drop_first [] = []
drop_first (e ∷ es) = es

-- `append` on a deque with `maxlen`
abbrev pub append_bounded : ℕ → List AuditEntry → AuditEntry → List AuditEntry
append_bounded max_entries es e =
    if ltb (length es) max_entries then es ++ e ∷ [] else drop_first (es ++ e ∷ [])

abbrev count_login : String → Stats → Stats
count_login status s =
    if status == "success"
    then record s {
      login_attempts = s.login_attempts + 1;
      successful_logins = s.successful_logins + 1;
    }
    else record s { login_attempts = s.login_attempts + 1; failed_logins = s.failed_logins + 1 }

abbrev count_type : String → String → Stats → Stats
count_type event_type status s =
    if event_type == "token_request"
    then record s { token_requests = s.token_requests + 1 }
    else if event_type == "saml_request"
    then record s { saml_sso_requests = s.saml_sso_requests + 1 }
    else if event_type == "saml_attribute_query"
    then record s { saml_attribute_queries = s.saml_attribute_queries + 1 }
    else if event_type == "login"
    then count_login status s
    else s

unfoldable pub update_stats : String → String → Stats → Stats
update_stats event_type status s =
    count_type event_type status (record s { total_requests = s.total_requests + 1 })

unfoldable pub log : AuditEntry → AuditLog → AuditLog
unfolding update_stats
log e a = record a {
  entries = append_bounded a.max_entries a.entries e;
  stats = update_stats e.event_type e.status a.stats;
}

-- The filter of `get_entries` on one field, which a blank or absent argument leaves out.
abbrev pub wanted : Option String → Option String → Bool
wanted filter field = if is_given filter then same filter field else true

abbrev pub matches : Option String → Option String → Option String → AuditEntry → Bool
matches event_type username client_id e =
    wanted event_type (some e.event_type)
    && (wanted username e.username && wanted client_id e.client_id)

-- A stable sort, the latest timestamp first.
insert_latest : AuditEntry → List AuditEntry → List AuditEntry
insert_latest e [] = e ∷ []
insert_latest e (f ∷ es) =
    if leb f.timestamp e.timestamp then e ∷ f ∷ es else f ∷ insert_latest e es

latest_first : List AuditEntry → List AuditEntry
unfolding insert_latest
latest_first [] = []
latest_first (e ∷ es) = insert_latest e (latest_first es)

-- The entries that `get_entries` returns, before `to_dict`.
unfoldable pub get_entries :
    ℕ → Option String → Option String → Option String → AuditLog → List AuditEntry
unfolding latest_first
get_entries limit event_type username client_id a =
    take limit (latest_first (keep (matches event_type username client_id) a.entries))

client_ids : List AuditEntry → List String
client_ids [] = []
client_ids (e ∷ es) = elim e.client_id [
  | none ↦ client_ids es
  | some c ↦ if c == "" then client_ids es else c ∷ client_ids es
]

unfoldable pub get_unique_client_ids : AuditLog → List String
unfolding client_ids
get_unique_client_ids a = sorted_set (client_ids a.entries)

unfoldable pub clear : AuditLog → AuditLog
clear a = record a { entries = []; stats = no_stats }

-- The transport fields that `audit_event` reads from the active request.
pub record Transport : Type 0 where
  pub now : ℕ
  pub method : String
  pub remote_addr : Option String
  pub user_agent : Option String

abbrev or_unknown : Option String → String
or_unknown none = "unknown"
or_unknown (some s) = s

-- `request.remote_addr or "unknown"`
abbrev or_unknown_text : Option String → String
or_unknown_text none = "unknown"
or_unknown_text (some s) = if s == "" then "unknown" else s

-- routes/_audit.py
unfoldable pub audit_event :
    Transport
    → String
    → String
    → String
    → Option String
    → Option String
    → Dict Json
    → AuditLog
    → AuditLog
audit_event t event_type status endpoint username client_id details a =
    log
      (record {
        timestamp = t.now;
        event_type = event_type;
        username = username;
        client_id = client_id;
        ip_address = or_unknown_text t.remote_addr;
        user_agent = or_unknown t.user_agent;
        endpoint = endpoint;
        method = t.method;
        status = status;
        details = details;
      })
      a
