-- ===== src/AuditLog/Tests.antt =====
-- A small audit log.
use nanoidp.Prelude.{ℕ, ◌-◌, ◌≡◌, String, none, some, List, [], ◌∷◌, length, drop}
use nanoidp.AuditLog.{AuditEntry, AuditLog, new_log}
use nanoidp.AuditLog.Laws.{log_all, log-entries, Counts, log-Counts_all}

abbrev event : ℕ → String → AuditEntry
event now event_type = record {
  timestamp = now;
  event_type = event_type;
  username = none;
  client_id = some "web";
  ip_address = "unknown";
  user_agent = "unknown";
  endpoint = "/token";
  method = "POST";
  status = "success";
  details = [];
}

abbrev events : List AuditEntry
events = event 1 "login" ∷ event 2 "token_request" ∷ event 3 "token_request" ∷ []

-- The oldest of three events leaves a log of two.
log-entries_example : (log_all events (new_log 2)).entries ≡ drop (length events - 2) events
log-entries_example = log-entries 2 events

-- The same events, a failed login and a SAML request.
abbrev more : List AuditEntry
more = record (event 4 "login") { status = "failed" } ∷ event 5 "saml_request" ∷ events

log-Counts_all_example : Counts more (log_all more (new_log 2)).stats
log-Counts_all_example = log-Counts_all 2 more

abbrev full : AuditLog
full = record {
  max_entries = 2;
  entries = event 2 "token_request" ∷ event 3 "token_request" ∷ [];
  stats = (new_log 2).stats;
}
