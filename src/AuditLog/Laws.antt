-- ===== src/AuditLog/Laws.antt =====
-- The audit log keeps its latest entries and counts every event (src/nanoidp/services/audit.py).
use nanoidp.Prelude.{
  ℕ, zero, suc, ◌+◌, ◌-◌, ◌≤◌, String, ◌≡◌, refl, sym, subst, ap, ◌∙◌, inl, inr, Bool, true, false,
  List, [], ◌∷◌, ◌++◌, arith, ◌==◌, eq_iff, if◌then◌else◌, ltb, length, length-append, keep, drop,
  not, ◌&&◌, Bool-cases, ltb→lt, le→ltb,
}
use mathlib.Core.List.{append_assoc, append-nil}
use nanoidp.AuditLog.{
  AuditEntry, AuditLog, Stats, new_log, count_type, drop_first, append_bounded, update_stats, log,
}

unfoldable pub log_all : List AuditEntry → AuditLog → AuditLog
log_all [] a = a
log_all (e ∷ es) a = log_all es (log e a)

drop-push :
    (n : ℕ) (es : List AuditEntry) (e : AuditEntry)
    → n ≤ length es
    → drop n (es ++ e ∷ []) ≡ drop n es ++ e ∷ []
drop-push zero es e h = refl
drop-push (suc n) [] e h = absurd (omega arith)
drop-push (suc n) (x ∷ es) e h = drop-push n es e (omega arith)

drop_first-drop : (n : ℕ) (es : List AuditEntry) → drop_first (drop n es) ≡ drop (suc n) es
drop_first-drop zero [] = refl
drop_first-drop zero (x ∷ es) = refl
drop_first-drop (suc n) [] = refl
drop_first-drop (suc n) (x ∷ es) = drop_first-drop n es

length-drop : (n : ℕ) (es : List AuditEntry) → length (drop n es) ≡ length es - n
length-drop zero es = omega arith
length-drop (suc n) [] = omega arith
length-drop (suc n) (x ∷ es) = omega (arith, length-drop n es)

-- The deque holds the last `max_entries` of what was logged.
abbrev latest : ℕ → List AuditEntry → List AuditEntry
latest n history = drop (length history - n) history

append-latest :
    (n : ℕ) (history : List AuditEntry) (e : AuditEntry)
    → append_bounded n (latest n history) e ≡ latest n (history ++ e ∷ [])
append-latest n history e = elim (Bool-cases (ltb (length history) n)) [
  | inl room ↦
      let a : length history - n ≡ 0 = omega (arith, ltb→lt (length history) n room) in
      let b : length (history ++ e ∷ []) - n ≡ 0 =
        omega (arith, ltb→lt (length history) n room, length-append history (e ∷ [])) in
      rw (a, b) (rw room)
  | inr full ↦
      let fits : n ≤ length history = ground (arith, full) in
      let short : length (drop (length history - n) history) ≡ n =
        omega (arith, length-drop (length history - n) history, fits) in
      let more : length (history ++ e ∷ []) - n ≡ suc (length history - n) =
        omega (arith, length-append history (e ∷ []), fits) in
      rw (short, more)
        (rw (le→ltb n n (omega arith)) (
          rw (← drop-push (length history - n) history e (omega arith))
            (drop_first-drop (length history - n) (history ++ e ∷ []))))
]

log_all-latest :
    (history es : List AuditEntry) (a : AuditLog)
    → a.entries ≡ latest a.max_entries history
    → (log_all es a).entries ≡ latest a.max_entries (history ++ es)
unfolding log_all log
log_all-latest history [] a h = h ∙ ap (latest a.max_entries) (sym (append-nil history))
log_all-latest history (e ∷ es) a h =
    log_all-latest (history ++ e ∷ []) es (log e a) (
      ap (λ (l : List AuditEntry). append_bounded a.max_entries l e) h
      ∙ append-latest a.max_entries history e)
    ∙ ap (latest a.max_entries) (append_assoc history (e ∷ []) es)

abbrev pub count : (AuditEntry → Bool) → List AuditEntry → ℕ
count p es = length (keep p es)

abbrev pub of_type : String → AuditEntry → Bool
of_type t e = e.event_type == t

-- A fresh log of any size, after any events, holds exactly the latest of them in order, as many as
-- fit.
pub log-entries :
    (max_entries : ℕ) (es : List AuditEntry)
    → (log_all es (new_log max_entries)).entries ≡ drop (length es - max_entries) es
log-entries n es = log_all-latest [] es (new_log n) (ground arith)

-- A login with this outcome.
abbrev pub succeeds : AuditEntry → Bool
succeeds e = e.event_type == "login" && e.status == "success"

abbrev pub fails : AuditEntry → Bool
fails e = e.event_type == "login" && not (e.status == "success")

-- The counters that a log shows for a history of events: all of them, those of each kind, and the
-- logins by their status.
pub record Counts (es : List AuditEntry) (s : Stats) : Type 0 where
  pub total : s.total_requests ≡ length es
  pub token : s.token_requests ≡ count (of_type "token_request") es
  pub sso : s.saml_sso_requests ≡ count (of_type "saml_request") es
  pub query : s.saml_attribute_queries ≡ count (of_type "saml_attribute_query") es
  pub login : s.login_attempts ≡ count (of_type "login") es
  pub successful : s.successful_logins ≡ count succeeds es
  pub failed : s.failed_logins ≡ count fails es

count_of-push :
    (p : AuditEntry → Bool) (es : List AuditEntry) (e : AuditEntry)
    → count p (es ++ e ∷ []) ≡ count p es + (if p e then 1 else 0)
count_of-push p [] e = ground arith
count_of-push p (x ∷ es) e = ground (arith, count_of-push p es e)

-- What one event adds to each counter.
pub record Adds (e : AuditEntry) (s t : Stats) : Type 0 where
  pub total : t.total_requests ≡ s.total_requests
  pub token : t.token_requests ≡ s.token_requests + (if of_type "token_request" e then 1 else 0)
  pub sso : t.saml_sso_requests ≡ s.saml_sso_requests + (if of_type "saml_request" e then 1 else 0)
  pub query :
      t.saml_attribute_queries
      ≡ s.saml_attribute_queries + (if of_type "saml_attribute_query" e then 1 else 0)
  pub login : t.login_attempts ≡ s.login_attempts + (if of_type "login" e then 1 else 0)
  pub successful : t.successful_logins ≡ s.successful_logins + (if succeeds e then 1 else 0)
  pub failed : t.failed_logins ≡ s.failed_logins + (if fails e then 1 else 0)

-- An event is of one kind at most.
one_kind : (t a b : String) → (a == b) ≡ false → (t == a) ≡ true → (t == b) ≡ false
one_kind t a b apart h = rw ((eq_iff t a).0 h) apart

count_type-Adds : (e : AuditEntry) (s : Stats) → Adds e s (count_type e.event_type e.status s)
count_type-Adds e s =
    let t = e.event_type in
    let a = one_kind t "token_request" "saml_request" refl in
    let b = one_kind t "token_request" "saml_attribute_query" refl in
    let c = one_kind t "token_request" "login" refl in
    let d = one_kind t "saml_request" "saml_attribute_query" refl in
    let f = one_kind t "saml_request" "login" refl in
    let g = one_kind t "saml_attribute_query" "login" refl in
    record {
      total = ground arith;
      token = ground arith;
      sso = ground (arith, a);
      query = ground (arith, b, d);
      login = ground (arith, c, f, g);
      successful = ground (arith, c, f, g);
      failed = ground (arith, c, f, g);
    }

log-Counts :
    (es : List AuditEntry) (e : AuditEntry) (s : Stats)
    → Counts es s
    → Counts (es ++ e ∷ []) (update_stats e.event_type e.status s)
unfolding update_stats
log-Counts es e s c =
    let counted : Stats = record s { total_requests = s.total_requests + 1 } in
    let a = count_type-Adds e counted in
    record {
      total = omega (arith, a.total, c.total, length-append es (e ∷ []));
      token = omega (arith, a.token, c.token, count_of-push (of_type "token_request") es e);
      sso = omega (arith, a.sso, c.sso, count_of-push (of_type "saml_request") es e);
      query = omega (arith, a.query, c.query, count_of-push (of_type "saml_attribute_query") es e);
      login = omega (arith, a.login, c.login, count_of-push (of_type "login") es e);
      successful = omega (arith, a.successful, c.successful, count_of-push succeeds es e);
      failed = omega (arith, a.failed, c.failed, count_of-push fails es e);
    }

log_all-Counts :
    (history es : List AuditEntry) (a : AuditLog)
    → Counts history a.stats
    → Counts (history ++ es) (log_all es a).stats
unfolding log_all log
log_all-Counts history [] a c = rw append-nil c
log_all-Counts history (e ∷ es) a c =
    subst (λ h. Counts h (log_all es (log e a)).stats) (append_assoc history (e ∷ []) es)
      (log_all-Counts (history ++ e ∷ []) es (log e a) (log-Counts history e a.stats c))

-- A fresh log counts every event, each token request, SAML request, SAML attribute query and login
-- among them, and of the logins those with status "success" as successful and all others as failed,
-- also those that the bounded list no longer holds.
pub log-Counts_all :
    (max_entries : ℕ) (es : List AuditEntry) → Counts es (log_all es (new_log max_entries)).stats
log-Counts_all n es = log_all-Counts [] es (new_log n) (record {
  total = refl;
  token = refl;
  sso = refl;
  query = refl;
  login = refl;
  successful = refl;
  failed = refl;
})
