-- ===== src/AuditLog/Query.antt =====
-- What a query of the audit log returns (src/nanoidp/services/audit.py).
use nanoidp.Prelude.{
  ℕ, zero, suc, ◌≤◌, String, ◌≡◌, refl, inl, inr, Bool, true, Option, List, [], ◌∷◌, arith, leb,
  length, keep, take, All, Bool-cases,
}
use nanoidp.AuditLog.{AuditEntry, AuditLog, matches, insert_latest, latest_first, get_entries}
use nanoidp.AuditLog.Laws.{count}

-- Sorted by timestamp, the latest first.
abbrev pub IsLatestFirst : List AuditEntry → Type 0
IsLatestFirst [] = Unit
IsLatestFirst (e ∷ es) = All (λ f. f.timestamp ≤ e.timestamp) es × IsLatestFirst es

insert_latest-All :
    (P : AuditEntry → Type 0) (e : AuditEntry) (es : List AuditEntry)
    → P e
    → All P es
    → All P (insert_latest e es)
unfolding insert_latest
insert_latest-All P e [] p ps = (p, tt)
insert_latest-All P e (f ∷ es) p (q, ps) = elim (Bool-cases (leb f.timestamp e.timestamp)) [
  | inl b ↦ rw b (p, (q, ps))
  | inr b ↦ rw b (q, insert_latest-All P e es p ps)
]

module _ {P Q : AuditEntry → Type 0} (f : (e : AuditEntry) → P e → Q e) where
  All-map : (es : List AuditEntry) → All P es → All Q es
  All-map [] ps = tt
  All-map (e ∷ es) (p, ps) = (f e p, All-map es ps)

insert_latest-IsLatestFirst :
    (e : AuditEntry) (es : List AuditEntry) → IsLatestFirst es → IsLatestFirst (insert_latest e es)
unfolding insert_latest
insert_latest-IsLatestFirst e [] s = (tt, tt)
insert_latest-IsLatestFirst e (f ∷ es) (below, s) =
    elim (Bool-cases (leb f.timestamp e.timestamp)) [
      | inl b ↦
          let le : f.timestamp ≤ e.timestamp = ground (arith, b) in
          rw b (
            (
              le,
              All-map {Q = λ g. g.timestamp ≤ e.timestamp} (λ g h. omega (arith, h, le)) es below,
            ),
            (below, s),
          )
      | inr b ↦ rw b (
        insert_latest-All (λ g. g.timestamp ≤ f.timestamp) e es (ground (arith, b)) below,
        insert_latest-IsLatestFirst e es s,
      )
    ]

latest_first-IsLatestFirst : (es : List AuditEntry) → IsLatestFirst (latest_first es)
unfolding latest_first
latest_first-IsLatestFirst [] = tt
latest_first-IsLatestFirst (e ∷ es) =
    insert_latest-IsLatestFirst e (latest_first es) (latest_first-IsLatestFirst es)

latest_first-All :
    (P : AuditEntry → Type 0) (es : List AuditEntry) → All P es → All P (latest_first es)
unfolding latest_first
latest_first-All P [] ps = tt
latest_first-All P (e ∷ es) (p, ps) =
    insert_latest-All P e (latest_first es) p (latest_first-All P es ps)

count-insert_latest :
    (p : AuditEntry → Bool) (e : AuditEntry) (es : List AuditEntry)
    → count p (insert_latest e es) ≡ count p (e ∷ es)
unfolding insert_latest
count-insert_latest p e [] = refl
count-insert_latest p e (f ∷ es) = ground (arith, count-insert_latest p e es)

count-latest_first :
    (p : AuditEntry → Bool) (es : List AuditEntry) → count p (latest_first es) ≡ count p es
unfolding latest_first
count-latest_first p [] = refl
count-latest_first p (e ∷ es) =
    ground (arith, count-insert_latest p e (latest_first es), count-latest_first p es)

keep-All : (p : AuditEntry → Bool) (es : List AuditEntry) → All (λ e. p e ≡ true) (keep p es)
keep-All p [] = tt
keep-All p (e ∷ es) = elim (Bool-cases (p e)) [
  | inl b ↦ rw b (b, keep-All p es)
  | inr b ↦ rw b (keep-All p es)
]

take-All : (P : AuditEntry → Type 0) (n : ℕ) (es : List AuditEntry) → All P es → All P (take n es)
take-All P zero es ps = tt
take-All P (suc n) [] ps = tt
take-All P (suc n) (e ∷ es) (p, ps) = (p, take-All P n es ps)

take-IsLatestFirst : (n : ℕ) (es : List AuditEntry) → IsLatestFirst es → IsLatestFirst (take n es)
take-IsLatestFirst zero es s = tt
take-IsLatestFirst (suc n) [] s = tt
take-IsLatestFirst (suc n) (e ∷ es) (b, s) = (take-All _ n es b, take-IsLatestFirst n es s)

length-take-le : (n : ℕ) (es : List AuditEntry) → length (take n es) ≤ n
length-take-le zero es = omega arith
length-take-le (suc n) [] = omega arith
length-take-le (suc n) (e ∷ es) = omega (arith, length-take-le n es)

take_all : (n : ℕ) (es : List AuditEntry) → length es ≤ n → take n es ≡ es
take_all zero [] h = refl
take_all zero (e ∷ es) h = absurd (omega arith)
take_all (suc n) [] h = refl
take_all (suc n) (e ∷ es) h = rw (take_all n es (omega arith))

length-insert_latest :
    (e : AuditEntry) (es : List AuditEntry) → length (insert_latest e es) ≡ suc (length es)
unfolding insert_latest
length-insert_latest e [] = refl
length-insert_latest e (f ∷ es) = ground (arith, length-insert_latest e es)

length-latest_first : (es : List AuditEntry) → length (latest_first es) ≡ length es
unfolding latest_first
length-latest_first [] = refl
length-latest_first (e ∷ es) =
    omega (arith, length-insert_latest e (latest_first es), length-latest_first es)

-- A query returns at most `limit` entries, the latest first, each of which passes the filters.
pub get_entries_lem :
    (limit : ℕ) (event_type username client_id : Option String) (a : AuditLog)
    → (length (get_entries limit event_type username client_id a) ≤ limit)
      × IsLatestFirst (get_entries limit event_type username client_id a)
      × All
          (λ e. matches event_type username client_id e ≡ true)
          (get_entries limit event_type username client_id a)
unfolding get_entries
get_entries_lem n t u c a =
    let found = keep (matches t u c) a.entries in
    (
      length-take-le n (latest_first found),
      take-IsLatestFirst n (latest_first found) (latest_first-IsLatestFirst found),
      take-All _ n (latest_first found) (
          latest_first-All (λ e. matches t u c e ≡ true) found
            (keep-All (matches t u c) a.entries)),
    )

-- Where the limit leaves room, a query returns every matching entry as often as the log holds it.
pub get_entries_complete :
    (limit : ℕ) (event_type username client_id : Option String) (a : AuditLog)
    (p : AuditEntry → Bool)
    → length (keep (matches event_type username client_id) a.entries) ≤ limit
    → count p (get_entries limit event_type username client_id a)
      ≡ count p (keep (matches event_type username client_id) a.entries)
unfolding get_entries
get_entries_complete n t u c a p h =
    let found = keep (matches t u c) a.entries in
    rw (take_all n (latest_first found) (omega (arith, h, length-latest_first found)))
      (count-latest_first p found)
