-- ===== src/Revocation/Laws.antt =====
-- What one call on the revocation store does (src/nanoidp/services/revocation.py).
use nanoidp.Prelude.{
  ℕ, ◌≤◌, String, ◌≡◌, refl, sym, subst, inl, inr, false, Option, none, some, arith, ◌==◌, eq_iff,
  eq_refl, Bool-cases,
}
use nanoidp.Dict.{Dict, get, put, keys_where, HasUniqueKeys}
use nanoidp.Dict.Laws.{unless, get-put, get-sweep, put-HasUniqueKeys, remove_all-HasUniqueKeys}
use nanoidp.Revocation.{
  Expiry, until, never, ExpiresAt, unset, absent, malformed, numeric, RevocationStore,
  effective_expiry, is_past, sweep, later_of, or_zero, revoke,
}

pub record IsWellFormed (s : RevocationStore) : Type 0 where
  pub tokens_unique : HasUniqueKeys s.tokens
  pub families_unique : HasUniqueKeys s.families

-- `a ≤ b` for expiries, where `never` is the last.
abbrev pub NoLater : Expiry → Expiry → Type 0
NoLater a never = Unit
NoLater never (until b) = ⊥
NoLater (until a) (until b) = a ≤ b

-- The entry is there, and lasts at least to `e`.
abbrev pub Lasts : Expiry → Option Expiry → Type 0
Lasts e none = ⊥
Lasts e (some x) = NoLater e x

-- The clock has not reached the expiry.
abbrev pub Before : ℕ → Expiry → Type 0
Before now e = is_past now e ≡ false

module _ (now : ℕ) (s : RevocationStore) (w : IsWellFormed s) where
  pub get-sweep_tokens :
      (k : String) → get k (sweep now s).tokens ≡ unless (is_past now) (get k s.tokens)
  unfolding sweep
  get-sweep_tokens k = get-sweep (is_past now) k s.tokens w.tokens_unique

  pub get-sweep_families :
      (k : String) → get k (sweep now s).families ≡ unless (is_past now) (get k s.families)
  unfolding sweep
  get-sweep_families k = get-sweep (is_past now) k s.families w.families_unique

  pub sweep-IsWellFormed : IsWellFormed (sweep now s)
  unfolding sweep
  sweep-IsWellFormed = record {
    tokens_unique =
        remove_all-HasUniqueKeys (keys_where (is_past now) s.tokens) s.tokens w.tokens_unique;
    families_unique =
        remove_all-HasUniqueKeys (keys_where (is_past now) s.families) s.families w.families_unique;
  }

-- An entry that lasts past the moment of the sweep is not swept.
unless_same :
    (now : ℕ) (e : Expiry) (o : Option Expiry)
    → Before now e
    → Lasts e o
    → unless (is_past now) o ≡ o
unless_same now e none b l = absurd l
unless_same now never (some never) b l = refl
unless_same now never (some (until x)) b l = absurd l
unless_same now (until e) (some never) b l = refl
unless_same now (until e) (some (until x)) b l = ground (arith, b, l)

later_of_left : (a b e : Expiry) → NoLater e a → NoLater e (later_of a b)
later_of_left never b e h = tt
later_of_left (until a) never e h = tt
later_of_left (until a) (until b) never h = absurd h
later_of_left (until a) (until b) (until e) h = omega arith

later_of_right : (a b e : Expiry) → NoLater e b → NoLater e (later_of a b)
later_of_right never b e h = tt
later_of_right (until a) never e h = tt
later_of_right (until a) (until b) never h = absurd h
later_of_right (until a) (until b) (until e) h = omega arith

pub NoLater-refl : (e : Expiry) → NoLater e e
NoLater-refl never = tt
NoLater-refl (until e) = omega arith

-- The retention that a verified expiry earns is never shorter than the expiry itself.
abbrev pub trusted : ExpiresAt → Expiry
trusted unset = until 0
trusted absent = never
trusted malformed = never
trusted (numeric e) = until e

pub trusted_lasts : (now : ℕ) (x : ExpiresAt) → NoLater (trusted x) (effective_expiry now x)
unfolding effective_expiry
trusted_lasts now unset = omega arith
trusted_lasts now absent = tt
trusted_lasts now malformed = tt
trusted_lasts now (numeric e) = omega arith

pub unless-Lasts :
    (now : ℕ) (e : Expiry) (o : Option Expiry)
    → Before now e
    → Lasts e o
    → Lasts e (unless (is_past now) o)
unless-Lasts now e o b l = rw (unless_same now e o b l) l

NoLater-or_zero : (e : Expiry) (o : Option Expiry) → Lasts e o → NoLater e (or_zero o)
NoLater-or_zero e none l = absurd l
NoLater-or_zero e (some x) l = l

-- A write keeps what is to last, if its own value lasts as long wherever it replaces such an entry.
pub put-Lasts :
    (k j : String) (e x : Expiry) (d : Dict Expiry)
    → Lasts e (get k d)
    → (j ≡ k → NoLater e x)
    → Lasts e (get k (put j x d))
put-Lasts k j e x d l over = elim (Bool-cases (j == k)) [
  | inl same ↦ rw (get-put k j x d) (rw same (over ((eq_iff j k).0 same)))
  | inr other ↦ rw (get-put k j x d) (rw other l)
]

module _ (now : ℕ) (token_id : String) (x : ExpiresAt) (s : RevocationStore)
    (w : IsWellFormed s) where
  -- `revoke` makes its id last at least to the expiry that the caller gave.
  pub revoke-Lasts : Lasts (trusted x) (get token_id (revoke now token_id x s).tokens)
  unfolding revoke
  revoke-Lasts =
      let swept = sweep now s in
      let e = later_of (or_zero (get token_id swept.tokens)) (effective_expiry now x) in
      rw (get-put token_id token_id e swept.tokens) (
        rw (eq_refl token_id) (
          later_of_right (or_zero (get token_id swept.tokens)) (effective_expiry now x) (trusted x)
            (trusted_lasts now x)))

  -- In a store without repeated keys, an entry that is to last past `now` lasts as long after
  -- another revocation, of any id.
  pub revoke_monotonic :
      (k : String) (e : Expiry)
      → Before now e
      → Lasts e (get k s.tokens)
      → Lasts e (get k (revoke now token_id x s).tokens)
  unfolding revoke
  revoke_monotonic k e b l =
      let l' : Lasts e (get k (sweep now s).tokens) =
        rw (get-sweep_tokens now s w k) (unless-Lasts now e (get k s.tokens) b l) in
      put-Lasts k token_id e _ (sweep now s).tokens l' (λ same.
        later_of_left (or_zero (get token_id (sweep now s).tokens)) (effective_expiry now x) e (
          NoLater-or_zero e (get token_id (sweep now s).tokens)
            (subst (λ j. Lasts e (get j (sweep now s).tokens)) (sym same) l')))

  pub revoke-IsWellFormed : IsWellFormed (revoke now token_id x s)
  unfolding revoke
  revoke-IsWellFormed =
      let v = sweep-IsWellFormed now s w in
      record {
        tokens_unique = put-HasUniqueKeys token_id _ (sweep now s).tokens v.tokens_unique;
        families_unique = v.families_unique;
      }

  -- A revocation of a token keeps what is to last of the families.
  pub revoke-families_keep :
      (k : String) (e : Expiry)
      → Before now e
      → Lasts e (get k s.families)
      → Lasts e (get k (revoke now token_id x s).families)
  unfolding revoke
  revoke-families_keep k e b l =
      rw (get-sweep_families now s w k) (unless-Lasts now e (get k s.families) b l)
