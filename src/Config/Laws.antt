-- ===== src/Config/Laws.antt =====
-- Credentials: who can authenticate (src/nanoidp/config.py).
use nanoidp.Prelude.{
  String, ◌≡◌, refl, ap, sym, ◌∙◌, ◌≢◌, ◌↔◌, Bool, true, false, Option, none, some, List, [], ◌∷◌,
  arith, ◌==◌, eq_iff, ◌⊎◌, inl, inr, Bool-cases, Option-cases,
}
use nanoidp.Models.{User, OAuthClient, Settings, is_public, persona_mode_enabled}
use nanoidp.Config.{
  ConfigManager, get_user, match_client, check_client, check_password, authenticate_found,
  authenticate, interactive_authenticate,
}

-- A registered confidential client with that id and that secret, anywhere in the list.
pub data Registered (client_id client_secret : String) : List OAuthClient → Type 0 where
  here :
      {c : OAuthClient} {cs : List OAuthClient}
      → is_public c ≡ false
      → c.client_id ≡ client_id
      → c.client_secret ≡ some client_secret
      → Registered client_id client_secret (c ∷ cs)
  later :
      {c : OAuthClient} {cs : List OAuthClient}
      → Registered client_id client_secret cs
      → Registered client_id client_secret (c ∷ cs)

match_found :
    (client_id client_secret : String) (c : OAuthClient) (cs : List OAuthClient)
    (secret : Option String)
    → c.client_secret ≡ secret
    → match_client client_id client_secret (c ∷ cs) ≡ true
    → match_client client_id client_secret cs ≡ false
    → Registered client_id client_secret (c ∷ cs)
unfolding match_client
match_found i p c cs none e h flat = absurd (ground (arith, h, flat, e))
match_found i p c cs (some s) e h flat =
    here (ground (arith, h, flat, e)) (ground (arith, h, flat, e, eq_iff c.client_id i))
      (ground (arith, h, flat, e, eq_iff s p))

match_client_sound :
    (client_id client_secret : String) (cs : List OAuthClient)
    → match_client client_id client_secret cs ≡ true
    → Registered client_id client_secret cs
match_client_sound i p [] h = cc (unfold_nil i p h)
  where
    unfold_nil : (i p : String) → match_client i p [] ≡ true → false ≡ true
    unfold_nil i p h = unfold match_client in h
match_client_sound i p (c ∷ cs) h = elim (Bool-cases (match_client i p cs)) [
  | inl deep ↦ later (match_client_sound i p cs deep)
  | inr flat ↦ match_found i p c cs c.client_secret refl h flat
]

match_client_complete :
    (client_id client_secret : String) (cs : List OAuthClient)
    → Registered client_id client_secret cs
    → match_client client_id client_secret cs ≡ true
unfolding match_client
match_client_complete i p [] r = elim r [ ]
match_client_complete i p (c ∷ cs) (here conf same secret) =
    ground (arith, eq_iff c.client_id i, eq_iff p p)
match_client_complete i p (c ∷ cs) (later r) = ground (arith, match_client_complete i p cs r)

-- A pair of id and secret is accepted exactly when some confidential client on the list has both.
pub check_client_iff :
    (config : ConfigManager) (client_id client_secret : String)
    → (check_client config (some client_id) (some client_secret) ≡ true)
      ↔ Registered client_id client_secret config.settings.clients
unfolding check_client
check_client_iff config i p = (
  match_client_sound i p config.settings.clients,
  match_client_complete i p config.settings.clients,
)

-- When a stored password lets a given one pass. `checkpw` answers none where it raises.
pub data Accepts (checkpw : String → String → Option Bool) (s : Settings) (stored given : String)
    : Type 0 where
  plain : s.password_hashing ≡ false → stored ≡ given → Accepts checkpw s stored given
  hashed :
      s.password_hashing ≡ true → checkpw given stored ≡ some true → Accepts checkpw s stored given
  fallback :
      s.password_hashing ≡ true
      → checkpw given stored ≡ none
      → s.enforce_password_check ≡ false
      → stored ≡ given
      → Accepts checkpw s stored given

module _ (checkpw : String → String → Option Bool) where
  check_password_sound :
      (s : Settings) (user u : User) (stored given : String)
      → check_password checkpw s user stored given ≡ some u
      → (user ≡ u) × Accepts checkpw s stored given
  check_password_sound s user u stored given h = elim (Bool-cases s.password_hashing) [
    | inr off ↦ (ground (arith, h, off), plain off (ground (arith, h, off, eq_iff stored given)))
    | inl on ↦ elim (Option-cases (checkpw given stored)) [
      | inl bad ↦ (
        ground (arith, h, on, bad),
        fallback on bad (ground (arith, h, on, bad))
            (ground (arith, h, on, bad, eq_iff stored given)),
      )
      | inr (ok, e) ↦ (ground (arith, h, on, e), hashed on (ground (arith, h, on, e)))
    ]
  ]

  check_password_complete :
      (s : Settings) (user : User) (stored given : String)
      → Accepts checkpw s stored given
      → check_password checkpw s user stored given ≡ some user
  check_password_complete s user stored given (plain off same) = ground (arith, eq_iff stored given)
  check_password_complete s user stored given (hashed on e) = ground (arith)
  check_password_complete s user stored given (fallback on e lax same) =
      ground (arith, eq_iff stored given)

  -- What a successful login shows of the user that it names.
  abbrev Login : Settings → Option User → User → String → Type 0
  Login s o u given =
      (o ≡ some u)
      × ((stored : String) × (u.password ≡ some stored) × Accepts checkpw s stored given)

  found_sound :
      (s : Settings) (o : Option User) (u : User) (given : String)
      → authenticate_found checkpw s o given ≡ some u
      → Login s o u given
  found_sound s none u given h = cc
  found_sound s (some user) u given h = elim (Option-cases user.password) [
    | inl e ↦ absurd (ground (arith, e, h))
    | inr (stored, p) ↦
        let (same, a) = check_password_sound s user u stored given (ground (arith, p, h)) in
        (ap some same, (stored, sym (ap (λ (x : User). x.password) same) ∙ p, a))
  ]

  found_complete :
      (s : Settings) (o : Option User) (u : User) (given : String)
      → Login s o u given
      → authenticate_found checkpw s o given ≡ some u
  found_complete s o u given (e, (stored, p, a)) =
      rw e (ground (arith, p, check_password_complete s u stored given a))

  -- A login succeeds exactly for a configured user who has a password that accepts the given one:
  -- equal to it where hashing is off, checked by bcrypt where it is on, or equal to it where bcrypt
  -- cannot read the stored one and `enforce_password_check` is off.
  pub authenticate_iff :
      (config : ConfigManager) (username password : String) (u : User)
      → (authenticate checkpw config username password ≡ some u) ↔ (
          (get_user config username ≡ some u)
          × ((stored : String) × (u.password ≡ some stored)
              × Accepts checkpw config.settings stored password))
  unfolding authenticate
  authenticate_iff config username password u = (
    found_sound config.settings (get_user config username) u password,
    found_complete config.settings (get_user config username) u password,
  )

  -- Outside persona mode an interactive login with a blank name or password fails, and otherwise it
  -- is the password login; in persona mode it selects the user of a name that is not blank.
  pub interactive_authenticate_modes :
      (config : ConfigManager) (username password : String) (u : User)
      → interactive_authenticate checkpw config username password ≡ some u
      → ((config.settings.login_mode ≡ "persona")
          × (get_user config username ≡ some u)
          × (username ≢ ""))
        ⊎ ((config.settings.login_mode ≢ "persona")
            × (authenticate checkpw config username password ≡ some u)
            × (username ≢ "")
            × (password ≢ ""))
  unfolding interactive_authenticate persona_mode_enabled
  interactive_authenticate_modes config username password u h =
      elim (Bool-cases (config.settings.login_mode == "persona")) [
        | inl on ↦ inl (
            ground (
              arith,
              eq_iff config.settings.login_mode "persona",
              eq_iff username "",
              eq_iff password "",
            ))
        | inr off ↦ inr (
            ground (
              arith,
              eq_iff config.settings.login_mode "persona",
              eq_iff username "",
              eq_iff password "",
            ))
      ]
