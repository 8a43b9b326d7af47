-- ===== src/Discovery/Laws.antt =====
-- What the discovery document (src/nanoidp/services/discovery.py) advertises, and what the endpoints
-- then do.
use nanoidp.Prelude.{
  String, ◌≡◌, refl, eq_iff, false, Option, ◌==◌, elem, Bool-cases, inl, inr, arith,
}
use nanoidp.Models.{password_grant_enabled}
use nanoidp.Response.{oauth_error}
use nanoidp.RedirectUri.{ParsedUrl}
use nanoidp.Grants.Monad.{IdpState, Step, answer}
use nanoidp.Grants.Defs.{GrantContext, GrantOutcome}
use nanoidp.Grants.Direct.{grant_password}
use nanoidp.Grants.Laws.{SameStores}
use nanoidp.TokenEndpoint.{Platform, dispatch}
use nanoidp.Discovery.{advertised_grants, build_discovery_document}

-- The answer is unsupported_grant_type, and the stores are as they were.
abbrev pub IsUnsupported : IdpState → IdpState × Step GrantOutcome → Type 0
IsUnsupported s x =
    (text : String) × (x.1 ≡ answer (oauth_error "unsupported_grant_type" text 400))
    × SameStores s x.0

module _ (p : Platform) (ctx : GrantContext) (s : IdpState) where
  unmatched :
      (ctx.grant_type == "refresh_token") ≡ false
      → (ctx.grant_type == "password") ≡ false
      → (ctx.grant_type == "authorization_code") ≡ false
      → (ctx.grant_type == "client_credentials") ≡ false
      → (ctx.grant_type == "urn:ietf:params:oauth:grant-type:device_code") ≡ false
      → IsUnsupported s (dispatch p ctx s)
  unfolding dispatch
  unmatched a b c d e = rw (a, b, c, d, e) (_, refl, (refl, refl, refl))

  unsupported :
      elem ctx.grant_type (advertised_grants ctx.config.settings) ≡ false
      → IsUnsupported s (dispatch p ctx s)
  unfolding dispatch grant_password
  unsupported h = elim (Bool-cases (password_grant_enabled ctx.config.settings)) [
    | inl on ↦
        let g = rw on at h in
        unmatched (ground (arith, g)) (ground (arith, g)) (ground (arith, g)) (ground (arith, g))
          (ground (arith, g))
    | inr off ↦ elim (Bool-cases (ctx.grant_type == "password")) [
      | inl password ↦
          rw ((eq_iff ctx.grant_type "password").0 password, off) (_, refl, (refl, refl, refl))
      | inr other ↦
          let g = rw off at h in
          unmatched (ground (arith, g)) other (ground (arith, g)) (ground (arith, g))
            (ground (arith, g))
    ]
  ]

  -- A grant type that the discovery document does not advertise, whatever issuer the document is
  -- built for, is answered with unsupported_grant_type, and no code, device authorization or
  -- revocation changes.
  pub unadvertised_refused :
      (urlparse : String → Option ParsedUrl) (issuer : Option String)
      → elem ctx.grant_type
          (build_discovery_document urlparse ctx.config.settings issuer).grant_types_supported
        ≡ false
      → IsUnsupported s (dispatch p ctx s)
  unfolding build_discovery_document
  unadvertised_refused urlparse issuer h = unsupported h
