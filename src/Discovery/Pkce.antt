-- ===== src/Discovery/Pkce.antt =====
-- The code challenge methods that the discovery document (src/nanoidp/services/discovery.py)
-- advertises, and those that `/authorize` (src/nanoidp/routes/oauth.py) lets pass.
use nanoidp.Prelude.{
  String, ◌≡◌, ◌≢◌, ◌↔◌, refl, ap, Bool, true, false, not, ◌&&◌, Option, arith, ◌==◌, eq_iff,
  Bool-cases, inl, inr, is_text, elem,
}
use nanoidp.Models.{pkce_required, pkce_plain_allowed}
use nanoidp.Config.{ConfigManager}
use nanoidp.RedirectUri.{ParsedUrl}
use nanoidp.Authorize.{AuthorizeRequest, AuthorizeParams, WebState, Stage, go, reply}
use nanoidp.Authorize.Validate.{effective_method, profile_pkce}
use nanoidp.Discovery.{build_discovery_document}

abbrev has_gone : {A : Type 0} → Stage A → Bool
has_gone (go a) = true
has_gone (reply x) = false

refused :
    {A : Type 0} (x : WebState × Stage A) (s : WebState) (b : A)
    → x ≡ (s, go b)
    → has_gone x.1 ≡ true
refused {A = A} x s b h = ap (λ (y : WebState × Stage A). has_gone y.1) h

plain_is_weak : (m : String) → (m == "plain") ≡ true → (m == "S256") ≡ false
plain_is_weak m plain = rw ((eq_iff m "plain").0 plain) refl

module _ (urlparse : String → Option ParsedUrl) (config : ConfigManager) (r : AuthorizeRequest)
    (is_valid : String → Bool) (repr : String → String) where
  abbrev pub PassesProfile : AuthorizeParams → WebState → Type 0
  PassesProfile p s = profile_pkce urlparse config r is_valid repr p s ≡ (s, go tt)

  abbrev pub is_advertised : Option String → AuthorizeParams → Bool
  is_advertised issuer p =
      let document = build_discovery_document urlparse config.settings issuer in
      elem (effective_method urlparse config r is_valid repr p)
        document.code_challenge_methods_supported

  -- For an authorization request with a code challenge, the rules of the profile let it pass, and
  -- change nothing, exactly where the discovery document advertises its challenge method.
  pub profile_pkce_iff :
      (p : AuthorizeParams) (s : WebState) (issuer : Option String)
      → p.code_challenge ≢ ""
      → PassesProfile p s ↔ (is_advertised issuer p ≡ true)
  unfolding build_discovery_document
  profile_pkce_iff p s issuer given =
      let method = effective_method urlparse config r is_valid repr p in
      let text : is_text p.code_challenge ≡ true =
        ground (arith, given, eq_iff p.code_challenge "") in
      let there : (pkce_required config.settings && not (is_text p.code_challenge)) ≡ false =
        ground (arith, text) in
      elim (Bool-cases (pkce_plain_allowed config.settings)) [
        | inl lax ↦ elim (Bool-cases (method == "plain")) [
          | inl plain ↦ rw (lax, there, text, plain) (λ h. refl, λ e. refl)
          | inr other ↦ elim (Bool-cases (method == "S256")) [
            | inl strong ↦ rw (lax, there, text, other, strong) (λ h. refl, λ e. refl)
            | inr unknown ↦
                rw (lax, there, text, other, unknown) (λ h. cc (refused _ s tt h), λ e. cc)
          ]
        ]
        | inr strict ↦ elim (Bool-cases (method == "plain")) [
          | inl plain ↦
              let weak : (method == "S256") ≡ false = plain_is_weak method plain in
              rw (strict, there, text, plain, weak) (λ h. cc (refused _ s tt h), λ e. cc)
          | inr other ↦ elim (Bool-cases (method == "S256")) [
            | inl strong ↦ rw (strict, there, text, other, strong) (λ h. refl, λ e. refl)
            | inr unknown ↦
                rw (strict, there, text, other, unknown) (λ h. cc (refused _ s tt h), λ e. cc)
          ]
        ]
      ]
