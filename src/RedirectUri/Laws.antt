-- ===== src/RedirectUri/Laws.antt =====
-- The comparison of redirect URIs (src/nanoidp/services/redirect_uri.py).
use nanoidp.Prelude.{
  String, ◌≡◌, refl, true, false, not, ◌&&◌, List, [], ◌∷◌, arith, eq_iff, elem, all, Option, none,
  some,
}
use nanoidp.RedirectUri.{
  ParsedUrl, is_loopback_redirect_uri, strip_loopback_port, redirect_uri_matches,
  redirect_uri_is_registered, same_stripped,
}

module _ (urlparse : String → Option ParsedUrl) where
  same_stripped_comm : (a b : Option String) → same_stripped a b ≡ same_stripped b a
  same_stripped_comm none none = refl
  same_stripped_comm none (some b) = refl
  same_stripped_comm (some a) none = refl
  same_stripped_comm (some a) (some b) = ground (arith, eq_iff a b, eq_iff b a)

  -- Against registered redirect URIs none of which is a loopback URI, the request's URI is accepted
  -- exactly where it is one of them, text for text.
  pub registered_exactly :
      (requested : String) (uris : List String)
      → all (λ u. not (is_loopback_redirect_uri urlparse u)) uris ≡ true
      → redirect_uri_is_registered urlparse requested uris ≡ elem requested uris
  unfolding redirect_uri_is_registered redirect_uri_matches
  registered_exactly requested [] h = refl
  registered_exactly requested (u ∷ uris) h = ground (arith, h, registered_exactly requested uris)

  -- A URI that matches a registered one matches it the other way round, and where one of them is no
  -- loopback URI they are the same text.
  pub redirect_uri_matches_comm :
      (a b : String)
      → (redirect_uri_matches urlparse a b ≡ redirect_uri_matches urlparse b a)
        × (redirect_uri_matches urlparse a b ≡ true
            → (is_loopback_redirect_uri urlparse a && is_loopback_redirect_uri urlparse b) ≡ false
            → a ≡ b)
  unfolding redirect_uri_matches
  redirect_uri_matches_comm a b = (
    ground (
      arith,
      eq_iff a b,
      eq_iff b a,
      same_stripped_comm (strip_loopback_port urlparse a) (strip_loopback_port urlparse b),
    ),
    λ h other. ground (arith, h, other, eq_iff a b),
  )
