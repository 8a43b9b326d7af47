-- ===== src/RedirectUri.antt =====
-- src/nanoidp/services/redirect_uri.py: the acceptable redirect URIs and their comparison with the
-- registered ones; and the issuer predicate of services/discovery.py. `urlparse` and `urlencode` are
-- arguments.
pub mod Laws
mod Tests
use Prim.Native.Char.{code}
use Prim.Native.String
use nanoidp.Prelude.{
  ℕ, String, Bool, true, false, not, ◌&&◌, ◌||◌, Option, none, some, List, [], ◌∷◌, ◌==◌, leb, any,
  if◌then◌else◌, is_none, is_given, is_text, same, elem, after_prefix,
}

-- `parsed.port`: a number, None, or the ValueError that reading it raises.
pub data Port : Type 0 where
  port : ℕ → Port
  no_port bad_port : Port

-- The components of `urlparse` that are read.
pub record ParsedUrl : Type 0 where
  pub scheme : String
  pub netloc : String
  pub path : String
  pub fragment : String
  pub hostname : Option String
  pub port : Port

abbrev is_char : ℕ → ℕ → Bool
is_char a b = leb a b && leb b a

-- `character in text`
abbrev pub has_char : ℕ → String → Bool
has_char k String.[] = false
has_char k (String.◌∷◌ c s) = is_char (code c) k || has_char k s

-- `text.endswith(character)`
abbrev pub ends_with : ℕ → String → Bool
ends_with k String.[] = false
ends_with k (String.◌∷◌ c String.[]) = is_char (code c) k
ends_with k (String.◌∷◌ c (String.◌∷◌ d s)) = ends_with k (String.◌∷◌ d s)

abbrev prepend : String → Option (String × String) → Option (String × String)
prepend c none = none
prepend c (some (a, b)) = some (String.◌++◌ c a, b)

-- The text up to and with the first "//", and the rest; `none` where there is no "//".
unfoldable pub split_authority : String → Option (String × String)
split_authority String.[] = none
split_authority (String.◌∷◌ c s) =
    let rest = split_authority s in
    elim (after_prefix "//" (String.◌∷◌ c s)) [
      | some tail ↦ some ("//", tail)
      | none ↦ prepend (String.◌∷◌ c String.[]) rest
    ]

-- The text before its last ":", where it has one.
unfoldable pub before_last_colon : String → Option String
before_last_colon String.[] = none
before_last_colon (String.◌∷◌ c s) =
    let rest = before_last_colon s in
    elim rest [
      | some p ↦ some (String.◌∷◌ c p)
      | none ↦ if is_char (code c) 58 then some String.[] else none
    ]

-- f"{uri}{separator}{urlencode(params)}"
unfoldable pub append_authorization_params :
    (List (String × String) → String) → String → List (String × String) → String
append_authorization_params urlencode uri params =
    String.◌++◌ uri (String.◌++◌ (if has_char 63 uri then "&" else "?") (urlencode params))

abbrev pub private_scheme_reason : String
private_scheme_reason =
    "Invalid redirect_uri: private-use scheme must be reverse-domain based, e.g. com.example.app:/callback (RFC 8252 section 7.1)"

abbrev pub is_loopback : ParsedUrl → Bool
is_loopback u =
    u.scheme == "http" && (same u.hostname (some "127.0.0.1") || same u.hostname (some "::1"))

abbrev absolute : String → Option ParsedUrl → Bool
absolute uri none = false
absolute uri (some u) =
    if not (is_text u.scheme)
    then false
    else if not (is_text u.netloc) && not (is_text u.path)
    then false
    else not (is_text u.fragment || ends_with 35 uri)

abbrev acceptable : Option ParsedUrl → Bool
acceptable none = false
acceptable (some u) = elem u.scheme ("http" ∷ "https" ∷ []) || has_char 46 u.scheme

abbrev loopback : Option ParsedUrl → Bool
loopback none = false
loopback (some u) = is_loopback u

abbrev join3 : String → String → String → String
join3 a b c = String.◌++◌ a (String.◌++◌ b c)

-- The URI without its port; `tail` is what follows the authority. A port that is given has a colon
-- before it.
abbrev without_port : String → String → String → String → Port → Option String
without_port uri before netloc tail bad_port = none
without_port uri before netloc tail no_port = some uri
without_port uri before netloc tail (port n) = elim (before_last_colon netloc) [
  | none ↦ none
  | some host ↦ some (join3 before host tail)
]

abbrev strip_parsed : String → ParsedUrl → Option String
strip_parsed uri u = elim u.port [
  | bad_port ↦ none
  | no_port ↦ strip_at uri u
  | port n ↦ strip_at uri u
]
  where
    strip_at : String → ParsedUrl → Option String
    strip_at uri u = if not (is_text u.netloc) then none else elim (split_authority uri) [
      | none ↦ none
      | some (before, rest) ↦ elim (after_prefix u.netloc rest) [
        | none ↦ none
        | some tail ↦ without_port uri before u.netloc tail u.port
      ]
    ]

abbrev same_stripped : Option String → Option String → Bool
same_stripped none b = false
same_stripped (some a) none = false
same_stripped (some a) (some b) = a == b

module _ (urlparse : String → Option ParsedUrl) where
  unfoldable pub is_absolute_redirect_uri : String → Bool
  is_absolute_redirect_uri uri = absolute uri (urlparse uri)

  unfoldable pub has_acceptable_scheme : String → Bool
  has_acceptable_scheme uri = acceptable (urlparse uri)

  unfoldable pub redirect_uri_rejection_reason : String → Option String
  redirect_uri_rejection_reason uri =
      if not (is_absolute_redirect_uri uri)
      then some "Invalid redirect_uri"
      else if not (has_acceptable_scheme uri)
      then some private_scheme_reason
      else none

  unfoldable pub is_loopback_redirect_uri : String → Bool
  is_loopback_redirect_uri uri = loopback (urlparse uri)

  unfoldable pub strip_loopback_port : String → Option String
  unfolding split_authority before_last_colon
  strip_loopback_port uri = elim (urlparse uri) [ none ↦ none | some u ↦ strip_parsed uri u ]

  unfoldable pub redirect_uri_matches : String → String → Bool
  redirect_uri_matches requested registered =
      if requested == registered
      then true
      else if not (is_loopback_redirect_uri registered)
      then false
      else if not (is_loopback_redirect_uri requested)
      then false
      else same_stripped (strip_loopback_port requested) (strip_loopback_port registered)

  unfoldable pub redirect_uri_is_registered : String → List String → Bool
  redirect_uri_is_registered requested registered_uris =
      any (redirect_uri_matches requested) registered_uris

  abbrev qualifies : Option ParsedUrl → Bool
  qualifies none = false
  qualifies (some u) = elim u.port [
    | bad_port ↦ false
    | no_port ↦ u.scheme == "https" && is_given u.hostname
    | port n ↦ u.scheme == "https" && is_given u.hostname
  ]

  unfoldable pub issuer_qualifies_for_iss_parameter : String → Bool
  issuer_qualifies_for_iss_parameter issuer =
      if has_char 63 issuer || has_char 35 issuer then false else qualifies (urlparse issuer)
