-- ===== src/Token.antt =====
-- src/nanoidp/services/token.py: the claims that a token may carry, from the user and the
-- configuration. Python's `str.upper` and `str` of a value are arguments.
pub mod Mint
pub mod Claims
pub mod Laws
pub mod Signing
mod Tests
use Prim.Native.String
use nanoidp.Prelude.{
  ℕ, String, Bool, true, false, not, ◌&&◌, ◌||◌, Option, none, some, List, [], ◌∷◌, ◌++◌, ◌==◌, leb,
  if◌then◌else◌, is_text, elem, length,
}
use nanoidp.Dict.{Dict, get}
use nanoidp.Json.{Json, null, bool, num, str, arr, obj, Items, nil, cons, Fields, end, field, texts}
use nanoidp.Models.{User, OAuthClient}
use nanoidp.Config.{ConfigManager, get_client}

-- _AUTHORITATIVE_CLAIMS
abbrev pub authoritative_claims : List String
authoritative_claims = "scope" ∷ "req_userinfo_claims" ∷ "req_id_token_claims" ∷ []

-- _RESERVED_CLAIMS
abbrev pub reserved_claims : List String
reserved_claims =
    "iss" ∷ "sub" ∷ "aud" ∷ "exp" ∷ "iat" ∷ "nbf" ∷ "jti" ∷ "token_use" ∷ "auth_time" ∷ "at_hash"
    ∷ "azp" ∷ "nonce" ∷ authoritative_claims

-- [name for name in value if isinstance(name, str)]
abbrev pub text_items : Items → List String
text_items nil = []
text_items (cons (str s) items) = s ∷ text_items items
text_items (cons null items) = text_items items
text_items (cons (bool b) items) = text_items items
text_items (cons (num n) items) = text_items items
text_items (cons (arr a) items) = text_items items
text_items (cons (obj o) items) = text_items items

-- `xs or None`
abbrev pub names_or_none : List String → Option (List String)
names_or_none [] = none
names_or_none (x ∷ xs) = some (x ∷ xs)

unfoldable pub sanitize_claim_names : Option Json → Option (List String)
sanitize_claim_names none = none
sanitize_claim_names (some null) = none
sanitize_claim_names (some (bool b)) = none
sanitize_claim_names (some (num n)) = none
sanitize_claim_names (some (str s)) = none
sanitize_claim_names (some (arr items)) = names_or_none (text_items items)
sanitize_claim_names (some (obj o)) = none

abbrev some_texts : List String → Option Json
some_texts [] = none
some_texts (x ∷ xs) = some (arr (texts (x ∷ xs)))

abbrev some_text : Option String → Option Json
some_text none = none
some_text (some s) = if is_text s then some (str s) else none

-- The value of a claim that is not reserved.
abbrev own_claim : User → String → Option Json
own_claim user name =
    if name == "email"
    then some (str user.email)
    else if name == "email_verified"
    then some (bool true)
    else if name == "preferred_username"
    then some (str user.username)
    else if name == "roles"
    then some (arr (texts user.roles))
    else if name == "groups"
    then some_texts user.groups
    else if name == "tenant"
    then some (str user.tenant)
    else if name == "identity_class"
    then some_text user.identity_class
    else if name == "entitlements"
    then some_texts user.entitlements
    else get name user.attributes

-- `none` where the claim is not found.
unfoldable pub resolve_user_claim : User → String → Option Json
resolve_user_claim user name = if elem name reserved_claims then none else own_claim user name

-- `prefixes.get(key, default)`
abbrev prefix_of : Dict String → String → String → String
prefix_of prefixes key default = elim (get key prefixes) [ none ↦ default | some p ↦ p ]

-- [f"{prefix}{x}" for x in xs]
abbrev prefixed : String → List String → List String
prefixed prefix [] = []
prefixed prefix (x ∷ xs) = String.◌++◌ prefix x ∷ prefixed prefix xs

-- `bool(value)` on a JSON value
abbrev pub is_true : Json → Bool
is_true null = false
is_true (bool b) = b
is_true (num n) = not (leb n 0)
is_true (str s) = is_text s
is_true (arr nil) = false
is_true (arr (cons j items)) = true
is_true (obj end) = false
is_true (obj (field k v fields)) = true

module _ (upper : String → String) (show : Json → String) where
  abbrev uppers : List String → List String
  uppers [] = []
  uppers (x ∷ xs) = upper x ∷ uppers xs

  -- [f"{prefix}{v}" for v in value]
  abbrev shown_items : String → Items → List String
  shown_items prefix nil = []
  shown_items prefix (cons v items) = String.◌++◌ prefix (show v) ∷ shown_items prefix items

  abbrev attribute_authorities : String → Json → List String
  attribute_authorities prefix (arr items) = shown_items prefix items
  attribute_authorities prefix null = String.◌++◌ prefix (show null) ∷ []
  attribute_authorities prefix (bool b) = String.◌++◌ prefix (show (bool b)) ∷ []
  attribute_authorities prefix (num n) = String.◌++◌ prefix (show (num n)) ∷ []
  attribute_authorities prefix (str s) = String.◌++◌ prefix (show (str s)) ∷ []
  attribute_authorities prefix (obj o) = String.◌++◌ prefix (show (obj o)) ∷ []

  abbrev configured_authorities : Option String → Json → List String
  configured_authorities none value = []
  configured_authorities (some prefix) value =
      if is_true value then attribute_authorities prefix value else []

  -- The loop over the attributes.
  abbrev custom_authorities : Dict String → Dict Json → List String
  custom_authorities prefixes [] = []
  custom_authorities prefixes ((key, value) ∷ attributes) =
      configured_authorities (get key prefixes) value ++ custom_authorities prefixes attributes

  abbrev identity_authorities : String → Option String → List String
  identity_authorities prefix none = []
  identity_authorities prefix (some c) = if is_text c then String.◌++◌ prefix c ∷ [] else []

  unfoldable pub build_authorities : Dict String → User → List String
  build_authorities prefixes user =
      prefixed (prefix_of prefixes "roles" "ROLE_") (uppers user.roles)
      ++ (prefixed (prefix_of prefixes "groups" "GROUP_") (uppers user.groups)
          ++ (identity_authorities (prefix_of prefixes "identity_class" "IDENTITY_")
                user.identity_class
              ++ (prefixed (prefix_of prefixes "entitlements" "ENT_") user.entitlements
                  ++ (user.source_acl ++ custom_authorities prefixes user.attributes))))

-- `client.additional_audiences if client else []`
abbrev extra_audiences : Option OAuthClient → List String
extra_audiences none = []
extra_audiences (some client) = client.additional_audiences

-- One additional audience.
abbrev pub audience_step : String → String → List String → String → List String
audience_step resource_audience client_id aud extra =
    if extra == resource_audience && not (extra == client_id)
    then aud
    else if is_text extra && not (elem extra aud)
    then aud ++ extra ∷ []
    else aud

-- The loop over the additional audiences, with the list so far.
unfoldable pub audience_from : String → String → List String → List String → List String
audience_from resource_audience client_id aud [] = aud
audience_from resource_audience client_id aud (extra ∷ extras) =
    audience_from resource_audience client_id (audience_step resource_audience client_id aud extra)
      extras

-- The (aud, azp) pair of an ID Token; `aud` has one entry where it is a plain text.
unfoldable pub resolve_id_token_audience :
    ConfigManager → Option String → List String × Option String
unfolding audience_from
resolve_id_token_audience config none = (config.settings.audience ∷ [], none)
resolve_id_token_audience config (some client_id) =
    let aud =
      audience_from config.settings.audience client_id (client_id ∷ [])
        (extra_audiences (get_client config client_id)) in
    if client_id == ""
    then (config.settings.audience ∷ [], none)
    else if leb (length aud) 1
    then (aud, none)
    else (aud, some client_id)
