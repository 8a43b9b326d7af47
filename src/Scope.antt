-- ===== src/Scope.antt =====
-- src/nanoidp/services/scope.py: the check of a requested scope against the vocabulary and the client.
pub mod Laws
mod Tests
use nanoidp.Prelude.{
  String, Bool, true, false, not, ◌&&◌, Option, none, some, List, [], ◌∷◌, ◌==◌, if◌then◌else◌,
  is_none, is_given, is_empty, elem, keep, split, join, sorted_set,
}
use Prim.Native.String
use nanoidp.Models.{OAuthClient}

pub record ScopeResult : Type 0 where
  pub granted : Option String
  pub error_description : Option String

abbrev pub ok : ScopeResult → Bool
ok r = is_none r.error_description

abbrev accept : Option String → ScopeResult
accept scope = record { granted = scope; error_description = none }

abbrev reject : String → ScopeResult
reject description = record { granted = none; error_description = some description }

-- `requested or other`
abbrev pub or_default : Option String → Option String → Option String
or_default requested other = if is_given requested then requested else other

abbrev pub missing_from : List String → List String → List String
missing_from allowed tokens = sorted_set (keep (λ t. not (elem t allowed)) tokens)

abbrev vocabulary_error : List String → String
vocabulary_error outside =
    String.◌++◌ "Requested scope contains values outside the supported vocabulary: "
      (join ", " outside)

abbrev client_error : String → List String → String
client_error client_id disallowed =
    String.◌++◌ "Requested scope is not allowed for client '"
      (String.◌++◌ client_id (String.◌++◌ "': " (join ", " disallowed)))

-- The check of a scope that is given.
abbrev check_scope : String → OAuthClient → List String → ScopeResult
check_scope effective client vocabulary =
    let tokens = split effective in
    let outside = missing_from vocabulary tokens in
    let disallowed = missing_from client.allowed_scopes tokens in
    if not (is_empty outside)
    then reject (vocabulary_error outside)
    else if not (is_empty client.allowed_scopes) && not (is_empty disallowed)
    then reject (client_error client.client_id disallowed)
    else accept (some effective)

abbrev check_effective : Option String → OAuthClient → List String → ScopeResult
check_effective none client vocabulary = accept none
check_effective (some effective) client vocabulary =
    if effective == "" then accept (some effective) else check_scope effective client vocabulary

abbrev pub effective_scope : Option String → OAuthClient → Option String → Bool → Option String
effective_scope requested client default_when_omitted validate_only =
    if validate_only
    then requested
    else or_default requested (
        if is_empty client.allowed_scopes
        then default_when_omitted
        else some (join " " client.allowed_scopes))

unfoldable pub resolve_scope :
    Option String → OAuthClient → List String → Bool → Option String → Bool → ScopeResult
resolve_scope requested client vocabulary enforcement_active default_when_omitted validate_only =
    if enforcement_active
    then check_effective (effective_scope requested client default_when_omitted validate_only)
        client vocabulary
    else accept (if validate_only then requested else or_default requested default_when_omitted)
