-- ===== src/Resource.antt =====
-- src/nanoidp/services/resource.py: the RFC 8707 resource indicators that a request may bind. The
-- grammar check `is_valid_resource_indicator` is an argument: the laws hold whatever it accepts.
pub mod Laws
pub mod Recheck
mod Tests
use nanoidp.Prelude.{
  String, Bool, true, false, not, ◌&&◌, Option, none, some, List, [], ◌∷◌, ◌++◌, if◌then◌else◌,
  is_none, is_empty, elem,
}
use Prim.Native.String
use nanoidp.Models.{OAuthClient}

-- The three refusals, with the value that the description names.
pub data ResourceError : Type 0 where
  not_an_indicator not_allowed not_in_grant : String → ResourceError

pub data ResourceResult : Type 0 where
  granted : List String → ResourceResult
  invalid_target : ResourceError → ResourceResult

-- `allowed_subset is not None and value not in allowed_subset`
abbrev pub is_outside : Option (List String) → String → Bool
is_outside none value = false
is_outside (some subset) value = not (elem value subset)

module _ (is_valid : String → Bool) (client : OAuthClient)
    (allowed_subset : Option (List String)) where
  -- The first refusal of one value, if any.
  unfoldable pub refuse : String → Option ResourceError
  refuse value =
      if not (is_valid value)
      then some (not_an_indicator value)
      else if not (is_empty client.allowed_resources) && not (elem value client.allowed_resources)
      then some (not_allowed value)
      else if is_outside allowed_subset value
      then some (not_in_grant value)
      else none

  -- The loop, with the values granted so far.
  unfoldable pub resolve_from : List String → List String → ResourceResult
  resolve_from so_far [] = granted so_far
  resolve_from so_far (value ∷ values) =
      let rest = resolve_from (if elem value so_far then so_far else so_far ++ value ∷ []) values in
      elim (refuse value) [ none ↦ rest | some e ↦ invalid_target e ]

  unfoldable pub resolve_resources : List String → ResourceResult
  unfolding resolve_from
  resolve_resources requested = resolve_from [] requested

-- The description of a refusal; `repr` is Python's, of a text.
abbrev pub describe : (String → String) → ResourceError → String
describe repr (not_an_indicator value) = String.◌++◌ "resource " (
    String.◌++◌ (repr value)
      " is not a valid resource indicator (RFC 8707: an absolute URI without a fragment)")
describe repr (not_allowed value) =
    String.◌++◌ "resource " (String.◌++◌ (repr value) " is not allowed for this client")
describe repr (not_in_grant value) =
    String.◌++◌ "resource " (
      String.◌++◌ (repr value) " was not part of the original grant and cannot be added on refresh")
