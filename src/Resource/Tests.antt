-- ===== src/Resource/Tests.antt =====
-- Resource indicators of concrete clients.
use nanoidp.Prelude.{◌≡◌, ◌↔◌, refl, String, Bool, true, none, List, [], ◌∷◌, All}
use nanoidp.Samples.{web}
use nanoidp.Resource.{refuse, resolve_from, resolve_resources, granted}
use nanoidp.Resource.Laws.{Targetable, is_granted, resolve_resources-granted_iff}

-- A grammar that takes every text.
abbrev any_text : String → Bool
any_text value = true

abbrev asked : List String
asked = "https://api" ∷ "https://api" ∷ []

once : resolve_resources any_text web none asked ≡ granted ("https://api" ∷ [])
unfolding resolve_resources resolve_from refuse
once = refl

resolve_resources-granted_iff_example :
    (is_granted (resolve_resources any_text web none asked) ≡ true)
    ↔ All (Targetable any_text web none) asked
resolve_resources-granted_iff_example = resolve_resources-granted_iff any_text web none asked
