-- ===== src/Scope/Tests.antt =====
-- Scopes of concrete clients.
use nanoidp.Prelude.{◌≡◌, ◌↔◌, refl, String, true, false, none, some, List, split, sorted_set}
use nanoidp.Samples.{web, sample_settings}
use nanoidp.Scope.{ok, resolve_scope, effective_scope}
use nanoidp.Scope.Laws.{Fits, resolve_scope-ok_iff}

abbrev vocabulary : List String
vocabulary = sample_settings.scopes_supported

accepted : ok (resolve_scope (some "openid email") web vocabulary true none false) ≡ true
unfolding resolve_scope split sorted_set
accepted = refl

-- The client's list does not hold "profile".
refused : ok (resolve_scope (some "openid profile") web vocabulary true none false) ≡ false
unfolding resolve_scope split sorted_set
refused = refl

resolve_scope-ok_iff_example :
    (ok (resolve_scope (some "openid email") web vocabulary true none false) ≡ true)
    ↔ Fits web vocabulary (effective_scope (some "openid email") web none false)
resolve_scope-ok_iff_example = resolve_scope-ok_iff (some "openid email") web vocabulary none false
