-- ===== src/Prelude/Texts.antt =====
-- Python's truth tests on texts, `in` on lists of texts, `str.split()` and `" ".join`.
use Prim.Native.Char.{code}
use Prim.Native.String.{String}
use mathlib.Core.Bool.{Bool, true, false, not, ◌&&◌, ◌||◌}
use mathlib.Core.Option.{Option, none, some}
use mathlib.Core.List.{List, [], ◌∷◌}
use text.Mathlib.Text.{◌==◌}
use text.Mathlib.TextEquality.{eq_iff}
use mathlib.Core.Path.{◌≡◌, ap}
use nanoidp.Prelude.Tests.{leb, if◌then◌else◌}

-- `bool(s)` on a text.
abbrev pub is_text : String → Bool
is_text s = not (s == "")

-- `bool(o)` on a text that may be None.
abbrev pub is_given : Option String → Bool
is_given none = false
is_given (some s) = is_text s

-- `o or None`
abbrev pub or_none : Option String → Option String
or_none none = none
or_none (some s) = if is_text s then some s else none

-- `a == b` where both may be None.
abbrev pub same : Option String → Option String → Bool
same none none = true
same none (some b) = false
same (some a) none = false
same (some a) (some b) = a == b

-- `x in xs`
abbrev pub elem : String → List String → Bool
elem x [] = false
elem x (y ∷ ys) = x == y || elem x ys

-- `s.encode("ascii")` does not raise.
abbrev pub is_ascii : String → Bool
is_ascii String.[] = true
is_ascii (String.◌∷◌ c s) = leb (code c) 127 && is_ascii s

-- What follows the prefix, where the text has it.
abbrev pub after_prefix : String → String → Option String
after_prefix String.[] s = some s
after_prefix (String.◌∷◌ c p) String.[] = none
after_prefix (String.◌∷◌ c p) (String.◌∷◌ d s) =
    let rest = after_prefix p s in
    if leb (code c) (code d) && leb (code d) (code c) then rest else none

pub same-some : (o : Option String) (k : String) → same o (some k) ≡ true → o ≡ some k
same-some none k h = cc
same-some (some j) k h = ap some ((eq_iff j k).0 h)
