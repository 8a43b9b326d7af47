-- ===== src/Prelude/Split.antt =====
-- Python's `str.split()` on whitespace, `sep.join` and `sorted(set(…))` on texts.
use Prim.Native.Nat.{ℕ}
use Prim.Native.Char.{Char, code}
use Prim.Native.String
use Prim.Native.String.{String, compare}
use Prim.Native.Nat.{Ordering}
use mathlib.Core.Path.{◌≡◌, refl}
use mathlib.Core.Bool.{Bool, false, not, ◌&&◌, ◌||◌}
use mathlib.Core.List.{List, [], ◌∷◌}
use native.Mathlib.Omega.{arith}
use text.Mathlib.Text.{◌==◌}
use nanoidp.Prelude.Tests.{leb, if◌then◌else◌}
use nanoidp.Prelude.Texts.{is_text, elem}
use nanoidp.Prelude.Lists.{is_empty, keep, all}

abbrev eqb : ℕ → ℕ → Bool
eqb a b = leb a b && leb b a

-- The code points of Python's `str.isspace`.
abbrev pub is_space : ℕ → Bool
is_space c =
    (leb 9 c && leb c 13)
    || (leb 28 c && leb c 32)
    || eqb c 0x85
    || eqb c 0xa0
    || eqb c 0x1680
    || (leb 0x2000 c && leb c 0x200a)
    || eqb c 0x2028
    || eqb c 0x2029
    || eqb c 0x202f
    || eqb c 0x205f
    || eqb c 0x3000

abbrev push : String → Char → String
push s c = String.◌++◌ s (String.◌∷◌ c String.[])

-- The rest of the text, with the word that is being read.
words_from : String → String → List String
words_from cur String.[] = if is_text cur then cur ∷ [] else []
words_from cur (String.◌∷◌ c s) =
    let next = words_from "" s in
    let longer = words_from (push cur c) s in
    if is_space (code c) then (if is_text cur then cur ∷ next else next) else longer

unfoldable pub split : String → List String
unfolding words_from
split s = words_from "" s

unfoldable pub join : String → List String → String
join sep [] = ""
join sep (x ∷ []) = x
join sep (x ∷ y ∷ ys) = String.◌++◌ x (String.◌++◌ sep (join sep (y ∷ ys)))

-- Into a sorted list without duplicates.
insert_sorted : String → List String → List String
insert_sorted x [] = x ∷ []
insert_sorted x (y ∷ ys) = elim (compare x y) [
  | Ordering.lt ↦ x ∷ y ∷ ys
  | Ordering.eq ↦ y ∷ ys
  | Ordering.gt ↦ y ∷ insert_sorted x ys
]

unfoldable pub sorted_set : List String → List String
unfolding insert_sorted
sorted_set [] = []
sorted_set (x ∷ xs) = insert_sorted x (sorted_set xs)

is_empty-insert_sorted : (x : String) (ys : List String) → is_empty (insert_sorted x ys) ≡ false
unfolding insert_sorted
is_empty-insert_sorted x [] = refl
is_empty-insert_sorted x (y ∷ ys) = ground arith

pub is_empty-sorted_set : (xs : List String) → is_empty (sorted_set xs) ≡ is_empty xs
unfolding sorted_set
is_empty-sorted_set [] = refl
is_empty-sorted_set (x ∷ xs) = is_empty-insert_sorted x (sorted_set xs)

-- No element is missing from `ys` exactly when all are in it.
pub is_empty-missing :
    (ys xs : List String) → is_empty (keep (λ x. not (elem x ys)) xs) ≡ all (λ x. elem x ys) xs
is_empty-missing ys [] = refl
is_empty-missing ys (x ∷ xs) = ground (arith, is_empty-missing ys xs)

lstrip : String → String
lstrip String.[] = ""
lstrip (String.◌∷◌ c s) = let rest = lstrip s in if is_space (code c) then rest else String.◌∷◌ c s

rstrip : String → String
rstrip String.[] = ""
rstrip (String.◌∷◌ c s) =
    let rest = rstrip s in if rest == "" && is_space (code c) then "" else String.◌∷◌ c rest

-- `s.strip()`
unfoldable pub strip : String → String
unfolding lstrip rstrip
strip s = rstrip (lstrip s)
