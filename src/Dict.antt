-- ===== src/Dict.antt =====
-- Python's `dict` with text keys, in insertion order: an assignment to a key that is there keeps
-- its place, and a new key goes to the end.
pub mod Laws
use nanoidp.Prelude.{
  String, Bool, Option, none, some, List, [], ◌∷◌, ◌≡◌, ◌==◌, if◌then◌else◌, is_none, is_text, true,
  false,
}
use nanoidp.Json.{Json, str}

abbrev pub Dict {ℓ} : Type ℓ → Type ℓ
Dict V = List (String × V)

module _ {ℓ} {V : Type ℓ} where
  -- d.get(k)
  unfoldable pub get : String → Dict V → Option V
  get k [] = none
  get k ((j, v) ∷ d) = if j == k then some v else get k d

  -- d[k] = v
  unfoldable pub put : String → V → Dict V → Dict V
  put k v [] = (k, v) ∷ []
  put k v ((j, w) ∷ d) = if j == k then (k, v) ∷ d else (j, w) ∷ put k v d

  -- d.pop(k, None), del d[k]
  unfoldable pub remove : String → Dict V → Dict V
  remove k [] = []
  remove k ((j, v) ∷ d) = let rest = remove k d in if j == k then rest else (j, v) ∷ rest

  -- [k for k, v in d.items() if p(v)]
  unfoldable pub keys_where : (V → Bool) → Dict V → List String
  keys_where p [] = []
  keys_where p ((k, v) ∷ d) = let rest = keys_where p d in if p v then k ∷ rest else rest

  -- for k in ks: del d[k]
  unfoldable pub remove_all : List String → Dict V → Dict V
  remove_all [] d = d
  remove_all (k ∷ ks) d = remove_all ks (remove k d)

  -- d.update(e)
  unfoldable pub update : Dict V → Dict V → Dict V
  update d [] = d
  update d ((k, v) ∷ e) = update (put k v d) e

  -- if b: d[k] = v
  unfoldable pub put_if : Bool → String → V → Dict V → Dict V
  put_if true k v d = put k v d
  put_if false k v d = d

  -- d.setdefault(k, v)
  unfoldable pub put_new : String → V → Dict V → Dict V
  put_new k v d = if is_none (get k d) then put k v d else d

  -- No key stands twice, as in every dict.
  abbrev pub HasUniqueKeys : Dict V → Type ℓ
  HasUniqueKeys [] = Unit
  HasUniqueKeys ((k, v) ∷ d) = (get k d ≡ none) × HasUniqueKeys d

-- if o: d[k] = o
unfoldable pub put_text : String → Option String → Dict Json → Dict Json
put_text k none d = d
put_text k (some s) d = if is_text s then put k (str s) d else d
