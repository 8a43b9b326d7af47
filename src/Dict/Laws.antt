-- ===== src/Dict/Laws.antt =====
-- Laws of dicts: what a read sees after each write, in the form of one equation for all keys.
use nanoidp.Prelude.{
  String, ◌≡◌, refl, Bool, false, Option, none, some, List, [], ◌∷◌, ◌≤◌, ◌+◌, arith, ◌==◌, eq_iff,
  if◌then◌else◌, length, elem, is_text, true,
}
use nanoidp.Json.{Json, str}
use nanoidp.Dict.{
  Dict, get, put, remove, keys_where, remove_all, update, put_if, put_new, put_text, HasUniqueKeys,
}

-- The entry that stays where those that satisfy `p` are dropped.
abbrev pub unless {ℓ} : {V : Type ℓ} → (V → Bool) → Option V → Option V
unless p none = none
unless p (some v) = if p v then none else some v

-- Whether an entry is there and satisfies `p`.
abbrev pub holds {ℓ} : {V : Type ℓ} → (V → Bool) → Option V → Bool
holds p none = false
holds p (some v) = p v

module _ {ℓ} {V : Type ℓ} where
  pub get-put :
      (j k : String) (v : V) (d : Dict V) → get j (put k v d) ≡ (if k == j then some v else get j d)
  unfolding get put
  get-put j k v [] = refl
  get-put j k v ((i, w) ∷ d) = ground (arith, eq_iff k j, eq_iff i k, eq_iff i j, get-put j k v d)

  pub get-remove :
      (j k : String) (d : Dict V) → get j (remove k d) ≡ (if k == j then none else get j d)
  unfolding get remove
  get-remove j k [] = ground arith
  get-remove j k ((i, w) ∷ d) = ground (arith, eq_iff k j, eq_iff i k, eq_iff i j, get-remove j k d)

  pub get-remove_all :
      (j : String) (ks : List String) (d : Dict V)
      → get j (remove_all ks d) ≡ (if elem j ks then none else get j d)
  unfolding remove_all
  get-remove_all j [] d = refl
  get-remove_all j (k ∷ ks) d =
      ground (arith, get-remove_all j ks (remove k d), get-remove j k d, eq_iff k j, eq_iff j k)

  -- The key of an entry that satisfies `p` is listed, and only such a key.
  pub elem-keys_where :
      (p : V → Bool) (j : String) (d : Dict V)
      → HasUniqueKeys d
      → elem j (keys_where p d) ≡ holds p (get j d)
  unfolding keys_where get
  elem-keys_where p j [] u = refl
  elem-keys_where p j ((i, w) ∷ d) u =
      ground (arith, elem-keys_where p j d u.1, eq_iff i j, eq_iff j i, u.0)

  -- The loop that drops the entries that satisfy `p` leaves exactly the others.
  pub get-sweep :
      (p : V → Bool) (j : String) (d : Dict V)
      → HasUniqueKeys d
      → get j (remove_all (keys_where p d) d) ≡ unless p (get j d)
  get-sweep p j d u = ground (arith, get-remove_all j (keys_where p d) d, elem-keys_where p j d u)

  pub put-HasUniqueKeys :
      (k : String) (v : V) (d : Dict V) → HasUniqueKeys d → HasUniqueKeys (put k v d)
  unfolding put get
  put-HasUniqueKeys k v [] u = ground (arith)
  put-HasUniqueKeys k v ((i, w) ∷ d) u =
      ground (arith, put-HasUniqueKeys k v d u.1, get-put i k v d, eq_iff i k, eq_iff k i)

  pub remove-HasUniqueKeys :
      (k : String) (d : Dict V) → HasUniqueKeys d → HasUniqueKeys (remove k d)
  unfolding remove
  remove-HasUniqueKeys k [] u = tt
  remove-HasUniqueKeys k ((i, w) ∷ d) u =
      ground (arith, remove-HasUniqueKeys k d u.1, get-remove i k d)

  pub remove_all-HasUniqueKeys :
      (ks : List String) (d : Dict V) → HasUniqueKeys d → HasUniqueKeys (remove_all ks d)
  unfolding remove_all
  remove_all-HasUniqueKeys [] d u = u
  remove_all-HasUniqueKeys (k ∷ ks) d u =
      remove_all-HasUniqueKeys ks (remove k d) (remove-HasUniqueKeys k d u)

  pub length-put-le : (k : String) (v : V) (d : Dict V) → length (put k v d) ≤ length d + 1
  unfolding put get
  length-put-le k v [] = omega arith
  length-put-le k v ((i, w) ∷ d) = ground (arith, length-put-le k v d)

  length-remove-le : (k : String) (d : Dict V) → length (remove k d) ≤ length d
  unfolding remove
  length-remove-le k [] = omega arith
  length-remove-le k ((i, w) ∷ d) = ground (arith, length-remove-le k d)

  pub length-remove_all-le : (ks : List String) (d : Dict V) → length (remove_all ks d) ≤ length d
  unfolding remove_all
  length-remove_all-le [] d = omega arith
  length-remove_all-le (k ∷ ks) d =
      omega (arith, length-remove_all-le ks (remove k d), length-remove-le k d)

  -- The first of two entries that is there.
  abbrev pub first_of : Option V → Option V → Option V
  first_of none b = b
  first_of (some v) b = some v

  pub first_of-none : (o : Option V) → first_of o none ≡ o
  first_of-none none = refl
  first_of-none (some v) = refl

  pub update-HasUniqueKeys : (d e : Dict V) → HasUniqueKeys d → HasUniqueKeys (update d e)
  unfolding update
  update-HasUniqueKeys d [] u = u
  update-HasUniqueKeys d ((k, v) ∷ e) u =
      update-HasUniqueKeys (put k v d) e (put-HasUniqueKeys k v d u)

  -- An entry of the update wins over one that was there.
  pub get-update :
      (j : String) (d e : Dict V)
      → HasUniqueKeys e
      → get j (update d e) ≡ first_of (get j e) (get j d)
  unfolding update get
  get-update j d [] u = refl
  get-update j d ((k, v) ∷ e) u =
      ground (arith, get-update j (put k v d) e u.1, get-put j k v d, eq_iff k j, u.0)

  abbrev pub keys : Dict V → List String
  keys [] = []
  keys ((k, v) ∷ d) = k ∷ keys d

  pub get-absent : (j : String) (d : Dict V) → elem j (keys d) ≡ false → get j d ≡ none
  unfolding get
  get-absent j [] h = refl
  get-absent j ((k, v) ∷ d) h = ground (arith, get-absent j d, h, eq_iff k j, eq_iff j k)

  -- Two updates agree at a key where what they bring agrees.
  pub get-update_same :
      (j : String) (d e f : Dict V)
      → HasUniqueKeys e
      → HasUniqueKeys f
      → get j e ≡ get j f
      → get j (update d e) ≡ get j (update d f)
  get-update_same j d e f u v same = ground (arith, get-update j d e u, get-update j d f v, same)

  pub get-put_if :
      (b : Bool) (j k : String) (v : V) (d : Dict V)
      → get j (put_if b k v d) ≡ (if b then if k == j then some v else get j d else get j d)
  unfolding put_if
  get-put_if true j k v d = get-put j k v d
  get-put_if false j k v d = refl

  pub put_if-HasUniqueKeys :
      (b : Bool) (k : String) (v : V) (d : Dict V)
      → HasUniqueKeys d
      → HasUniqueKeys (put_if b k v d)
  unfolding put_if
  put_if-HasUniqueKeys true k v d u = put-HasUniqueKeys k v d u
  put_if-HasUniqueKeys false k v d u = u

  pub get-put_new :
      (j k : String) (v : V) (d : Dict V)
      → get j (put_new k v d) ≡ (if k == j then first_of (get j d) (some v) else get j d)
  unfolding put_new
  get-put_new j k v d = ground (arith, get-put j k v d, eq_iff k j)

  pub put_new-HasUniqueKeys :
      (k : String) (v : V) (d : Dict V) → HasUniqueKeys d → HasUniqueKeys (put_new k v d)
  unfolding put_new
  put_new-HasUniqueKeys k v d u = ground (arith, put-HasUniqueKeys k v d u)

-- The value that `put_text` writes.
abbrev pub text_value : Option String → Option Json
text_value none = none
text_value (some s) = if is_text s then some (str s) else none

pub get-put_text :
    (j k : String) (o : Option String) (d : Dict Json)
    → get j (put_text k o d) ≡ (if k == j then first_of (text_value o) (get j d) else get j d)
unfolding put_text
get-put_text j k none d = ground arith
get-put_text j k (some s) d = ground (arith, get-put j k (str s) d)

pub put_text-HasUniqueKeys :
    (k : String) (o : Option String) (d : Dict Json)
    → HasUniqueKeys d
    → HasUniqueKeys (put_text k o d)
unfolding put_text
put_text-HasUniqueKeys k none d u = u
put_text-HasUniqueKeys k (some s) d u = ground (arith, put-HasUniqueKeys k (str s) d u)
