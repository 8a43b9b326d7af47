-- ===== src/Json.antt =====
-- The JSON values that claims, payloads and custom attributes hold. Numbers are natural: no claim
-- that the program writes is negative or fractional.
use nanoidp.Prelude.{ℕ, String, Bool, List, [], ◌∷◌}

mutual
  pub data Json : Type 0 where
    null : Json
    bool : Bool → Json
    num : ℕ → Json
    str : String → Json
    arr : Items → Json
    obj : Fields → Json

  pub data Items : Type 0 where
    nil : Items
    cons : Json → Items → Items

  pub data Fields : Type 0 where
    end : Fields
    field : String → Json → Fields → Fields

-- A list of texts as a JSON array.
abbrev pub texts : List String → Items
texts [] = nil
texts (x ∷ xs) = cons (str x) (texts xs)

-- A dict as a JSON object.
abbrev pub fields : List (String × Json) → Fields
fields [] = end
fields ((k, v) ∷ d) = field k v (fields d)
