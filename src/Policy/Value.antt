-- ===== src/Policy/Value.antt =====
-- Decoded YAML and JSON, as the policy parsers get it. The keys of a mapping are texts, as in JSON.
use paybond_kit_python.Prelude.{
  ℕ, suc, ◌*◌, String, Bool, true, false, Option, none, some, List, [], ◌∷◌, ltb, ◌≡◌, refl, ap,
}
use paybond_kit_python.Prelude.Dict.{Dict, lookup}

-- A float that is not below 0: `rational a b` is a / (b + 1). The comparison of Python's ints and
-- floats is exact, and `nan` compares as false.
pub data Number : Type 0 where
  rational : ℕ → ℕ → Number
  infinity nan : Number

-- a > b
abbrev pub gt : Number → Number → Bool
gt (rational a b) (rational c d) = ltb (c * suc b) (a * suc d)
gt infinity (rational c d) = true
gt _ _ = false

-- `negative n` is the int -(n + 1), and `negative_float` a float below 0, whichever it is.
mutual
  pub data Value : Type 0 where
    null : Value
    bool : Bool → Value
    int : ℕ → Value
    negative : ℕ → Value
    float : Number → Value
    negative_float : Value
    str : String → Value
    list : Items → Value
    mapping : Fields → Value

  pub data Items : Type 0 where
    nil : Items
    cons : Value → Items → Items

  pub data Fields : Type 0 where
    end : Fields
    field : String → Value → Fields → Fields

abbrev pub entries : Fields → Dict Value
entries end = []
entries (field k v rest) = (k, v) ∷ entries rest

abbrev pub fields_of : Dict Value → Fields
fields_of [] = end
fields_of ((k, v) ∷ rest) = field k v (fields_of rest)

abbrev pub elements : Items → List Value
elements nil = []
elements (cons v rest) = v ∷ elements rest

abbrev pub items_of : List Value → Items
items_of [] = nil
items_of (v ∷ rest) = cons v (items_of rest)

pub entries-fields_of : (d : Dict Value) → entries (fields_of d) ≡ d
entries-fields_of [] = refl
entries-fields_of ((k, v) ∷ rest) = ap (λ d. (k, v) ∷ d) (entries-fields_of rest)

pub elements-items_of : (vs : List Value) → elements (items_of vs) ≡ vs
elements-items_of [] = refl
elements-items_of (v ∷ rest) = ap (λ d. v ∷ d) (elements-items_of rest)

abbrev pub or_null : Option Value → Value
or_null none = null
or_null (some v) = v

-- `mapping.get(key)`, which is None where the key is missing
unfoldable pub get : String → Dict Value → Value
get key d = or_null (lookup key d)
