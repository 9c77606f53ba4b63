-- ===== src/Value.antt =====
-- JavaScript values as the parsers of the packages meet them: what `JSON.parse` returns, and
-- `undefined`. A member of an object is looked up among its own properties.
use universal_smart_wallet.Prelude.{
  ℕ, ◌≡◌, String, Bool, List, [], ◌∷◌, Option, none, some, Map, lookup,
}

-- `negsuc n` is -(n + 1). Every other number (fractions, NaN, the infinities) is a `real`, named by
-- an identifier.
pub data Number : Type 0 where
  pos : ℕ → Number
  negsuc : ℕ → Number
  real : ℕ → Number

mutual
  pub data Value : Type 0 where
    undefined : Value
    null : Value
    bool : Bool → Value
    num : Number → Value
    str : String → Value
    arr : Values → Value
    obj : Fields → Value

  pub data Values : Type 0 where
    nil : Values
    cons : Value → Values → Values

  pub data Fields : Type 0 where
    end : Fields
    field : String → Value → Fields → Fields

abbrev pub elements : Values → List Value
elements nil = []
elements (cons v vs) = v ∷ elements vs

abbrev pub of_elements : List Value → Values
of_elements [] = nil
of_elements (v ∷ vs) = cons v (of_elements vs)

-- `Object.entries(value)`
abbrev pub entries : Fields → Map Value
entries end = []
entries (field k v fs) = (k, v) ∷ entries fs

abbrev pub of_entries : Map Value → Fields
of_entries [] = end
of_entries ((k, v) ∷ m) = field k v (of_entries m)

pub elements-of_elements : (vs : List Value) → elements (of_elements vs) ≡ vs
elements-of_elements [] = cc
elements-of_elements (v ∷ vs) = cc (elements-of_elements vs)

pub entries-of_entries : (m : Map Value) → entries (of_entries m) ≡ m
entries-of_entries [] = cc
entries-of_entries ((k, v) ∷ m) = cc (entries-of_entries m)

abbrev pub or_undefined : Option Value → Value
or_undefined none = undefined
or_undefined (some v) = v

-- `input.key`
unfoldable pub member : String → Map Value → Value
unfolding lookup
member k m = or_undefined (lookup k m)
