-- ===== src/Json/Value.antt =====
-- JSON values, and Python's `==` on them: a bool is the number 0 or 1, an integer equals the
-- float of its value, and the order of an object's fields does not count.
use local_inference_system.Base.{
  ℕ, String, Bool, true, false, ◌&&◌, Option, none, some, List, [], ◌∷◌, ◌≡◌, refl, ◌==◌, string_eq,
  nat_eq, String_discrete, Nat_discrete,
}
use local_inference_system.Json.Number.{ℤ, pos, Float, finite, float_equal}

mutual
  pub data Value : Type 0 where
    null : Value
    bool : Bool → Value
    int : ℤ → Value
    float : Float → Value
    str : String → Value
    list : Items → Value
    dict : Fields → Value

  -- the values of an array, in order
  pub data Items : Type 0 where
    cons : Value → Items → Items
    nil : Items

  -- the keys of an object with their values, in the order of the text
  pub data Fields : Type 0 where
    end : Fields
    field : String → Value → Fields → Fields

-- `d.get(key)` with a test whether the key is there; the keys of an object are distinct
unfoldable pub get : String → Fields → Option Value
unfolding String_discrete
get key end = none
get key (field k v rest) = elim (k == key) [ true ↦ some v | false ↦ get key rest ]

unfoldable pub size : Fields → ℕ
size end = 0
size (field k v rest) = ℕ.suc (size rest)

unfoldable pub items_list : Items → List Value
items_list nil = []
items_list (cons v vs) = v ∷ items_list vs

abbrev number : Value → Option Float
number (bool true) = some (finite (pos 1) 0)
number (bool false) = some (finite (pos 0) 0)
number (int z) = some (finite z 0)
number (float f) = some f
number _ = none

abbrev same_number : Option Float → Option Float → Bool
same_number (some f) (some g) = float_equal f g
same_number _ _ = false

unfoldable mutual
  unfolding get size float_equal String_discrete Nat_discrete

  pub value_equal : Value → Value → Bool
  value_equal null null = true
  value_equal (str s) (str t) = s == t
  value_equal (list vs) (list ws) = items_equal vs ws
  value_equal (dict fs) (dict gs) = size fs == size gs && fields_within fs gs
  value_equal v w = same_number (number v) (number w)

  pub items_equal : Items → Items → Bool
  items_equal nil nil = true
  items_equal (cons v vs) (cons w ws) = value_equal v w && items_equal vs ws
  items_equal _ _ = false

  pub fields_within : Fields → Fields → Bool
  fields_within end gs = true
  fields_within (field k v fs) gs =
      elim (get k gs) [ none ↦ false | some w ↦ value_equal v w ] && fields_within fs gs

value_equal_test :
    value_equal
      (dict (field "a" (int (pos 1)) (field "b" null end)))
      (dict (field "b" null (field "a" (bool true) end)))
    ≡ true
unfolding value_equal
value_equal_test = refl
