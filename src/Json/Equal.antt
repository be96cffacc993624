-- ===== src/Json/Equal.antt =====
-- What Python's `==` on two objects says of the values that they have for a key.
use local_inference_system.Base.{
  ℕ, String, Bool, true, false, ◌&&◌, Option, none, some, ◌≡◌, refl, arith, ◌==◌, string_eq, nat_eq,
  inl, inr, ◌⊎◌,
}
use local_inference_system.Json.Number.{pos, float_equal-pos}
use local_inference_system.Json.Value.{
  Value, int, str, dict, Fields, end, field, get, value_equal, fields_within,
}

chosen :
    (b : Bool) (v : Value) (rest : Option Value) {value : Value}
    → ◌≡◌ {A = Option Value} (elim b [ true ↦ some v | false ↦ rest ]) (some value)
    → ((b ≡ true) × (v ≡ value)) ⊎ (rest ≡ some value)
chosen true v rest h = inl (refl, ground (arith, h))
chosen false v rest h = inr h

get-field :
    (key k : String) (v : Value) (rest : Fields) {value : Value}
    → get key (field k v rest) ≡ some value
    → ((k ≡ key) × (v ≡ value)) ⊎ (get key rest ≡ some value)
unfolding get
get-field key k v rest h = elim (chosen (k == key) v (get key rest) h) [
  | inl (same, held) ↦ inl (ground (arith, same), held)
  | inr later ↦ inr later
]

is_found : (found : Option Value) (v : Value) → Bool
is_found found v = elim found [ none ↦ false | some w ↦ value_equal v w ]

found-some :
    (found : Option Value) (v : Value)
    → is_found found v ≡ true
    → (w : Value) × (found ≡ some w) × (value_equal v w ≡ true)
unfolding is_found
found-some none v h = absurd (ground arith)
found-some (some w) v h = (w, refl, h)

both_hold : (a b : Bool) → (a && b) ≡ true → (a ≡ true) × (b ≡ true)
both_hold true true h = (refl, refl)
both_hold true false h = (refl, h)
both_hold false b h = absurd (ground arith)

within-field :
    (k : String) (v : Value) (fs gs : Fields)
    → fields_within (field k v fs) gs ≡ true
    → (is_found (get k gs) v ≡ true) × (fields_within fs gs ≡ true)
unfolding value_equal is_found
within-field k v fs gs h = both_hold (is_found (get k gs) v) (fields_within fs gs) h

pub fields_within-get :
    (key : String) (fs gs : Fields) {value : Value}
    → fields_within fs gs ≡ true
    → get key fs ≡ some value
    → (w : Value) × (get key gs ≡ some w) × (value_equal value w ≡ true)
unfolding get
fields_within-get key end gs h e = absurd (ground (arith, e))
fields_within-get key (field k v fs) gs {value} h e =
    let (found, rest) = within-field k v fs gs h in
    elim (get-field key k v fs e) [
      | inl (same, held) ↦ found-some (get key gs) value (rw (same, held) at found)
      | inr later ↦ fields_within-get key fs gs rest later
    ]

pub dict_equal-get :
    (key : String) (fs gs : Fields) {v : Value}
    → value_equal (dict fs) (dict gs) ≡ true
    → get key fs ≡ some v
    → (w : Value) × (get key gs ≡ some w) × (value_equal v w ≡ true)
unfolding value_equal
dict_equal-get key fs gs h e = fields_within-get key fs gs (ground (arith, h)) e

pub value_equal-pos : (m n : ℕ) → value_equal (int (pos m)) (int (pos n)) ≡ true → m ≡ n
unfolding value_equal
value_equal-pos m n h = float_equal-pos m n h

pub value_equal-str : (s t : String) → value_equal (str s) (str t) ≡ true → s ≡ t
unfolding value_equal
value_equal-str s t h = ground (arith, h)
