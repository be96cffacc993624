-- ===== src/Json/Render.antt =====
-- `canonical_json` of tools/lis_verify/pass1_inputs.py and `canonical_json_bytes` of
-- tools/lis_verify/product_contract.py: compact JSON with sorted keys and no escapes outside
-- ASCII. What Python writes for a float is the parameter `float_repr`.
use Prim.Native.Char.{Char, code}
use Prim.Native.String.{◌∷◌ as ◌∷ₛ◌, [] as empty}
use Prim.Native.String
use Prim.Native.Nat.{Ordering}
use local_inference_system.Base.{
  suc, String, true, false, List, [], ◌∷◌, ◌≡◌, refl, ◌==◌, nat_eq, Nat_discrete, if◌then◌else◌,
  ltb,
}
use local_inference_system.Base.Text.{concat, decimal, hex2}
use local_inference_system.Json.Number.{ℤ, pos, negsuc, Float}
use local_inference_system.Json.Value.{
  Value, null, bool, int, float, str, list, dict, Items, nil, cons, Fields, end, field,
}

escaped_char : Char → String
escaped_char c =
    let n = code c in
    if n == 34
    then "\\\""
    else if n == 92
    then "\\\\"
    else if n == 10
    then "\\n"
    else if n == 13
    then "\\r"
    else if n == 9
    then "\\t"
    else if n == 12
    then "\\f"
    else if n == 8
    then "\\b"
    else if ltb n 32
    then concat ("\\u00" ∷ hex2 n ∷ [])
    else c ∷ₛ empty

escaped : String → String
escaped String.[] = ""
escaped (String.◌∷◌ c s) = concat (escaped_char c ∷ escaped s ∷ [])

quoted : String → String
quoted s = concat ("\"" ∷ escaped s ∷ "\"" ∷ [])

-- `sort_keys=True`: the rendered fields, by the code points of their keys
insert_field : String → String → List (String × String) → List (String × String)
insert_field k v [] = (k, v) ∷ []
insert_field k v ((j, w) ∷ rest) =
    let later = insert_field k v rest in
    elim (String.compare j k) [ Ordering.gt ↦ (k, v) ∷ (j, w) ∷ rest | _ ↦ (j, w) ∷ later ]

joined_fields : List (String × String) → String
joined_fields [] = ""
joined_fields ((k, v) ∷ []) = concat (quoted k ∷ ":" ∷ v ∷ [])
joined_fields ((k, v) ∷ rest) = concat (quoted k ∷ ":" ∷ v ∷ "," ∷ joined_fields rest ∷ [])

joined : List String → String
joined [] = ""
joined (s ∷ []) = s
joined (s ∷ rest) = concat (s ∷ "," ∷ joined rest ∷ [])

integer_text : ℤ → String
integer_text (pos n) = decimal n
integer_text (negsuc n) = concat ("-" ∷ decimal (suc n) ∷ [])

module _ (float_repr : Float → String) where
  unfoldable mutual
    unfolding escaped escaped_char quoted insert_field joined_fields joined integer_text decimal
        Nat_discrete

    pub canonical_json : Value → String
    canonical_json null = "null"
    canonical_json (bool true) = "true"
    canonical_json (bool false) = "false"
    canonical_json (int z) = integer_text z
    canonical_json (float f) = float_repr f
    canonical_json (str s) = quoted s
    canonical_json (list items) = concat ("[" ∷ joined (rendered_items items) ∷ "]" ∷ [])
    canonical_json (dict fields) = concat ("{" ∷ joined_fields (rendered_fields fields) ∷ "}" ∷ [])

    pub rendered_items : Items → List String
    rendered_items nil = []
    rendered_items (cons v items) = canonical_json v ∷ rendered_items items

    pub rendered_fields : Fields → List (String × String)
    rendered_fields end = []
    rendered_fields (field k v fields) = insert_field k (canonical_json v) (rendered_fields fields)

canonical_json_test :
    canonical_json
      (λ _. "")
      (dict (field "b" (list (cons (int (pos 1)) (cons null nil))) (field "a" (str "x\"y") end)))
    ≡ "{\"a\":\"x\\\"y\",\"b\":[1,null]}"
unfolding canonical_json
canonical_json_test = refl
