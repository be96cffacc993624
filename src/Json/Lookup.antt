-- ===== src/Json/Lookup.antt =====
-- `_at`, `_first`, `_collect_locations` of tools/lis_verify/pass1_inputs.py, and the tests
-- `isinstance(value, …)` that the readers use.
use local_inference_system.Base.{String, Option, none, some, List, [], ◌∷◌, ◌≡◌, refl}
use local_inference_system.Base.Text.{concat}
use local_inference_system.Json.Value.{Value, null, str, dict, Fields, end, field, get}

-- The value at a path of keys, if every key on the way is there.
unfoldable pub at : Value → List String → Option Value
unfolding get
at value [] = some value
at (dict fields) (key ∷ path) = elim (get key fields) [ none ↦ none | some v ↦ at v path ]
at _ (key ∷ path) = none

-- The value at the first path that is present, `null` if none is.
unfoldable pub first : Value → List (List String) → Value
unfolding at
first value [] = null
first value (path ∷ paths) = elim (at value path) [ none ↦ first value paths | some v ↦ v ]

-- `".".join(path)`
unfoldable pub dotted : List String → String
dotted [] = ""
dotted (key ∷ []) = key
dotted (key ∷ path) = concat (key ∷ "." ∷ dotted path ∷ [])

unfoldable pub collect_locations : Value → List (List String) → List (String × Value)
unfolding at dotted
collect_locations raw [] = []
collect_locations raw (path ∷ paths) =
    let rest = collect_locations raw paths in
    elim (at raw path) [ none ↦ rest | some v ↦ (dotted path, v) ∷ rest ]

-- `value if isinstance(value, str) else None`
abbrev pub as_text : Value → Option String
as_text (str s) = some s
as_text _ = none

-- `value if isinstance(value, dict) else {}`
abbrev pub as_object : Value → Fields
as_object (dict fields) = fields
as_object _ = end

-- `d.get(key)`, with `null` for None
abbrev pub get_value : String → Fields → Value
get_value key fields = elim (get key fields) [ none ↦ null | some v ↦ v ]

first_test :
    first
      (dict (field "model_family" (str "qwen") end))
      (("model" ∷ "family" ∷ []) ∷ ("model_family" ∷ []) ∷ [])
    ≡ str "qwen"
unfolding first
first_test = refl
