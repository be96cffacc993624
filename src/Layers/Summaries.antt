-- ===== src/Layers/Summaries.antt =====
-- tools/lis_verify/pass3_inputs.py: the entries of a layer trace that `normalize_layer_trace` reads.
-- The aggregates of an entry are checked and left out of its summary, which nothing reads them from.
-- An integer that is too large for `float` raises OverflowError there, and passes here.
use local_inference_system.Base.{
  ℕ, suc, Eq, String, Bool, true, false, not, ◌&&◌, ◌||◌, Option, none, some, List, [], ◌∷◌, ◌==◌,
  nat_eq, string_eq, option_eq, contains, is_some, if◌then◌else◌, ok, err, ◌>>=◌, ◌>>◌, require,
}
use local_inference_system.Base.Text.{concat, decimal}
use local_inference_system.Json.Number.{pos}
use local_inference_system.Json.Value.{
  Value, null, int, float, str, list, dict, Items, nil, cons, Fields, get, value_equal,
}
use local_inference_system.Json.Lookup.{get_value, as_text}
use local_inference_system.Product.ForcedPrefix.{has_keys}
use local_inference_system.Layers.Model.{CheckpointCoordinate, CheckpointSummary}
use local_inference_system.Layers.Inputs.{
  Parse, malformed, nonnegative_int, coordinate, shape, prod, digest, digest_dtype,
}

-- `f"{name}[{index}]"`
unfoldable pub indexed : String → ℕ → String
indexed name index = concat (name ∷ "[" ∷ decimal index ∷ "]" ∷ [])

-- `semantic_markers`
abbrev pub semantic_markers : List String
semantic_markers =
    "runtime_checkpoint_step" ∷ "layer_index" ∷ "tensor_role" ∷ "batch_index" ∷ "sequence_index"
    ∷ "stage_order" ∷ "execution_ordinal" ∷ "observed_dtype" ∷ "element_count" ∷ []

unfoldable pub has_some_key : List String → Fields → Bool
has_some_key [] fields = false
has_some_key (k ∷ ks) fields = is_some (get k fields) || has_some_key ks fields

-- The texts of an array, if all its values are texts.
unfoldable pub item_texts : Items → Option (List String)
item_texts nil = some []
item_texts (cons (str s) rest) = elim (item_texts rest) [ none ↦ none | some ss ↦ some (s ∷ ss) ]
item_texts (cons value rest) = none

unfoldable pub within {ℓ} : {A : Type ℓ} → ⦃e : Eq A⦄ → List A → List A → Bool
within [] ys = true
within (x ∷ xs) ys = contains x ys && within xs ys

abbrev pub aggregate_fields : List String
aggregate_fields = "min" ∷ "max" ∷ "mean" ∷ "l2" ∷ "nan" ∷ "inf" ∷ []

-- The set of the texts is one of the two sets that a summary may offer.
unfoldable pub is_offer : List String → Bool
unfolding within
is_offer texts = within aggregate_fields texts && within texts ("digest" ∷ aggregate_fields)

unfoldable pub offers : Value → Bool
unfolding item_texts is_offer
offers (list items) = elim (item_texts items) [ none ↦ false | some texts ↦ is_offer texts ]
offers _ = false

unfoldable pub is_text : Value → Bool
is_text (str s) = true
is_text _ = false

unfoldable pub has_semantics : Fields → CheckpointCoordinate → Bool
unfolding is_text offers
has_semantics entry c =
    as_text (get_value "name" entry)
      == some (concat ("layer." ∷ decimal c.layer_index ∷ ".output" ∷ []))
    && is_text (get_value "phase" entry)
    && as_text (get_value "observed_dtype" entry) == some digest_dtype
    && offers (get_value "available_summary_fields" entry)

-- Whether the aggregate is null; another value has to be a number, and not a bool.
unfoldable pub is_null_aggregate : Value → Option Bool
is_null_aggregate null = some true
is_null_aggregate (int z) = some false
is_null_aggregate (float f) = some false
is_null_aggregate _ = none

-- Whether one of the aggregates is null.
unfoldable pub some_null : Fields → String → List String → Parse Bool
some_null entry label [] = ok false
some_null entry label (name ∷ names) = elim (is_null_aggregate (get_value name entry)) [
  | none ↦ err (malformed (concat (label ∷ "." ∷ name ∷ [])) " is malformed")
  | some absent ↦ do later ← some_null entry label names; ok (absent || later)
]

-- `value not in (0, 1, False, True)` refuses the flag, and `bool(value)` is its value.
unfoldable pub flag : Value → Option Bool
flag value =
    if value_equal value (int (pos 0))
    then some false
    else if value_equal value (int (pos 1))
    then some true
    else none

-- The two flags, and a null aggregate only where one of them is set.
unfoldable pub check_aggregates : Fields → String → Parse Unit
check_aggregates entry label = do
  absent ← some_null entry label ("min" ∷ "max" ∷ "mean" ∷ "l2" ∷ [])
  elim (flag (get_value "nan" entry)) [
    | none ↦ err (malformed label " nonfinite flags are malformed")
    | some nan ↦ elim (flag (get_value "inf" entry)) [
      | none ↦ err (malformed label " nonfinite flags are malformed")
      | some inf ↦
          require (not absent || nan || inf)
            (malformed label " null aggregate lacks nonfinite metadata")
    ]
  ]

unfoldable pub text_or_empty : Value → String
text_or_empty (str s) = s
text_or_empty _ = ""

-- The summary of an entry that has all the markers.
unfoldable pub summary_of : String → String → Fields → Parse CheckpointSummary
summary_of precision_path label entry = do
  c ← coordinate (dict entry) label
  dims ← shape (get_value "shape" entry) label
  count ← nonnegative_int (get_value "element_count" entry) (concat (label ∷ ".element_count" ∷ []))
  require (count == prod dims) (malformed label " element count contradicts shape")
  require (has_semantics entry c) (malformed label " semantic metadata is malformed")
  check_aggregates entry label
  d ← digest (get_value "digest" entry) dims c.tensor_role
  ok (record {
    coordinate = c;
    source_checkpoint_name = text_or_empty (get_value "name" entry);
    phase = text_or_empty (get_value "phase" entry);
    shape = dims;
    observed_dtype = digest_dtype;
    precision_path = precision_path;
    element_count = some count;
    digest = some d;
  })

-- An entry without a marker is passed over.
unfoldable pub entry_summary : String → String → Value → Parse (Option CheckpointSummary)
entry_summary precision_path label (dict entry) =
    if not (has_some_key semantic_markers entry) then ok none else (do
      require (has_keys semantic_markers entry)
          (malformed label " has partial semantic coordinates")
      summary ← summary_of precision_path label entry
      ok (some summary))
entry_summary precision_path label value = err (malformed label " must be an object")

unfoldable pub with_entry :
    Option CheckpointSummary → List CheckpointSummary → List CheckpointSummary
with_entry none summaries = summaries
with_entry (some summary) summaries = summary ∷ summaries

unfoldable pub summaries_from : String → ℕ → Items → Parse (List CheckpointSummary)
summaries_from precision_path index nil = ok []
summaries_from precision_path index (cons entry rest) = do
  first ← entry_summary precision_path (indexed "layer_trace" index) entry
  later ← summaries_from precision_path (suc index) rest
  ok (with_entry first later)
