-- ===== src/Layers/Layout.antt =====
-- tools/lis_verify/pass3_inputs.py: the layout and the coverage that `normalize_layer_trace` reads.
use local_inference_system.Base.{
  ℕ, suc, String, Bool, true, false, not, ◌&&◌, ◌||◌, Option, none, some, List, [], ◌∷◌, ◌++◌, ◌==◌,
  nat_eq, string_eq, option_eq, list_eq, leb, contains, if◌then◌else◌, ok, err, ◌>>=◌, ◌>>◌,
  require,
}
use local_inference_system.Json.Number.{pos}
use local_inference_system.Json.Value.{
  Value, null, int, str, list, dict, Items, nil, cons, Fields, value_equal,
}
use local_inference_system.Json.Lookup.{get_value, as_text}
use local_inference_system.Layers.Model.{
  CheckpointCoordinate, checkpoint_coordinate_eq, LogicalKey, logical_key, logical_key_eq,
  CoverageState, CoverageEntry, CheckpointCoverage, Pass3ReasonCode,
}
use local_inference_system.Layers.Inputs.{
  Parse, malformed, refused, positive_int, coordinate, validate_coordinate_order,
}
use local_inference_system.Layers.Summaries.{indexed, within}

unfoldable pub is_supported_layout : Fields → Bool
is_supported_layout layout =
    as_text (get_value "layout_name" layout) == some "llama_layer_output_summary"
    && value_equal (get_value "layout_version" layout) (int (pos 1))
    && as_text (get_value "tensor_role" layout) == some "layer_output"
    && value_equal (get_value "stage_order" layout) (int (pos 0))
    && as_text (get_value "ordering_semantics" layout) == some "runtime_step_layer_stage_ordinal"
    && as_text (get_value "duplicate_coordinate_policy" layout)
      == some "reject_artifact_before_write"

unfoldable pub layout_of : Value → Parse Fields
layout_of (dict layout) =
    require (is_supported_layout layout)
      (refused "unsupported checkpoint layout" Pass3ReasonCode.unsupported_checkpoint_layout)
    >> ok layout
layout_of value = err (
    refused "versioned checkpoint layout is unavailable"
      Pass3ReasonCode.unsupported_checkpoint_layout)

unfoldable pub coordinates_from : String → ℕ → Items → Parse (List CheckpointCoordinate)
coordinates_from name index nil = ok []
coordinates_from name index (cons item rest) = do
  c ← coordinate item (indexed name index)
  cs ← coordinates_from name (suc index) rest
  ok (c ∷ cs)

-- `CoverageState(value)`
unfoldable pub coverage_state_of : Value → Option CoverageState
coverage_state_of (str s) =
    if s == "captured"
    then some CoverageState.captured
    else if s == "not_captured"
    then some CoverageState.not_captured
    else if s == "unsupported"
    then some CoverageState.unsupported
    else if s == "malformed"
    then some CoverageState.malformed
    else if s == "unexpectedly_absent"
    then some CoverageState.unexpectedly_absent
    else none
coverage_state_of value = none

unfoldable pub detail_of : Value → String → Parse (Option String)
detail_of null label = ok none
detail_of (str s) label = ok (some s)
detail_of value label = err (malformed label " detail must be a string")

unfoldable pub missing_entry : String → Value → Parse CoverageEntry
missing_entry label (dict item) = elim (coverage_state_of (get_value "state" item)) [
  | none ↦ err (malformed label " has an unsupported state")
  | some state ↦ do
    detail ← detail_of (get_value "detail" item) label
    c ← coordinate (get_value "coordinate" item) label
    ok (record { coordinate = c; state = state; detail = detail })
]
missing_entry label value = err (malformed label " must be an object")

unfoldable pub missing_from : ℕ → Items → Parse (List CoverageEntry)
missing_from index nil = ok []
missing_from index (cons item rest) = do
  entry ← missing_entry (indexed "missing" index) item
  entries ← missing_from (suc index) rest
  ok (entry ∷ entries)

unfoldable pub keys_of : List CheckpointCoordinate → List LogicalKey
keys_of [] = []
keys_of (c ∷ cs) = logical_key c ∷ keys_of cs

unfoldable pub missing_coordinates_of : List CoverageEntry → List CheckpointCoordinate
missing_coordinates_of [] = []
missing_coordinates_of (entry ∷ entries) = entry.coordinate ∷ missing_coordinates_of entries

unfoldable pub meets : List LogicalKey → List LogicalKey → Bool
meets [] ks = false
meets (k ∷ rest) ks = contains k ks || meets rest ks

unfoldable pub some_layer_beyond : ℕ → List CheckpointCoordinate → Bool
some_layer_beyond total [] = false
some_layer_beyond total (c ∷ cs) = leb total c.layer_index || some_layer_beyond total cs

-- The declared sets of keys: what is requested is captured or missing, and not both.
unfoldable pub is_partition : List LogicalKey → List LogicalKey → List LogicalKey → Bool
unfolding within meets
is_partition requested captured missing =
    not (meets captured missing)
    && within requested (captured ++ missing)
    && within (captured ++ missing) requested

unfoldable pub in_layout : ℕ → List CheckpointCoordinate → Bool
in_layout target [] = true
in_layout target (c ∷ cs) =
    c.runtime_checkpoint_step == target
    && c.tensor_role == "layer_output"
    && c.batch_index == 0
    && c.sequence_index == 0
    && c.stage_order == 0
    && in_layout target cs

-- The arrays of the coverage.
unfoldable pub coverage_items : Fields → Parse (Items × (Items × Items))
coverage_items layout = elim (get_value "requested_coordinates" layout) [
  | list requested ↦ elim (get_value "captured_coordinates" layout) [
    | list captured ↦ elim (get_value "missing_coordinates" layout) [
      | list missing ↦ ok (requested, (captured, missing))
      | _ ↦ err (malformed "explicit requested, captured, and missing coverage" " is required")
    ]
    | _ ↦ err (malformed "explicit requested, captured, and missing coverage" " is required")
  ]
  | _ ↦ err (malformed "explicit requested, captured, and missing coverage" " is required")
]

unfoldable pub check_coverage :
    ℕ → ℕ → List CheckpointCoordinate → List CheckpointCoordinate → List CoverageEntry → Parse Unit
check_coverage target total requested captured missing = do
  validate_coordinate_order requested "requested coverage"
  validate_coordinate_order captured "captured coverage"
  validate_coordinate_order (missing_coordinates_of missing) "missing coverage"
  require
      (is_partition (keys_of requested) (keys_of captured)
          (keys_of (missing_coordinates_of missing))
        && not (some_layer_beyond total requested))
      (malformed "checkpoint coverage declarations" " are inconsistent")
  require (in_layout target requested) (
      refused "requested coordinate violates the MVP layout"
        Pass3ReasonCode.checkpoint_alignment_inconsistent)

unfoldable pub read_coverage : ℕ → Fields → Parse CheckpointCoverage
read_coverage target layout = do
  total ← positive_int (get_value "total_layer_count" layout) "total_layer_count"
  (requested_items, (captured_items, missing_items)) ← coverage_items layout
  requested ← coordinates_from "requested" 0 requested_items
  captured ← coordinates_from "captured" 0 captured_items
  missing ← missing_from 0 missing_items
  check_coverage target total requested captured missing
  ok (record {
    requested_coordinates = requested;
    captured_coordinates = captured;
    missing_coordinates = missing;
    ordered_coordinates = requested;
    total_layer_count = some total;
    layout_name = "llama_layer_output_summary";
  })
