-- ===== src/Layers/Normalize.antt =====
-- tools/lis_verify/pass3_inputs.py: `normalize_layer_trace`. Of `materialize` the digest of the text is checked.
pub mod Declared
pub mod Sound
pub mod Total
pub mod Tests
use local_inference_system.Base.{
  ℕ, suc, String, Bool, true, false, not, ◌&&◌, ◌||◌, Option, none, some, List, [], ◌∷◌, ◌++◌, map,
  ◌==◌, ◌!=◌, nat_eq, string_eq, option_eq, list_eq, leb, any, contains, if◌then◌else◌, Outcome, ok,
  err, ◌>>=◌, ◌>>◌, require,
}
use local_inference_system.Base.Text.{concat}
use local_inference_system.Json.Number.{pos}
use local_inference_system.Json.Value.{
  Value, null, int, str, list, dict, Items, nil, cons, Fields, field, end, value_equal,
}
use local_inference_system.Json.Lookup.{get_value, as_text, as_object}
use local_inference_system.Tokens.Reports.{Host, canonical_json_sha256}
use local_inference_system.Replay.Forced.{contains_prohibited_key}
use local_inference_system.Layers.Model.{
  CheckpointCoordinate, checkpoint_coordinate_eq, LogicalKey, logical_key, logical_key_eq,
  CheckpointSummary, CoverageState, CoverageEntry, CheckpointCoverage, CheckpointSummaryArtifact,
  Pass3ReasonCode,
}
use local_inference_system.Layers.Inputs.{
  Parse, malformed, refused, nonnegative_int, positive_int, coordinate, validate_coordinate_order,
  CanonicalLayerTrace, digest_algorithm, digest_version, digest_dtype, digest_byte_order,
  digest_canonicalization,
}
use local_inference_system.Layers.Summaries.{indexed, item_texts, summaries_from, within}
use local_inference_system.Layers.Layout.{
  is_supported_layout, layout_of, coordinates_from, coverage_state_of, detail_of, missing_entry,
  missing_from, keys_of, missing_coordinates_of, meets, some_layer_beyond, is_partition, in_layout,
  coverage_items, check_coverage, read_coverage,
}

unfoldable pub has_prohibited_tensor_payload : Value → Bool
has_prohibited_tensor_payload value =
    contains_prohibited_key ("tensor_payload" ∷ "tensor_values" ∷ "values" ∷ []) value

unfoldable pub materialize : Host → CanonicalLayerTrace → Parse Fields
materialize host trace =
    require (canonical_json_sha256 host (dict trace.materialize) == trace.identity.trace_sha256)
      (malformed "layer trace" " canonical identity is inconsistent")
    >> ok trace.materialize

abbrev pub layout_digest_contract : Value
layout_digest_contract = dict (
    field "algorithm" (str digest_algorithm) (
      field "version" (str digest_version) (
        field "observed_dtype" (str digest_dtype) (
          field "byte_order" (str digest_byte_order)
            (field "canonicalization" (str digest_canonicalization) end)))))

unfoldable pub offers_digest : Value → Bool
offers_digest (list items) = elim (item_texts items) [
  | none ↦ false
  | some texts ↦ contains "digest" texts
]
offers_digest value = false

unfoldable pub precision_of : Value → Parse (String × String)
precision_of (str path) =
    require (path != "") (malformed "precision path" " is required") >> ok ("llama3_decoder", path)
precision_of value = err (malformed "precision path" " is required")

-- The model family and the precision path.
unfoldable pub semantics_of : Value → Parse (String × String)
semantics_of (dict manifest) = elim (get_value "model" manifest) [
  | dict model ↦ elim (get_value "runtime" manifest) [
    | dict runtime ↦
        require (as_text (get_value "family" model) == some "llama3_decoder") (
          refused "only the Llama layer-output layout is supported"
            Pass3ReasonCode.unsupported_checkpoint_layout)
        >> precision_of (get_value "precision_path" runtime)
    | _ ↦
        err
          (refused "trace semantic manifest is malformed" Pass3ReasonCode.binding_metadata_missing)
  ]
  | _ ↦
      err (refused "trace semantic manifest is malformed" Pass3ReasonCode.binding_metadata_missing)
]
semantics_of value =
    err (refused "trace semantic manifest is malformed" Pass3ReasonCode.binding_metadata_missing)

unfoldable pub entries_of : Value → Parse Items
entries_of (list entries) = ok entries
entries_of value = err (malformed "layer_trace" " must be an array")

unfoldable pub coordinates_of : List CheckpointSummary → List CheckpointCoordinate
coordinates_of [] = []
coordinates_of (summary ∷ summaries) = summary.coordinate ∷ coordinates_of summaries

-- The summaries are those of the captured coordinates, in their order.
unfoldable pub check_summaries : List CheckpointCoordinate → List CheckpointSummary → Parse Unit
check_summaries captured summaries = do
  let found = coordinates_of summaries
  validate_coordinate_order found "layer summaries"
  require (within (keys_of found) (keys_of captured) && within (keys_of captured) (keys_of found))
      (malformed "captured coverage" " does not equal semantic summary coordinates")
  require (found == captured) (
      refused "captured coordinates and summaries disagree on order metadata"
        Pass3ReasonCode.checkpoint_alignment_inconsistent)

-- The target of the layout is that of the trace's identity.
unfoldable pub target_step : CanonicalLayerTrace → Fields → Parse ℕ
target_step trace layout = do
  target ← nonnegative_int (get_value "runtime_checkpoint_step" layout) "layout target step"
  require (trace.identity.runtime_checkpoint_step == some target) (
      refused "layout target contradicts bound trace identity"
        Pass3ReasonCode.runtime_checkpoint_step_mismatch)
  ok target

-- What the trace declares: the coverage, the semantics and the entries.
abbrev pub Declared : Type 0
Declared = CheckpointCoverage × ((String × String) × Items)

unfoldable pub read_declared : Host → CanonicalLayerTrace → Parse Declared
read_declared host trace = do
  raw ← materialize host trace
  require (not (has_prohibited_tensor_payload (dict raw)))
      (malformed "full tensor payloads" " are prohibited")
  layout ← layout_of (get_value "checkpoint_layout" raw)
  target ← target_step trace layout
  coverage ← read_coverage target layout
  require
      (offers_digest (get_value "available_summary_fields" layout)
        && value_equal (get_value "digest_contract" layout) layout_digest_contract)
      (refused "layout digest contract is incompatible"
        Pass3ReasonCode.checkpoint_digest_incompatible)
  semantics ← semantics_of (get_value "manifest" raw)
  entries ← entries_of (get_value "layer_trace" raw)
  ok (coverage, (semantics, entries))

unfoldable pub normalize_layer_trace : Host → CanonicalLayerTrace → Parse CheckpointSummaryArtifact
normalize_layer_trace host trace = do
  (coverage, ((family, precision_path), entries)) ← read_declared host trace
  summaries ← summaries_from precision_path 0 entries
  check_summaries coverage.captured_coordinates summaries
  ok (record {
    model_family = family;
    precision_path = precision_path;
    coverage = coverage;
    summaries = summaries;
  })
