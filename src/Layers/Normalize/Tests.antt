-- ===== src/Layers/Normalize/Tests.antt =====
-- A layer trace of two layers, of which one is captured.
use local_inference_system.Base.{
  ℕ, String, some, none, List, [], ◌∷◌, ◌≡◌, refl, ok, Nat_discrete, String_discrete,
  Option-discrete, List-discrete,
}
use local_inference_system.Json.Number.{pos, float_equal}
use local_inference_system.Json.Value.{
  Value, int, str, list, dict, Items, nil, cons, Fields, end, field, get, value_equal, size,
}
use local_inference_system.Tokens.Reports.{Host, canonical_json_sha256, sha256_text}
use local_inference_system.Layers.Model.{
  CheckpointCoordinate-discrete, CheckpointCoordinate, CheckpointSummaryArtifact, CoverageState,
  Pass3Result, LogicalKey-discrete, logical_key,
}
use local_inference_system.Layers.Inputs.{
  CanonicalLayerTrace, trace_from_object, digest_algorithm, digest_version, digest_dtype,
  digest_byte_order, digest_canonicalization, nonnegative_int, target_of, positive_int, coordinate,
  digest, dimensions, envelope, is_behind, manifest_sha256, order_from, order_lt, prod, shape,
  tensor_role_of, texts_of, validate_coordinate_order,
}
use local_inference_system.Layers.Localize.{localize}
use local_inference_system.Layers.Layout.{
  layout_of, is_supported_layout, read_coverage, check_coverage, coordinates_from, coverage_items,
  coverage_state_of, detail_of, in_layout, is_partition, keys_of, meets, missing_coordinates_of,
  missing_entry, missing_from, some_layer_beyond,
}
use local_inference_system.Layers.Normalize.{
  normalize_layer_trace, layout_digest_contract, read_declared, materialize,
  has_prohibited_tensor_payload, target_step, check_summaries, coordinates_of, entries_of,
  offers_digest, precision_of, semantics_of,
}
use local_inference_system.Layers.Normalize.Sound.{IsNormalized, normalize-IsNormalized}
use local_inference_system.Layers.Normalize.Total.{IsLocalized, normalized-IsLocalized}
use local_inference_system.Replay.Forced.{contains_prohibited_key}
use local_inference_system.Base.Text.{decimal, hex2}
use local_inference_system.Json.Render.{canonical_json}
use local_inference_system.Layers.Summaries.{
  check_aggregates, entry_summary, flag, has_semantics, has_some_key, indexed, is_null_aggregate,
  is_offer, is_text, item_texts, offers, some_null, summaries_from, summary_of, text_or_empty,
  with_entry, within,
}
use local_inference_system.Product.Contract.{after_prefix, hex_digits, is_sha256}
use local_inference_system.Product.ForcedPrefix.{has_keys}

abbrev pub host : Host
host = record { sha256_hex = λ text. "00"; float_repr = λ f. "1.0" }

abbrev number : ℕ → Value
number n = int (pos n)

abbrev on_layer : ℕ → Fields → Fields
on_layer layer rest = field "runtime_checkpoint_step" (number 3) (
    field "layer_index" (number layer) (
      field "tensor_role" (str "layer_output") (
        field "batch_index" (number 0) (
          field "sequence_index" (number 0)
            (field "stage_order" (number 0) (field "execution_ordinal" (number layer) rest))))))

abbrev texts : List String → Items
texts [] = nil
texts (s ∷ ss) = cons (str s) (texts ss)

abbrev digest_value : String → Value
digest_value value = dict (
    field "algorithm" (str digest_algorithm) (
      field "version" (str digest_version) (
        field "tensor_role" (str "layer_output") (
          field "observed_dtype" (str digest_dtype) (
            field "byte_order" (str digest_byte_order) (
              field "canonicalization" (str digest_canonicalization) (
                field "shape" (list (cons (number 2) (cons (number 4) nil)))
                  (field "value" (str value) end))))))))

abbrev entry : String → Value
entry value = dict (
    on_layer 0 (
      field "name" (str "layer.0.output") (
        field "phase" (str "decode") (
          field "observed_dtype" (str "fp32") (
            field "element_count" (number 8) (
              field "shape" (list (cons (number 2) (cons (number 4) nil))) (
                field "available_summary_fields"
                  (list (texts ("min" ∷ "max" ∷ "mean" ∷ "l2" ∷ "nan" ∷ "inf" ∷ "digest" ∷ [])))
                  (field "min" (number 0) (
                    field "max" (number 2) (
                      field "mean" (number 1) (
                        field "l2" (number 3) (
                          field "nan" (number 0) (
                            field "inf" (number 0)
                              (field "digest" (digest_value value) end))))))))))))))

abbrev layout : Fields
layout = field "layout_name" (str "llama_layer_output_summary") (
    field "layout_version" (number 1) (
      field "tensor_role" (str "layer_output") (
        field "stage_order" (number 0) (
          field "ordering_semantics" (str "runtime_step_layer_stage_ordinal") (
            field "duplicate_coordinate_policy" (str "reject_artifact_before_write") (
              field "runtime_checkpoint_step" (number 3) (
                field "total_layer_count" (number 2) (
                  field "requested_coordinates"
                    (list (cons (dict (on_layer 0 end)) (cons (dict (on_layer 1 end)) nil)))
                    (field "captured_coordinates" (list (cons (dict (on_layer 0 end)) nil)) (
                      field "missing_coordinates"
                        (list (
                          cons
                            (dict (
                              field "state" (str "not_captured")
                                (field "coordinate" (dict (on_layer 1 end)) end)))
                            nil))
                        (field "available_summary_fields" (list (texts ("digest" ∷ [])))
                          (field "digest_contract" layout_digest_contract end))))))))))))

abbrev pub manifest : Value
manifest = dict (
    field "model" (dict (field "family" (str "llama3_decoder") end)) (
      field "runtime"
        (dict (field "precision_path" (str "fp32") (field "layer_checkpoint_step" (number 3) end)))
        end))

abbrev pub set_id : String
set_id = "aset1:000000000000000000000000000000ab"

abbrev pub trace_with : String → CanonicalLayerTrace
trace_with value = trace_from_object host (
    field "schema" (str "lis.execution_artifact/v1") (
      field "kind" (str "layer_trace") (
        field "artifact_set_id" (str set_id) (
          field "checkpoint_layout" (dict layout) (
            field "manifest" manifest (field "layer_trace" (list (cons (entry value) nil)) end))))))

abbrev pub first_digest : String
first_digest = "sha256:00000000000000000000000000000000000000000000000000000000000000ab"

abbrev pub other_digest : String
other_digest = "sha256:00000000000000000000000000000000000000000000000000000000000000cd"

abbrev pub coordinate_on : ℕ → CheckpointCoordinate
coordinate_on layer = record {
  runtime_checkpoint_step = 3;
  layer_index = layer;
  tensor_role = "layer_output";
  batch_index = 0;
  sequence_index = 0;
  stage_order = 0;
  execution_ordinal = layer;
}

abbrev pub artifact_with : String → CheckpointSummaryArtifact
artifact_with value = record {
  model_family = "llama3_decoder";
  precision_path = "fp32";
  coverage = record {
    requested_coordinates = coordinate_on 0 ∷ coordinate_on 1 ∷ [];
    captured_coordinates = coordinate_on 0 ∷ [];
    missing_coordinates =
        record { coordinate = coordinate_on 1; state = CoverageState.not_captured; detail = none }
        ∷ [];
    ordered_coordinates = coordinate_on 0 ∷ coordinate_on 1 ∷ [];
    total_layer_count = some 2;
    layout_name = "llama_layer_output_summary";
  };
  summaries =
      record {
        coordinate = coordinate_on 0;
        source_checkpoint_name = "layer.0.output";
        phase = "decode";
        shape = 2 ∷ 4 ∷ [];
        observed_dtype = "fp32";
        precision_path = "fp32";
        element_count = some 8;
        digest = some (record {
          algorithm = digest_algorithm;
          version = digest_version;
          tensor_role = "layer_output";
          shape = 2 ∷ 4 ∷ [];
          observed_dtype = "fp32";
          byte_order = digest_byte_order;
          canonicalization = digest_canonicalization;
          value = value;
        });
      }
      ∷ [];
}

pub normalized_test :
    (normalize_layer_trace host (trace_with first_digest) ≡ ok (artifact_with first_digest))
    × (normalize_layer_trace host (trace_with other_digest) ≡ ok (artifact_with other_digest))
unfolding CheckpointCoordinate-discrete normalize_layer_trace read_declared materialize
    String_discrete canonical_json_sha256 trace_from_object has_prohibited_tensor_payload
    contains_prohibited_key layout_of get is_supported_layout Option-discrete value_equal
    target_step nonnegative_int target_of read_coverage positive_int List-discrete Nat_discrete
    decimal hex2 float_equal canonical_json size coordinate digest dimensions envelope is_behind
    manifest_sha256 order_from order_lt prod shape tensor_role_of texts_of validate_coordinate_order
    LogicalKey-discrete logical_key check_coverage check_summaries coordinates_from coordinates_of
    coverage_items coverage_state_of detail_of entries_of in_layout is_partition keys_of meets
    missing_coordinates_of missing_entry missing_from offers_digest precision_of semantics_of
    some_layer_beyond check_aggregates entry_summary flag has_semantics has_some_key indexed
    is_null_aggregate is_offer is_text item_texts offers some_null summaries_from summary_of
    text_or_empty with_entry within after_prefix hex_digits is_sha256 has_keys sha256_text
normalized_test = (refl, refl)

normalize-IsNormalized_example : IsNormalized (some 3) (artifact_with first_digest)
unfolding trace_from_object target_of get
normalize-IsNormalized_example =
    normalize-IsNormalized host (trace_with first_digest) (artifact_with first_digest)
      normalized_test.0

normalized-IsLocalized_example :
    (r : Pass3Result) × (localize (artifact_with first_digest) (artifact_with other_digest) []
      ≡ ok r)
    × IsLocalized r.status
normalized-IsLocalized_example =
    normalized-IsLocalized host (trace_with first_digest) (trace_with other_digest) []
      (artifact_with first_digest) (artifact_with other_digest) normalized_test.0 normalized_test.1
