-- ===== src/Layers/Tests.antt =====
-- Pass 3 at two small traces, and its theorems there.
use local_inference_system.Base.{
  ℕ, String, true, false, not, ◌&&◌, none, some, List, [], ◌∷◌, ◌≡◌, ◌↔◌, ◌<◌, refl, contains,
  is_nonempty, ok, nat_eq, Nat_discrete, String_discrete, List-discrete, Option-discrete,
}
use local_inference_system.Layers.Model
use local_inference_system.Layers.Model.{
  CheckpointCoordinate, CheckpointDigest, CheckpointSummary, CheckpointSummaryArtifact, Pass3Status,
  Pass3Result, logical_key, LogicalKey-discrete, logical_key_eq,
}
use local_inference_system.Layers.Coverage.{
  coverage_of, summary_map, alignment_failure, put, find, map_onto, is_captured, coordinate_map,
  values_of, coordinate_basis_conflicts, basis_of, pair_fault, summary_pair, pairs_fault,
}
use local_inference_system.Layers.Coverage.Keys.{keys, coverage_of-keys}
use local_inference_system.Layers.Compare.{interval, verdict_at, digests_equal, compare_from}
use local_inference_system.Layers.Compare.First.{
  IsBehind, AllEqual, FirstDifference, interval-unobserved,
}
use local_inference_system.Layers.Localize.{localize, conclude, is_asymmetric}
use local_inference_system.Layers.Localize.Sound.{localize-mismatch, localize-equal}

abbrev layer : ℕ → CheckpointCoordinate
layer n = record {
  runtime_checkpoint_step = 4;
  layer_index = n;
  tensor_role = "layer_output";
  batch_index = 0;
  sequence_index = 0;
  stage_order = 0;
  execution_ordinal = n;
}

abbrev digest : String → CheckpointDigest
digest value = record {
  algorithm = "fnv1a64";
  version = "v1";
  tensor_role = "layer_output";
  shape = 8 ∷ [];
  observed_dtype = "f32";
  byte_order = "little";
  canonicalization = "none";
  value = value;
}

abbrev summary : ℕ → String → CheckpointSummary
summary n value = record {
  coordinate = layer n;
  source_checkpoint_name = "layer";
  phase = "decode";
  shape = 8 ∷ [];
  observed_dtype = "f32";
  precision_path = "f32";
  element_count = some 8;
  digest = some (digest value);
}

abbrev trace : List CheckpointCoordinate → List CheckpointSummary → CheckpointSummaryArtifact
trace coordinates summaries = record {
  model_family = "qwen3_dense_decoder";
  precision_path = "f32";
  coverage = record {
    requested_coordinates = coordinates;
    captured_coordinates = coordinates;
    missing_coordinates = [];
    ordered_coordinates = coordinates;
    total_layer_count = some 8;
    layout_name = "decoder";
  };
  summaries = summaries;
}

abbrev reference : CheckpointSummaryArtifact
reference =
    trace (layer 0 ∷ layer 3 ∷ layer 5 ∷ []) (summary 0 "aa" ∷ summary 3 "bb" ∷ summary 5 "cc" ∷ [])

abbrev candidate : CheckpointSummaryArtifact
candidate = trace (layer 0 ∷ layer 3 ∷ []) (summary 0 "aa" ∷ summary 3 "dd" ∷ [])

abbrev found : Pass3Result
found = record {
  status = Pass3Status.observable_mismatch_found;
  downstream_disposition = Model.suspect_interval_available;
  coverage = coverage_of reference candidate;
  comparisons =
      record { coordinate = layer 0; equivalent = true }
      ∷ record { coordinate = layer 3; equivalent = false }
      ∷ [];
  last_observed_equivalent_coordinate = some (layer 0);
  first_observed_mismatch_coordinate = some (layer 3);
  earliest_observable_suspect_layer = some 3;
  suspect_interval = some (interval (some (layer 0)) (layer 3));
  reason_codes =
      Model.Pass3ReasonCode.observable_mismatch_found ∷ Model.Pass3ReasonCode.asymmetric_coverage
      ∷ [];
  warnings = [];
}

found_test : localize reference candidate [] ≡ ok found
unfolding localize coverage_of LogicalKey-discrete Nat_discrete logical_key String_discrete
    alignment_failure coordinate_basis_conflicts Option-discrete pairs_fault summary_pair find
    summary_map pair_fault List-discrete compare_from verdict_at digests_equal basis_of
    coordinate_map is_captured map_onto put values_of conclude is_asymmetric
found_test = refl

localize-mismatch_example :
    (mismatch : CheckpointCoordinate) × FirstDifference
      (summary_map reference)
      (summary_map candidate)
      (coverage_of reference candidate).common_comparable
      none
      found.last_observed_equivalent_coordinate
      mismatch
    × (found.first_observed_mismatch_coordinate ≡ some mismatch)
    × (found.earliest_observable_suspect_layer ≡ some mismatch.layer_index)
    × (found.suspect_interval ≡ some (interval found.last_observed_equivalent_coordinate mismatch))
localize-mismatch_example = localize-mismatch reference candidate [] {r = found} found_test refl

abbrev equal : Pass3Result
equal = record {
  status = Pass3Status.no_mismatch_in_captured_coverage;
  downstream_disposition = Model.exploratory_localization_only;
  coverage = coverage_of candidate candidate;
  comparisons =
      record { coordinate = layer 0; equivalent = true }
      ∷ record { coordinate = layer 3; equivalent = true }
      ∷ [];
  last_observed_equivalent_coordinate = some (layer 3);
  first_observed_mismatch_coordinate = none;
  earliest_observable_suspect_layer = none;
  suspect_interval = none;
  reason_codes = Model.Pass3ReasonCode.no_mismatch_in_captured_coverage ∷ [];
  warnings = [];
}

equal_test : localize candidate candidate [] ≡ ok equal
unfolding localize coverage_of LogicalKey-discrete Nat_discrete logical_key String_discrete
    alignment_failure coordinate_basis_conflicts Option-discrete pairs_fault summary_pair find
    summary_map pair_fault List-discrete compare_from verdict_at digests_equal basis_of
    coordinate_map is_captured map_onto put values_of conclude is_asymmetric
equal_test = refl

localize-equal_example :
    (is_nonempty (coverage_of candidate candidate).common_comparable ≡ true)
    × AllEqual
        (summary_map candidate)
        (summary_map candidate)
        (coverage_of candidate candidate).common_comparable
localize-equal_example = localize-equal candidate candidate [] {r = equal} equal_test refl

interval-unobserved_example :
    contains 2 (interval (some (layer 0)) (layer 3)).unobserved_layer_indices ≡ true
    ↔ ((2 < (layer 3).layer_index) × IsBehind (some (layer 0)) 2)
interval-unobserved_example = interval-unobserved (some (layer 0)) (layer 3) 2

coverage_of-keys_example :
    let coverage = coverage_of reference candidate in
    let key = logical_key (layer 5) in
    let ref = keys reference.coverage.captured_coordinates in
    let cand = keys candidate.coverage.captured_coordinates in
    (contains key (keys coverage.common_comparable) ≡ (contains key ref && contains key cand))
    × (contains key (keys coverage.reference_only) ≡ (contains key ref && not (contains key cand)))
    × (contains key (keys coverage.candidate_only) ≡ (contains key cand && not (contains key ref)))
coverage_of-keys_example = coverage_of-keys reference candidate (logical_key (layer 5))
