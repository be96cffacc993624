-- ===== src/Layers/Localize.antt =====
-- tools/lis_verify/pass3.py: `run_coverage_scoped_layer_localization` from the normalized traces on.
-- The proofs are in the modules below.
pub mod Sound
use local_inference_system.Base.{
  ℕ, String, Bool, true, false, not, ◌&&◌, ◌||◌, Option, none, some, List, [], ◌∷◌, ◌++◌,
  if◌then◌else◌, unique, ◌!=◌, string_eq, is_nonempty, Outcome, ok, err, ◌>>=◌,
}
use local_inference_system.Layers.Model
use local_inference_system.Layers.Model.{
  CheckpointCoordinate, CheckpointSummaryArtifact, CoverageAnalysis, Pass3Status, Pass3ReasonCode,
  Pass3DownstreamDisposition, blocked, exploratory_localization_only, suspect_interval_available,
  Pass3Result,
}
use local_inference_system.Layers.Coverage.{coverage_of, alignment_failure, summary_map}
use local_inference_system.Layers.Compare.{
  Comparison, unavailable, compared, compare_from, interval,
}

abbrev pub reason_if : Bool → Pass3ReasonCode → List Pass3ReasonCode
reason_if true code = code ∷ []
reason_if false code = []

-- `bool(coverage.reference_only or coverage.candidate_only)`
unfoldable pub is_asymmetric : CoverageAnalysis → Bool
is_asymmetric coverage = is_nonempty coverage.reference_only || is_nonempty coverage.candidate_only

-- A result with the other fields at their defaults.
unfoldable pub blocked_result :
    CoverageAnalysis → Pass3Status → List Pass3ReasonCode → List String → Pass3Result
blocked_result coverage status reasons warnings = record {
  status = status;
  downstream_disposition = blocked;
  coverage = coverage;
  comparisons = [];
  last_observed_equivalent_coordinate = none;
  first_observed_mismatch_coordinate = none;
  earliest_observable_suspect_layer = none;
  suspect_interval = none;
  reason_codes = reasons;
  warnings = warnings;
}

-- The result for what the loop found.
unfoldable pub conclude : CoverageAnalysis → List String → Comparison → Pass3Result
unfolding blocked_result
conclude coverage warnings (unavailable comparisons) =
    record (blocked_result coverage Pass3Status.comparison_policy_unavailable
      (Pass3ReasonCode.comparison_policy_unavailable ∷ []) warnings) { comparisons = comparisons }
conclude coverage warnings (compared comparisons last (some mismatch)) = record {
  status = Pass3Status.observable_mismatch_found;
  downstream_disposition = suspect_interval_available;
  coverage = coverage;
  comparisons = comparisons;
  last_observed_equivalent_coordinate = last;
  first_observed_mismatch_coordinate = some mismatch;
  earliest_observable_suspect_layer = some mismatch.layer_index;
  suspect_interval = some (interval last mismatch);
  reason_codes =
      Pass3ReasonCode.observable_mismatch_found
      ∷ reason_if (is_asymmetric coverage) Pass3ReasonCode.asymmetric_coverage;
  warnings = warnings;
}
conclude coverage warnings (compared comparisons last none) = record {
  status = Pass3Status.no_mismatch_in_captured_coverage;
  downstream_disposition = exploratory_localization_only;
  coverage = coverage;
  comparisons = comparisons;
  last_observed_equivalent_coordinate = last;
  first_observed_mismatch_coordinate = none;
  earliest_observable_suspect_layer = none;
  suspect_interval = none;
  reason_codes =
      Pass3ReasonCode.no_mismatch_in_captured_coverage
      ∷ reason_if (is_asymmetric coverage) Pass3ReasonCode.asymmetric_coverage;
  warnings = warnings;
}

-- No reason is given twice, so `_unique` changes nothing here.
unfoldable pub insufficient : CoverageAnalysis → List String → Pass3Result
unfolding blocked_result
insufficient coverage warnings =
    blocked_result coverage Pass3Status.insufficient_common_coverage
      (Pass3ReasonCode.insufficient_common_coverage
          ∷ reason_if (not (is_nonempty coverage.reference_captured))
              Pass3ReasonCode.reference_checkpoint_missing
        ++ reason_if (not (is_nonempty coverage.candidate_captured))
            Pass3ReasonCode.candidate_checkpoint_missing
        ++ reason_if (is_asymmetric coverage) Pass3ReasonCode.asymmetric_coverage)
      warnings

-- The parameter `warnings` is those of Pass 2.
unfoldable pub localize :
    CheckpointSummaryArtifact → CheckpointSummaryArtifact → List String → Outcome String Pass3Result
unfolding blocked_result
localize reference candidate warnings =
    let coverage = coverage_of reference candidate in
    if not (is_nonempty coverage.common_captured) then ok (insufficient coverage warnings) else do
      alignment ← alignment_failure reference candidate coverage
      elim alignment [
        | some fault ↦ ok (
            blocked_result coverage Pass3Status.checkpoint_alignment_inconsistent
              (Pass3ReasonCode.checkpoint_alignment_inconsistent ∷ [])
              (unique (warnings ++ (fault ∷ []))))
        | none ↦ do
          found ←
              compare_from (summary_map reference) (summary_map candidate) [] none
                coverage.common_comparable
          ok (conclude coverage warnings found)
      ]
