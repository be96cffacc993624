-- ===== src/Layers/Exits.antt =====
-- tools/lis_verify/pass3.py: the exits of `run_coverage_scoped_layer_localization`. The check of the
-- artifact of Pass 2 is not modelled: what it gives is any of its reasons, or that it passed.
pub mod Reasons
pub mod BindingReasons
mod Tests
use local_inference_system.Base.{
  String, Bool, true, false, Option, none, some, List, [], ◌∷◌, ◌≡◌, Outcome, ok, err, ◌>>=◌,
}
use local_inference_system.Tokens.Reports.{Host, CanonicalRunReport}
use local_inference_system.Replay.Model.{Pass2Result}
use local_inference_system.Layers.Model.{
  CoverageAnalysis, CheckpointSummaryArtifact, Pass3Status, Pass3ReasonCode, Pass3Result,
}
use local_inference_system.Layers.Inputs.{Pass3InputError, Parse, CanonicalLayerTrace}
use local_inference_system.Layers.Normalize.{normalize_layer_trace}
use local_inference_system.Layers.Localize.{blocked_result, localize}
use local_inference_system.Layers.Gates.{
  SourceArtifactBinding, typed_pass2_ready, validate_both_source_bindings,
}

-- `CoverageAnalysis()`
abbrev pub no_coverage : CoverageAnalysis
no_coverage = record {
  reference_requested = [];
  reference_captured = [];
  candidate_requested = [];
  candidate_captured = [];
  common_captured = [];
  reference_only = [];
  candidate_only = [];
  common_comparable = [];
  reference_missing = [];
  candidate_missing = [];
}

-- `_blocked`, with the warnings of Pass 2
unfoldable pub blocked_exit : Pass3Status → Pass3ReasonCode → List String → Pass3Result
blocked_exit status reason warnings = blocked_result no_coverage status (reason ∷ []) warnings

-- The reasons of `validate_pass2_artifact_coherence`.
unfoldable pub is_coherence_reason : Pass3ReasonCode → Bool
is_coherence_reason Pass3ReasonCode.pass2_artifact_identity_inconsistent = true
is_coherence_reason Pass3ReasonCode.pass2_object_artifact_inconsistent = true
is_coherence_reason Pass3ReasonCode.checkpoint_summary_malformed = true
is_coherence_reason _ = false

-- The status for a binding that fails.
unfoldable pub binding_status : Pass3ReasonCode → Pass3Status
binding_status Pass3ReasonCode.runtime_checkpoint_step_mismatch =
    Pass3Status.checkpoint_alignment_inconsistent
binding_status Pass3ReasonCode.unsupported_checkpoint_layout =
    Pass3Status.unsupported_checkpoint_layout
binding_status _ = Pass3Status.source_binding_inconsistent

-- The status for a trace that cannot be normalized.
unfoldable pub normalization_status : Pass3ReasonCode → Pass3Status
normalization_status Pass3ReasonCode.unsupported_checkpoint_layout =
    Pass3Status.unsupported_checkpoint_layout
normalization_status Pass3ReasonCode.checkpoint_alignment_inconsistent =
    Pass3Status.checkpoint_alignment_inconsistent
normalization_status Pass3ReasonCode.duplicate_checkpoint_coordinate =
    Pass3Status.checkpoint_alignment_inconsistent
normalization_status Pass3ReasonCode.runtime_checkpoint_step_mismatch =
    Pass3Status.checkpoint_alignment_inconsistent
normalization_status Pass3ReasonCode.summary_field_missing =
    Pass3Status.comparison_policy_unavailable
normalization_status Pass3ReasonCode.checkpoint_digest_incompatible =
    Pass3Status.comparison_policy_unavailable
normalization_status _ = Pass3Status.checkpoint_summary_malformed

unfoldable pub normalize_both :
    Host
    → CanonicalLayerTrace
    → CanonicalLayerTrace
    → Parse (CheckpointSummaryArtifact × CheckpointSummaryArtifact)
normalize_both host reference_trace candidate_trace = do
  reference ← normalize_layer_trace host reference_trace
  candidate ← normalize_layer_trace host candidate_trace
  ok (reference, candidate)

module _ (host : Host) (pass2 : Pass2Result)
    (reference_report candidate_report : CanonicalRunReport)
    (reference_trace candidate_trace : CanonicalLayerTrace) where
  -- The binding of the reports and traces.
  abbrev pub bindings : Parse (SourceArtifactBinding × SourceArtifactBinding)
  bindings =
      validate_both_source_bindings host pass2 reference_report candidate_report reference_trace
        candidate_trace

  -- The results that the run may return, each with the gates that it has passed.
  pub data Exit : Pass3Result → Type 0 where
    not_ready :
        (reason : Pass3ReasonCode)
        → typed_pass2_ready pass2 ≡ some reason
        → Exit (blocked_exit Pass3Status.comparison_blocked_by_pass2 reason pass2.warnings)
    incoherent :
        (reason : Pass3ReasonCode)
        → typed_pass2_ready pass2 ≡ none
        → is_coherence_reason reason ≡ true
        → Exit (blocked_exit Pass3Status.comparison_blocked_by_pass2 reason pass2.warnings)
    unbound :
        (error : Pass3InputError)
        → typed_pass2_ready pass2 ≡ none
        → bindings ≡ err error
        → Exit (blocked_exit (binding_status error.reason) error.reason pass2.warnings)
    not_normalized :
        (both : SourceArtifactBinding × SourceArtifactBinding) (error : Pass3InputError)
        → typed_pass2_ready pass2 ≡ none
        → bindings ≡ ok both
        → normalize_both host reference_trace candidate_trace ≡ err error
        → Exit (blocked_exit (normalization_status error.reason) error.reason pass2.warnings)
    localized :
        (both : SourceArtifactBinding × SourceArtifactBinding)
        (reference candidate : CheckpointSummaryArtifact) {r : Pass3Result}
        → typed_pass2_ready pass2 ≡ none
        → bindings ≡ ok both
        → normalize_both host reference_trace candidate_trace ≡ ok (reference, candidate)
        → localize reference candidate pass2.warnings ≡ ok r
        → Exit r
