-- ===== src/Tokens/Names.antt =====
-- tools/lis_verify/pass1_model.py: the texts of the enums' values.
use local_inference_system.Base.{String}
use local_inference_system.Tokens.Model.{
  Pass1Status, comparison_blocked_by_pass0, token_equivalent_on_observed_range,
  first_mismatch_found, unsupported_comparison, inconclusive, MismatchKind,
  SelectedTokenEvidenceLevel, Pass2Disposition, EvidenceCompleteness, PrefixAvailability,
  Pass1ReasonCode,
}

unfoldable pub pass1_status_value : Pass1Status → String
pass1_status_value comparison_blocked_by_pass0 = "comparison_blocked_by_pass0"
pass1_status_value token_equivalent_on_observed_range = "token_equivalent_on_observed_range"
pass1_status_value first_mismatch_found = "first_mismatch_found"
pass1_status_value Pass1Status.input_token_divergence = "input_token_divergence"
pass1_status_value Pass1Status.selected_token_array_missing = "selected_token_array_missing"
pass1_status_value Pass1Status.selected_token_identity_unverified =
    "selected_token_identity_unverified"
pass1_status_value unsupported_comparison = "unsupported_comparison"
pass1_status_value inconclusive = "inconclusive"

unfoldable pub mismatch_kind_value : MismatchKind → String
mismatch_kind_value MismatchKind.token_id_mismatch = "token_id_mismatch"
mismatch_kind_value MismatchKind.length_mismatch_or_early_termination =
    "length_mismatch_or_early_termination"

unfoldable pub selected_token_evidence_level_value : SelectedTokenEvidenceLevel → String
selected_token_evidence_level_value SelectedTokenEvidenceLevel.array_exact = "array_exact"
selected_token_evidence_level_value SelectedTokenEvidenceLevel.digest_only = "digest_only"
selected_token_evidence_level_value SelectedTokenEvidenceLevel.metadata_only = "metadata_only"
selected_token_evidence_level_value SelectedTokenEvidenceLevel.missing = "missing"

unfoldable pub pass2_disposition_value : Pass2Disposition → String
pass2_disposition_value Pass2Disposition.ready = "ready"
pass2_disposition_value Pass2Disposition.not_required = "not_required"
pass2_disposition_value Pass2Disposition.blocked_by_pass0 = "blocked_by_pass0"
pass2_disposition_value Pass2Disposition.blocked_by_evidence = "blocked_by_evidence"
pass2_disposition_value Pass2Disposition.blocked_by_strength_limit = "blocked_by_strength_limit"

unfoldable pub evidence_completeness_value : EvidenceCompleteness → String
evidence_completeness_value EvidenceCompleteness.complete = "complete"
evidence_completeness_value EvidenceCompleteness.partial = "partial"
evidence_completeness_value EvidenceCompleteness.incomplete = "incomplete"

unfoldable pub prefix_availability_value : PrefixAvailability → String
prefix_availability_value PrefixAvailability.embedded = "embedded"
prefix_availability_value PrefixAvailability.exact_source_required = "exact_source_required"
prefix_availability_value PrefixAvailability.not_applicable = "not_applicable"

unfoldable pub pass1_reason_code_value : Pass1ReasonCode → String
pass1_reason_code_value Pass1ReasonCode.selected_token_array_missing =
    "pass1.selected_token_array_missing"
pass1_reason_code_value Pass1ReasonCode.selected_token_identity_unverified =
    "pass1.selected_token_identity_unverified"
pass1_reason_code_value Pass1ReasonCode.selected_token_metadata_inconsistent =
    "pass1.selected_token_metadata_inconsistent"
pass1_reason_code_value Pass1ReasonCode.gate_run_identity_inconsistent =
    "pass1.gate_run_identity_inconsistent"
pass1_reason_code_value Pass1ReasonCode.unsupported_run_artifact = "pass1.unsupported_run_artifact"
pass1_reason_code_value Pass1ReasonCode.unsupported_batch_shape = "pass1.unsupported_batch_shape"
