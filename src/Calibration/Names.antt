-- ===== src/Calibration/Names.antt =====
-- The `.value` of the enums of Pass 0: the text that an artifact carries.
use local_inference_system.Base.{String}
use local_inference_system.Calibration.Model.{
  ComparisonMode, ComparisonEligibility, Pass0Verdict, SelectionMode, PromptBoundary, Confidence,
  PromptIdentityEvidence, ConfigSemanticsStatus, KvWriteStatus, OracleScope, VerdictStrengthLimit,
  CalibrationReasonCode,
}

unfoldable pub comparison_mode_value : ComparisonMode → String
comparison_mode_value ComparisonMode.backend_differential = "backend_differential"
comparison_mode_value ComparisonMode.runtime_differential = "runtime_differential"
comparison_mode_value ComparisonMode.external_semantic = "external_semantic"

unfoldable pub comparison_eligibility_value : ComparisonEligibility → String
comparison_eligibility_value ComparisonEligibility.comparable = "comparable"
comparison_eligibility_value ComparisonEligibility.limited_comparison = "limited_comparison"
comparison_eligibility_value ComparisonEligibility.incompatible = "incompatible"

unfoldable pub pass0_verdict_value : Pass0Verdict → String
pass0_verdict_value Pass0Verdict.comparison_allowed = "comparison_allowed"
pass0_verdict_value Pass0Verdict.limited_comparison_allowed = "limited_comparison_allowed"
pass0_verdict_value Pass0Verdict.comparison_blocked = "comparison_blocked"

unfoldable pub selection_mode_value : SelectionMode → String
selection_mode_value SelectionMode.raw_greedy = "raw_greedy"
selection_mode_value SelectionMode.policy_modified_greedy = "policy_modified_greedy"

unfoldable pub prompt_boundary_value : PromptBoundary → String
prompt_boundary_value PromptBoundary.direct_token_ids = "direct_token_ids"
prompt_boundary_value PromptBoundary.text = "text"

unfoldable pub confidence_value : Confidence → String
confidence_value Confidence.high = "high"
confidence_value Confidence.medium = "medium"
confidence_value Confidence.low = "low"

unfoldable pub prompt_identity_evidence_value : PromptIdentityEvidence → String
prompt_identity_evidence_value PromptIdentityEvidence.array_equal = "array_equal"
prompt_identity_evidence_value PromptIdentityEvidence.digest_only = "digest_only"
prompt_identity_evidence_value PromptIdentityEvidence.unverified = "unverified"
prompt_identity_evidence_value PromptIdentityEvidence.divergent = "divergent"

unfoldable pub config_semantics_status_value : ConfigSemanticsStatus → String
config_semantics_status_value ConfigSemanticsStatus.calibrated = "calibrated"
config_semantics_status_value ConfigSemanticsStatus.requires_fix_or_guard = "requires_fix_or_guard"
config_semantics_status_value ConfigSemanticsStatus.unknown = "unknown"

unfoldable pub kv_write_status_value : KvWriteStatus → String
kv_write_status_value KvWriteStatus.round_to_nearest_even = "round_to_nearest_even"
kv_write_status_value KvWriteStatus.truncate_or_unverified = "truncate_or_unverified"
kv_write_status_value KvWriteStatus.not_applicable = "not_applicable"

unfoldable pub oracle_scope_value : OracleScope → String
oracle_scope_value OracleScope.internal_lis_only = "internal_lis_only"
oracle_scope_value OracleScope.internal_lis_and_runtime = "internal_lis_and_runtime"
oracle_scope_value OracleScope.external_semantic = "external_semantic"

unfoldable pub verdict_strength_limit_value : VerdictStrengthLimit → String
verdict_strength_limit_value VerdictStrengthLimit.no_comparison = "no_comparison"
verdict_strength_limit_value VerdictStrengthLimit.token_localization_only =
    "token_localization_only"
verdict_strength_limit_value VerdictStrengthLimit.checkpoint_confirmation_allowed =
    "checkpoint_confirmation_allowed"

unfoldable pub calibration_reason_code_value : CalibrationReasonCode → String
calibration_reason_code_value CalibrationReasonCode.incompatible_decode_policy =
    "incompatible_decode_policy"
calibration_reason_code_value CalibrationReasonCode.policy_modified_greedy =
    "policy_modified_greedy"
calibration_reason_code_value CalibrationReasonCode.decode_policy_not_raw = "decode_policy_not_raw"
calibration_reason_code_value CalibrationReasonCode.decode_policy_uncalibrated =
    "decode_policy_uncalibrated"
calibration_reason_code_value CalibrationReasonCode.tokenizer_boundary_uncalibrated =
    "tokenizer_boundary_uncalibrated"
calibration_reason_code_value CalibrationReasonCode.prompt_token_array_missing =
    "prompt_token_array_missing"
calibration_reason_code_value CalibrationReasonCode.prompt_token_identity_unverified =
    "prompt_token_identity_unverified"
calibration_reason_code_value CalibrationReasonCode.input_token_divergence =
    "input_token_divergence"
calibration_reason_code_value CalibrationReasonCode.confidence_downgrade_text_prompt_boundary =
    "confidence_downgrade_text_prompt_boundary"
calibration_reason_code_value CalibrationReasonCode.config_semantics_uncalibrated =
    "config_semantics_uncalibrated"
calibration_reason_code_value CalibrationReasonCode.rms_norm_eps_runtime_unbound =
    "rms_norm_eps_runtime_unbound"
calibration_reason_code_value CalibrationReasonCode.config_fingerprint_mismatch =
    "config_fingerprint_mismatch"
calibration_reason_code_value CalibrationReasonCode.runtime_config_fingerprint_missing =
    "runtime_config_fingerprint_missing"
calibration_reason_code_value CalibrationReasonCode.requires_fix_or_guard = "requires_fix_or_guard"
calibration_reason_code_value CalibrationReasonCode.incompatible_model_family =
    "incompatible_model_family"
calibration_reason_code_value CalibrationReasonCode.numeric_policy_uncalibrated =
    "numeric_policy_uncalibrated"
calibration_reason_code_value CalibrationReasonCode.kv_write_rounding_unverified =
    "kv_write_rounding_unverified"
calibration_reason_code_value CalibrationReasonCode.fma_policy_backend_defined =
    "fma_policy_backend_defined"
calibration_reason_code_value CalibrationReasonCode.reduction_order_backend_defined =
    "reduction_order_backend_defined"
calibration_reason_code_value CalibrationReasonCode.tolerance_caveat = "tolerance_caveat"
calibration_reason_code_value CalibrationReasonCode.external_oracle_ineligible =
    "external_oracle_ineligible"
calibration_reason_code_value CalibrationReasonCode.hf_default_greedy_ineligible =
    "hf_default_greedy_ineligible"
calibration_reason_code_value CalibrationReasonCode.hf_forced_token_runtime_eligible =
    "hf_forced_token_runtime_eligible"
calibration_reason_code_value CalibrationReasonCode.internal_lis_differential_only =
    "internal_lis_differential_only"
calibration_reason_code_value CalibrationReasonCode.oracle_scope_limited = "oracle_scope_limited"
calibration_reason_code_value CalibrationReasonCode.forced_prefix_report_json_channel_missing =
    "forced_prefix_report_json_channel_missing"
