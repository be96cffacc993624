-- ===== src/Calibration/ReportMapping.antt =====
-- tools/lis_verify/report_mapping.py: the report's reason for each blocking reason of Pass 0.
use local_inference_system.Base.{
  String, Option, none, some, ◌≡◌, true, arith, contains, contains-keep, is_some,
}
use local_inference_system.Calibration.Model.{
  CalibrationReasonCode, incompatible_decode_policy, input_token_divergence,
  incompatible_model_family, config_fingerprint_mismatch, external_oracle_ineligible,
  prompt_token_array_missing, prompt_token_identity_unverified, block, ComparisonMode, ModeBSubmode,
}
use local_inference_system.Calibration.Equality.{calibration_reason_code_eq}
use local_inference_system.Calibration.Inputs.{PreflightInputs}
use local_inference_system.Calibration.Preflight.{
  effective_severity, has_severity, run_calibration_preflight,
}
use local_inference_system.Calibration.Preflight.Report.{blocking_reasons-eq-keep}

unfoldable pub map_block_reason : CalibrationReasonCode → Option String
map_block_reason incompatible_decode_policy = some "unsupported_comparison"
map_block_reason input_token_divergence = some "input_token_divergence"
map_block_reason incompatible_model_family = some "incompatible_model_family"
map_block_reason config_fingerprint_mismatch = some "unsupported_comparison"
map_block_reason external_oracle_ineligible = some "unsupported_mode"
map_block_reason prompt_token_array_missing = some "unsupported_comparison"
map_block_reason prompt_token_identity_unverified = some "unsupported_comparison"
map_block_reason _ = none

-- Exactly the mapped codes can block, whatever the mode.
block-is_mapped :
    (c : CalibrationReasonCode) (mode : ComparisonMode) (submode : Option ModeBSubmode)
    → has_severity block mode submode c ≡ true
    → is_some (map_block_reason c) ≡ true
unfolding effective_severity map_block_reason
block-is_mapped c mode submode h = ground arith

-- Every blocking reason of a preflight has a reason in the report.
pub map_block_reason-blocking :
    (inputs : PreflightInputs) (c : CalibrationReasonCode)
    → contains c (run_calibration_preflight inputs).blocking_reasons ≡ true
    → is_some (map_block_reason c) ≡ true
map_block_reason-blocking inputs c h =
    block-is_mapped c inputs.declared_mode inputs.declared_submode (
      ground (
        arith,
        contains-keep (has_severity block inputs.declared_mode inputs.declared_submode) c
            (run_calibration_preflight inputs).reason_codes,
        blocking_reasons-eq-keep inputs,
      ))
