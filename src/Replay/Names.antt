-- ===== src/Replay/Names.antt =====
-- tools/lis_verify/pass2_model.py: the texts of the enums' values.
use local_inference_system.Base.{String}
use local_inference_system.Replay.Model.{
  Pass2Status, Pass2ReasonCode, ReproductionEvidenceTier, Pass3Disposition,
}

unfoldable pub pass2_status_value : Pass2Status → String
pass2_status_value Pass2Status.reproduction_verified = "reproduction_verified"
pass2_status_value Pass2Status.comparison_blocked_by_pass0 = "comparison_blocked_by_pass0"
pass2_status_value Pass2Status.token_localization_not_available = "token_localization_not_available"
pass2_status_value Pass2Status.no_mismatch_to_reproduce = "no_mismatch_to_reproduce"
pass2_status_value Pass2Status.source_binding_inconsistent = "source_binding_inconsistent"
pass2_status_value Pass2Status.prefix_material_unavailable = "prefix_material_unavailable"
pass2_status_value Pass2Status.prefix_reproduction_failed = "prefix_reproduction_failed"
pass2_status_value Pass2Status.decode_policy_reproduction_failed =
    "decode_policy_reproduction_failed"
pass2_status_value Pass2Status.checkpoint_step_mapping_mismatch = "checkpoint_step_mapping_mismatch"
pass2_status_value Pass2Status.context_position_mismatch = "context_position_mismatch"
pass2_status_value Pass2Status.unsupported_reproduction_mode = "unsupported_reproduction_mode"
pass2_status_value Pass2Status.inconclusive = "inconclusive"

unfoldable pub pass2_reason_code_value : Pass2ReasonCode → String
pass2_reason_code_value Pass2ReasonCode.source_binding_inconsistent =
    "pass2.source_binding_inconsistent"
pass2_reason_code_value Pass2ReasonCode.pass1_status_not_reproducible =
    "pass2.pass1_status_not_reproducible"
pass2_reason_code_value Pass2ReasonCode.prefix_material_unavailable =
    "pass2.prefix_material_unavailable"
pass2_reason_code_value Pass2ReasonCode.prefix_digest_mismatch = "pass2.prefix_digest_mismatch"
pass2_reason_code_value Pass2ReasonCode.prefix_token_mismatch = "pass2.prefix_token_mismatch"
pass2_reason_code_value Pass2ReasonCode.decode_policy_reproduction_failed =
    "pass2.decode_policy_reproduction_failed"
pass2_reason_code_value Pass2ReasonCode.checkpoint_step_mapping_mismatch =
    "pass2.checkpoint_step_mapping_mismatch"
pass2_reason_code_value Pass2ReasonCode.context_position_mismatch =
    "pass2.context_position_mismatch"
pass2_reason_code_value Pass2ReasonCode.unsupported_reproduction_mode =
    "pass2.unsupported_reproduction_mode"
pass2_reason_code_value Pass2ReasonCode.reproduction_artifact_malformed =
    "pass2.reproduction_artifact_malformed"
pass2_reason_code_value Pass2ReasonCode.verdict_strength_limit_blocks_reproduction =
    "pass2.verdict_strength_limit_blocks_reproduction"

unfoldable pub reproduction_evidence_tier_value : ReproductionEvidenceTier → String
reproduction_evidence_tier_value ReproductionEvidenceTier.independent_rerun_verified =
    "independent_rerun_verified"
reproduction_evidence_tier_value ReproductionEvidenceTier.original_pair_boundary_consistent =
    "original_pair_boundary_consistent"
reproduction_evidence_tier_value ReproductionEvidenceTier.reproduction_request_only =
    "reproduction_request_only"

unfoldable pub pass3_disposition_value : Pass3Disposition → String
pass3_disposition_value Pass3Disposition.ready = "ready"
pass3_disposition_value Pass3Disposition.not_required = "not_required"
pass3_disposition_value Pass3Disposition.blocked_by_pass0 = "blocked_by_pass0"
pass3_disposition_value Pass3Disposition.blocked_by_pass1_evidence = "blocked_by_pass1_evidence"
pass3_disposition_value Pass3Disposition.blocked_by_reproduction = "blocked_by_reproduction"
