-- ===== src/Replay/Model.antt =====
-- tools/lis_verify/pass2_model.py: the enums and data classes of Pass 2.
use local_inference_system.Base.{ℕ, String, Bool, Option, List}
use local_inference_system.Calibration.Model.{
  ComparisonMode, Pass0Verdict, ComparisonEligibility, VerdictStrengthLimit,
}
use local_inference_system.Tokens.Model.{Pass1Status, Pass2Disposition}

pub data Pass2Status : Type 0 where
  reproduction_verified comparison_blocked_by_pass0 : Pass2Status
  token_localization_not_available no_mismatch_to_reproduce : Pass2Status
  source_binding_inconsistent prefix_material_unavailable : Pass2Status
  prefix_reproduction_failed decode_policy_reproduction_failed : Pass2Status
  checkpoint_step_mapping_mismatch context_position_mismatch : Pass2Status
  unsupported_reproduction_mode inconclusive : Pass2Status

pub data Pass2ReasonCode : Type 0 where
  source_binding_inconsistent pass1_status_not_reproducible : Pass2ReasonCode
  prefix_material_unavailable prefix_digest_mismatch : Pass2ReasonCode
  prefix_token_mismatch decode_policy_reproduction_failed : Pass2ReasonCode
  checkpoint_step_mapping_mismatch context_position_mismatch : Pass2ReasonCode
  unsupported_reproduction_mode reproduction_artifact_malformed : Pass2ReasonCode
  verdict_strength_limit_blocks_reproduction : Pass2ReasonCode

pub data ReproductionEvidenceTier : Type 0 where
  independent_rerun_verified original_pair_boundary_consistent : ReproductionEvidenceTier
  reproduction_request_only : ReproductionEvidenceTier

pub data Pass3Disposition : Type 0 where
  ready not_required blocked_by_pass0 blocked_by_pass1_evidence : Pass3Disposition
  blocked_by_reproduction : Pass3Disposition

pub record Pass2SourceBinding : Type 0 where
  pub pass1_artifact_sha256 : String
  pub reference_original_run_report_sha256 : Option String
  pub candidate_original_run_report_sha256 : Option String
  pub reference_original_verified : Bool
  pub candidate_original_verified : Bool
  pub reference_reproduction_sha256 : Option String
  pub candidate_reproduction_sha256 : Option String
  pub reproduction_verified : Option Bool
  pub verified : Bool

pub record TargetCheckpoint : Type 0 where
  pub generated_token_step : Option ℕ
  pub expected_runtime_checkpoint_step : Option ℕ
  pub matched_generated_prefix_length : Option ℕ

pub record PromptGateResult : Type 0 where
  pub status : String
  pub inherited_prompt_identity_evidence : String

pub record PrefixGateResult : Type 0 where
  pub status : String
  pub expected_token_count : Option ℕ
  pub expected_sha256 : Option String
  pub verified_sides : List String
  pub failed_side : Option String
  pub first_diff_index : Option ℕ
  pub mismatch_kind : Option String

pub record RunBuildEvidence : Type 0 where
  pub role : String
  pub binary_fingerprint : String

pub record PolicyGateResult : Type 0 where
  pub status : String
  pub build_continuity_verified : Bool
  pub inherited_calibration_sha256 : String
  pub runs : List RunBuildEvidence

pub record CheckpointStepGateResult : Type 0 where
  pub status : String
  pub generated_token_step : Option ℕ
  pub pass1_runtime_checkpoint_step : Option ℕ
  pub expected_runtime_checkpoint_step : Option ℕ
  pub evidence : String
  pub trace_runtime_checkpoint_step : Option ℕ
  pub materialized_checkpoint_artifact_verified : Bool

pub record RunContextEvidence : Type 0 where
  pub role : String
  pub prompt_token_count : ℕ
  pub context_position : ℕ
  pub batch_size : ℕ
  pub sequence_index : ℕ
  pub thread_count : ℕ

pub record ContextGateResult : Type 0 where
  pub status : String
  pub runs : List RunContextEvidence

pub record LocalizationReference : Type 0 where
  pub sha256 : String
  pub pass1_status : String
  pub generated_token_step : Option ℕ
  pub runtime_checkpoint_step : Option ℕ
  pub matched_generated_prefix_length : Option ℕ
  pub prefix_availability : String
  pub pass2_disposition : String
  pub verdict_strength_limit : String
  pub canonical_json : String

-- The three constant fields (`schema`, `kind`, `contract_version`) are left out.
pub record Pass2Result : Type 0 where
  pub comparison_mode : ComparisonMode
  pub pass0_verdict : Pass0Verdict
  pub comparison_eligibility : ComparisonEligibility
  pub pass1_status : Pass1Status
  pub pass1_pass2_disposition : Pass2Disposition
  pub source_binding : Pass2SourceBinding
  pub source_binding_verified : Bool
  pub status : Pass2Status
  pub reproduction_evidence_tier : ReproductionEvidenceTier
  pub target : TargetCheckpoint
  pub prompt_reproduction : PromptGateResult
  pub prefix_reproduction : PrefixGateResult
  pub policy_reproduction : PolicyGateResult
  pub checkpoint_step_reproduction : CheckpointStepGateResult
  pub context_reproduction : ContextGateResult
  pub pass3_disposition : Pass3Disposition
  pub localization_ref : LocalizationReference
  pub verdict_strength_limit : VerdictStrengthLimit
  pub reason_codes : List Pass2ReasonCode
  pub inherited_pass1_reason_codes : List String
  pub inherited_pass0_reason_codes : List String
  pub blocking_reasons : List String
  pub warnings : List String
