-- ===== src/Calibration/Model.antt =====
-- tools/lis_verify/model.py: the enums and data classes of Pass 0.
use local_inference_system.Base.{String, Bool, Option, List}
use local_inference_system.Json.Number.{Float}

pub data ComparisonMode : Type 0 where
  backend_differential runtime_differential external_semantic : ComparisonMode

pub data ModeBSubmode : Type 0 where
  runtime_regression determinism_check configuration_equivalence : ModeBSubmode
  precision_policy_comparison : ModeBSubmode

pub data ComparisonEligibility : Type 0 where
  comparable limited_comparison incompatible : ComparisonEligibility

pub data Pass0Verdict : Type 0 where
  comparison_allowed limited_comparison_allowed comparison_blocked : Pass0Verdict

pub data SelectionMode : Type 0 where
  raw_greedy policy_modified_greedy : SelectionMode

pub data PromptBoundary : Type 0 where
  direct_token_ids text : PromptBoundary

pub data Confidence : Type 0 where
  high medium low : Confidence

pub data PromptIdentityEvidence : Type 0 where
  array_equal digest_only unverified divergent : PromptIdentityEvidence

pub data ConfigSemanticsStatus : Type 0 where
  calibrated requires_fix_or_guard unknown : ConfigSemanticsStatus

pub data KvWriteStatus : Type 0 where
  round_to_nearest_even truncate_or_unverified not_applicable : KvWriteStatus

pub data OracleScope : Type 0 where
  internal_lis_only internal_lis_and_runtime external_semantic : OracleScope

pub data VerdictStrengthLimit : Type 0 where
  no_comparison token_localization_only checkpoint_confirmation_allowed : VerdictStrengthLimit

pub data CalibrationDomain : Type 0 where
  decode_policy tokenizer_boundary config_semantics numeric_policy comparison_mode oracle_scope :
      CalibrationDomain

pub data ReasonSeverity : Type 0 where
  block downgrade informational : ReasonSeverity

pub data CalibrationReasonCode : Type 0 where
  incompatible_decode_policy policy_modified_greedy decode_policy_not_raw : CalibrationReasonCode
  decode_policy_uncalibrated tokenizer_boundary_uncalibrated : CalibrationReasonCode
  prompt_token_array_missing prompt_token_identity_unverified : CalibrationReasonCode
  input_token_divergence confidence_downgrade_text_prompt_boundary : CalibrationReasonCode
  config_semantics_uncalibrated rms_norm_eps_runtime_unbound : CalibrationReasonCode
  config_fingerprint_mismatch runtime_config_fingerprint_missing : CalibrationReasonCode
  requires_fix_or_guard incompatible_model_family numeric_policy_uncalibrated :
      CalibrationReasonCode
  kv_write_rounding_unverified fma_policy_backend_defined : CalibrationReasonCode
  reduction_order_backend_defined tolerance_caveat external_oracle_ineligible :
      CalibrationReasonCode
  hf_default_greedy_ineligible hf_forced_token_runtime_eligible : CalibrationReasonCode
  internal_lis_differential_only oracle_scope_limited : CalibrationReasonCode
  forced_prefix_report_json_channel_missing : CalibrationReasonCode

pub record DecodePolicyIdentity : Type 0 where
  pub selection_mode : SelectionMode
  pub repetition_penalty : Float
  pub repetition_penalty_enabled : Bool
  pub structural_token_suppression : Bool
  pub raw_greedy_equivalent : Bool

pub record TokenizerBoundary : Type 0 where
  pub prompt_boundary : PromptBoundary
  pub prompt_token_array_available : Bool
  pub prompt_token_array_equal : Option Bool
  pub prompt_token_digest_equal : Option Bool
  pub prompt_identity_evidence : PromptIdentityEvidence
  pub confidence : Confidence

pub record ConfigSemantics : Type 0 where
  pub rms_norm_eps_runtime_bound : Bool
  pub status : ConfigSemanticsStatus

pub record NumericPolicy : Type 0 where
  pub kv_bf16_write : KvWriteStatus
  pub kv_f16_write : KvWriteStatus
  pub round_to_nearest_even : Bool

pub record ForcedTokenRuntimeEligibility : Type 0 where
  pub potentially_eligible : Bool
  pub artifact_supported : Bool
  pub status : String

pub record OracleEligibility : Type 0 where
  pub lis_internal_backend_differential : Bool
  pub hf_default_greedy : Bool
  pub hf_forced_token_runtime : ForcedTokenRuntimeEligibility
  pub oracle_scope : OracleScope

pub record CalibrationStatus : Type 0 where
  pub decode_policy_calibrated : Bool
  pub config_semantics_calibrated : Bool
  pub numeric_policy_calibrated : Bool
  pub tokenizer_boundary_calibrated : Bool

-- The constant `schema`, `kind` and `contract_version` stand in Calibration/Artifact.antt, and no
-- calibrator issues a warning.
pub record CalibrationPreflightArtifact : Type 0 where
  pub comparison_mode : ComparisonMode
  pub comparison_eligibility : ComparisonEligibility
  pub pass0_verdict : Pass0Verdict
  pub calibration_status : CalibrationStatus
  pub decode_policy_identity : DecodePolicyIdentity
  pub tokenizer_boundary : TokenizerBoundary
  pub config_semantics : ConfigSemantics
  pub numeric_policy : NumericPolicy
  pub oracle_eligibility : OracleEligibility
  pub reason_codes : List CalibrationReasonCode
  pub warnings : List String
  pub blocking_reasons : List CalibrationReasonCode
  pub verdict_strength_limit : VerdictStrengthLimit
