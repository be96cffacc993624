-- ===== src/Calibration/Preflight.antt =====
-- tools/lis_verify/pass0.py: the aggregator of Pass 0. The proofs are in the modules below.
pub mod Conditions
pub mod Severity
pub mod Blocking
pub mod Verdict
pub mod Report
use local_inference_system.Base.{
  Bool, true, false, not, ◌&&◌, ◌||◌, Option, some, List, [], ◌∷◌, ◌++◌, ◌==◌, ◌!=◌, string_eq,
  option_eq, is_some, if◌then◌else◌, any, keep, contains, is_nonempty,
}
use local_inference_system.Calibration.Model.{
  CalibrationReasonCode, ComparisonMode, backend_differential, runtime_differential, ModeBSubmode,
  configuration_equivalence, ReasonSeverity, block, downgrade, informational, Pass0Verdict,
  comparison_allowed, limited_comparison_allowed, comparison_blocked, ComparisonEligibility,
  comparable, limited_comparison, incompatible, VerdictStrengthLimit, no_comparison,
  checkpoint_confirmation_allowed, CalibrationStatus, OracleEligibility, internal_lis_only,
  CalibrationPreflightArtifact, DecodePolicyIdentity, TokenizerBoundary, ConfigSemantics,
  NumericPolicy, array_equal, incompatible_decode_policy, input_token_divergence,
  incompatible_model_family, config_fingerprint_mismatch, external_oracle_ineligible,
  prompt_token_array_missing, prompt_token_identity_unverified, hf_default_greedy_ineligible,
  hf_forced_token_runtime_eligible, internal_lis_differential_only, oracle_scope_limited,
}
use local_inference_system.Calibration.Equality.{
  comparison_mode_eq, mode_b_submode_eq, reason_severity_eq, calibration_reason_code_eq,
  prompt_identity_evidence_eq,
}
use local_inference_system.Calibration.Codes.{base_severity, aggregator_escalated, order_codes}
use local_inference_system.Calibration.Inputs.{RunSide, PreflightInputs}
use local_inference_system.Calibration.Domains.{
  Codes, code_if, calibrate_decode_policy, calibrate_tokenizer, calibrate_config, calibrate_numeric,
}

-- The severity of an escalated code, by the declared mode and submode.
unfoldable pub escalated_severity :
    CalibrationReasonCode → ComparisonMode → Option ModeBSubmode → ReasonSeverity → ReasonSeverity
escalated_severity external_oracle_ineligible mode submode base =
    if mode == ComparisonMode.external_semantic then block else base
escalated_severity config_fingerprint_mismatch mode submode base =
    if mode == runtime_differential && submode == some configuration_equivalence
    then informational
    else block
escalated_severity prompt_token_array_missing mode submode base =
    if mode == ComparisonMode.external_semantic then block else base
escalated_severity prompt_token_identity_unverified mode submode base =
    if mode == ComparisonMode.external_semantic then block else base
escalated_severity code mode submode base = base

unfoldable pub effective_severity :
    CalibrationReasonCode → ComparisonMode → Option ModeBSubmode → ReasonSeverity
unfolding escalated_severity base_severity aggregator_escalated
effective_severity code mode submode =
    if aggregator_escalated code
    then escalated_severity code mode submode (base_severity code)
    else base_severity code

-- The two model families are known and differ.
unfoldable pub families_differ : RunSide → RunSide → Bool
families_differ ref cand =
    is_some ref.model_family && is_some cand.model_family && ref.model_family != cand.model_family

-- What the four calibrators find.
pub record Findings : Type 0 where
  pub decode : DecodePolicyIdentity
  pub tokenizer : TokenizerBoundary
  pub config : ConfigSemantics
  pub numeric : NumericPolicy
  pub calibration : CalibrationStatus
  pub codes : Codes

unfoldable pub findings : PreflightInputs → Findings
findings inputs =
    let (decode, decode_cal, c1, w1) =
      calibrate_decode_policy inputs.reference inputs.candidate inputs.build_profile in
    let (tok, tok_cal, c2, w2) = calibrate_tokenizer inputs.reference inputs.candidate in
    let (cfg, cfg_cal, c3, w3) =
      calibrate_config inputs.reference inputs.candidate inputs.build_profile in
    let (num, num_cal, c4, w4) =
      calibrate_numeric inputs.reference inputs.candidate inputs.build_profile in
    record {
      decode = decode;
      tokenizer = tok;
      config = cfg;
      numeric = num;
      calibration = record {
        decode_policy_calibrated = decode_cal;
        config_semantics_calibrated = cfg_cal;
        numeric_policy_calibrated = num_cal;
        tokenizer_boundary_calibrated = tok_cal;
      };
      codes =
          c1
          ++ (c2
              ++ (c3
                  ++ (c4
                      ++ code_if (families_differ inputs.reference inputs.candidate)
                          incompatible_model_family)));
    }

-- HF default greedy is eligible only for raw greedy runs that are calibrated with equal arrays.
unfoldable pub hf_default_greedy : Findings → Bool
hf_default_greedy f =
    f.decode.raw_greedy_equivalent
    && f.calibration.config_semantics_calibrated
    && f.calibration.numeric_policy_calibrated
    && f.calibration.tokenizer_boundary_calibrated
    && f.tokenizer.prompt_identity_evidence == array_equal

unfoldable pub lis_internal : Findings → ComparisonMode → Bool
lis_internal f mode =
    mode != ComparisonMode.external_semantic
    && not (
        contains incompatible_model_family f.codes
        || contains incompatible_decode_policy f.codes
        || contains input_token_divergence f.codes)

unfoldable pub oracle_eligibility : Findings → ComparisonMode → OracleEligibility
oracle_eligibility f mode = record {
  lis_internal_backend_differential = lis_internal f mode;
  hf_default_greedy = hf_default_greedy f;
  hf_forced_token_runtime = record {
    potentially_eligible = true;
    artifact_supported = true;
    status = "eligible_with_source_bound_artifact_channel";
  };
  oracle_scope = internal_lis_only;
}

-- The codes that the oracle stage appends.
unfoldable pub oracle_codes : Findings → ComparisonMode → Codes
oracle_codes f mode =
    code_if (not (hf_default_greedy f)) hf_default_greedy_ineligible
    ++ hf_forced_token_runtime_eligible
      ∷ code_if (lis_internal f mode) internal_lis_differential_only
    ++ oracle_scope_limited ∷ external_oracle_ineligible ∷ []

abbrev pub has_severity :
    ReasonSeverity → ComparisonMode → Option ModeBSubmode → CalibrationReasonCode → Bool
has_severity severity mode submode code = effective_severity code mode submode == severity

unfoldable pub resolve_verdict :
    Bool → Bool → Pass0Verdict × ComparisonEligibility × VerdictStrengthLimit
resolve_verdict has_block has_downgrade =
    if has_block
    then (comparison_blocked, incompatible, no_comparison)
    else if has_downgrade
    then (limited_comparison_allowed, limited_comparison, checkpoint_confirmation_allowed)
    else (comparison_allowed, comparable, checkpoint_confirmation_allowed)

-- All codes that are raised for the inputs, in the order in which the code appends them.
unfoldable pub raised_codes : PreflightInputs → Codes
raised_codes inputs = (findings inputs).codes ++ oracle_codes (findings inputs) inputs.declared_mode

unfoldable pub run_calibration_preflight : PreflightInputs → CalibrationPreflightArtifact
run_calibration_preflight inputs =
    let f = findings inputs in
    let mode = inputs.declared_mode in
    let submode = inputs.declared_submode in
    let codes = raised_codes inputs in
    let blocking = keep (has_severity block mode submode) codes in
    let (verdict, eligibility, limit) =
      resolve_verdict (is_nonempty blocking) (any (has_severity downgrade mode submode) codes) in
    record {
      comparison_mode = mode;
      comparison_eligibility = eligibility;
      pass0_verdict = verdict;
      calibration_status = f.calibration;
      decode_policy_identity = f.decode;
      tokenizer_boundary = f.tokenizer;
      config_semantics = f.config;
      numeric_policy = f.numeric;
      oracle_eligibility = oracle_eligibility f mode;
      reason_codes = order_codes codes;
      warnings = [];
      blocking_reasons = order_codes blocking;
      verdict_strength_limit = limit;
    }
