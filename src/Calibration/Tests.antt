-- ===== src/Calibration/Tests.antt =====
-- Pass 0 at concrete runs, and its theorems there.
use local_inference_system.Base.{
  true, false, none, some, [], ◌∷◌, ◌≡◌, ◌↔◌, refl, arith, is_nonempty, is_some, keep, contains,
  String_discrete, Nat_discrete, Option-discrete, List-discrete, Bool-discrete,
}
use local_inference_system.Base.Sorting.{sort_by, distinct}
use local_inference_system.Json.Number.{finite, pos, float_equal}
use local_inference_system.Calibration.Model.{
  runtime_differential, comparison_allowed, comparison_blocked, limited_comparison_allowed,
  incompatible, no_comparison, input_token_divergence, block, tolerance_caveat,
  incompatible_decode_policy,
}
use local_inference_system.Calibration.Equality.{
  calibration_reason_code_eq, ComparisonMode-discrete, ModeBSubmode-discrete,
  ReasonSeverity-discrete, PromptBoundary-discrete, PromptIdentityEvidence-discrete,
  CalibrationReasonCode-discrete,
}
use local_inference_system.Calibration.Codes.{all_codes, order_codes}
use local_inference_system.Calibration.Codes.Order.{order_codes-eq-keep}
use local_inference_system.Calibration.Inputs.{
  RunSide, BuildCalibrationProfile, builtin_profile, PreflightInputs, eps_bound_for,
}
use local_inference_system.Calibration.Preflight.{
  has_severity, run_calibration_preflight, raised_codes, findings, families_differ, oracle_codes,
  effective_severity, resolve_verdict, hf_default_greedy, lis_internal,
}
use local_inference_system.Calibration.Domains.{
  resolve_policy, is_neutral, policies_match, calibrate_decode_policy, calibrate_tokenizer,
  calibrate_config, calibrate_numeric,
}
use local_inference_system.Calibration.Preflight.Blocking.{must_block, fully_calibrated}
use local_inference_system.Calibration.Preflight.Verdict.{
  preflight-blocked_iff, preflight-allowed_iff,
}
use local_inference_system.Calibration.ReportMapping.{map_block_reason, map_block_reason-blocking}
use local_inference_system.Calibration.Preflight.Report.{blocking_reasons-eq-keep, preflight_agrees}

abbrev pub raw_profile : BuildCalibrationProfile
raw_profile = record {
  repetition_penalty = finite (pos 1) 0;
  repetition_penalty_enabled = false;
  structural_token_suppression = false;
  rms_norm_eps_runtime_bound = ("qwen3_dense_decoder", true) ∷ [];
  kv_write_round_to_nearest_even = true;
  fma_contraction_backend_defined = false;
  reduction_order_backend_defined = false;
}

abbrev pub qwen_run : RunSide
qwen_run = record {
  model_family = some "qwen3_dense_decoder";
  config_fingerprint = some "fnv1a64:01";
  backend = some "cpu_ref";
  input_mode = some "tokens";
  prompt_token_count = some 2;
  prompt_token_digest = some "fnv1a64:02";
  prompt_token_array = some (11 ∷ 12 ∷ []);
  repetition_penalty = none;
  structural_token_suppression = none;
}

abbrev pub clean_pair : PreflightInputs
clean_pair = record {
  reference = qwen_run;
  candidate = qwen_run;
  declared_mode = runtime_differential;
  declared_submode = none;
  build_profile = raw_profile;
}

-- The candidate saw another prompt.
abbrev pub diverging_pair : PreflightInputs
diverging_pair = record clean_pair {
  candidate = record qwen_run { prompt_token_array = some (11 ∷ 13 ∷ []) };
}

fully_calibrated_clean : fully_calibrated clean_pair ≡ true
unfolding resolve_policy is_neutral eps_bound_for
fully_calibrated_clean = ground arith

must_block_clean : must_block clean_pair ≡ false
unfolding resolve_policy policies_match families_differ float_equal
must_block_clean = ground arith

must_block_diverging : must_block diverging_pair ≡ true
unfolding resolve_policy policies_match families_differ float_equal
must_block_diverging = ground arith

-- With the built-in profile the comparison of two equal runs is limited.
builtin_limits :
    (run_calibration_preflight
      (record clean_pair { build_profile = builtin_profile })).pass0_verdict
    ≡ limited_comparison_allowed
unfolding run_calibration_preflight raised_codes findings resolve_policy calibrate_decode_policy
    calibrate_tokenizer calibrate_config calibrate_numeric eps_bound_for families_differ
    oracle_codes effective_severity resolve_verdict String_discrete Nat_discrete Option-discrete
    List-discrete Bool-discrete ComparisonMode-discrete ModeBSubmode-discrete
    ReasonSeverity-discrete PromptBoundary-discrete PromptIdentityEvidence-discrete
    CalibrationReasonCode-discrete hf_default_greedy lis_internal float_equal is_neutral
builtin_limits = refl

order_codes-eq-keep_example :
    order_codes (tolerance_caveat ∷ incompatible_decode_policy ∷ tolerance_caveat ∷ [])
    ≡ keep
        (λ c. contains c (tolerance_caveat ∷ incompatible_decode_policy ∷ tolerance_caveat ∷ []))
        all_codes
order_codes-eq-keep_example =
    order_codes-eq-keep (tolerance_caveat ∷ incompatible_decode_policy ∷ tolerance_caveat ∷ [])

preflight-blocked_iff_example :
    (run_calibration_preflight diverging_pair).pass0_verdict ≡ comparison_blocked
    ↔ must_block diverging_pair ≡ true
preflight-blocked_iff_example = preflight-blocked_iff diverging_pair

diverging_blocked : (run_calibration_preflight diverging_pair).pass0_verdict ≡ comparison_blocked
diverging_blocked = (preflight-blocked_iff diverging_pair).1 must_block_diverging

preflight-allowed_iff_example :
    (run_calibration_preflight clean_pair).pass0_verdict ≡ comparison_allowed
    ↔ ((must_block clean_pair ≡ false) × (fully_calibrated clean_pair ≡ true))
preflight-allowed_iff_example = preflight-allowed_iff clean_pair

clean_allowed : (run_calibration_preflight clean_pair).pass0_verdict ≡ comparison_allowed
clean_allowed = (preflight-allowed_iff clean_pair).1 (must_block_clean, fully_calibrated_clean)

blocking_reasons-eq-keep_example :
    (run_calibration_preflight diverging_pair).blocking_reasons
    ≡ keep
        (has_severity block runtime_differential none)
        (run_calibration_preflight diverging_pair).reason_codes
blocking_reasons-eq-keep_example = blocking_reasons-eq-keep diverging_pair

preflight_agrees_example :
    let a = run_calibration_preflight diverging_pair in
    (a.pass0_verdict ≡ comparison_blocked ↔ is_nonempty a.blocking_reasons ≡ true)
    × (a.comparison_eligibility ≡ incompatible ↔ is_nonempty a.blocking_reasons ≡ true)
    × (a.verdict_strength_limit ≡ no_comparison ↔ is_nonempty a.blocking_reasons ≡ true)
preflight_agrees_example = preflight_agrees diverging_pair

pub diverging_reason :
    contains input_token_divergence (run_calibration_preflight diverging_pair).blocking_reasons
    ≡ true
unfolding run_calibration_preflight raised_codes findings resolve_policy calibrate_decode_policy
    calibrate_tokenizer calibrate_config calibrate_numeric eps_bound_for families_differ
    oracle_codes effective_severity resolve_verdict String_discrete Nat_discrete Option-discrete
    List-discrete Bool-discrete ComparisonMode-discrete ModeBSubmode-discrete
    ReasonSeverity-discrete PromptBoundary-discrete PromptIdentityEvidence-discrete
    CalibrationReasonCode-discrete hf_default_greedy lis_internal float_equal is_neutral order_codes
    sort_by distinct
diverging_reason = refl

map_block_reason-blocking_example : is_some (map_block_reason input_token_divergence) ≡ true
map_block_reason-blocking_example =
    map_block_reason-blocking diverging_pair input_token_divergence diverging_reason
