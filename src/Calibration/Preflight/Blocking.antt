-- ===== src/Calibration/Preflight/Blocking.antt =====
-- The verdict of the preflight, decided by the conditions on the inputs alone.
use local_inference_system.Base.{Bool, false, not, ◌&&◌, ◌||◌, ◌≡◌, arith, any-append}
use local_inference_system.Calibration.Model.{incompatible_model_family}
use local_inference_system.Calibration.Inputs.{PreflightInputs}
use local_inference_system.Calibration.Domains.{code_if, calibrate_tokenizer}
use local_inference_system.Calibration.Preflight.{
  effective_severity, findings, families_differ, raised_codes,
}
use local_inference_system.Calibration.Preflight.Conditions.{
  arrays_diverge, arrays_agree, fingerprints_differ, direct_tokens, same_policy, raw_policy,
  config_calibrated, numeric_calibrated, is_external, compares_configurations,
}
use local_inference_system.Calibration.Preflight.Severity.{
  any_block, any_downgrade, block-decode_policy, block-tokenizer, block-config, block-numeric,
  block-oracle, downgrade-decode_policy, downgrade-tokenizer, downgrade-config, downgrade-numeric,
  downgrade-oracle,
}

module _ (inputs : PreflightInputs) where
  open inputs use {reference as ref, candidate as cand, build_profile as profile}

  -- Some condition forbids the comparison.
  abbrev pub must_block : Bool
  must_block =
      is_external inputs
      || not (same_policy ref cand profile)
      || arrays_diverge ref cand
      || fingerprints_differ ref cand && not (compares_configurations inputs)
      || families_differ ref cand

  -- Every domain is calibrated and the policy is raw greedy.
  abbrev pub fully_calibrated : Bool
  fully_calibrated =
      raw_policy ref cand profile
      && direct_tokens ref cand
      && arrays_agree ref cand
      && config_calibrated ref cand profile
      && numeric_calibrated ref cand profile

  block-family :
      any_block inputs (code_if (families_differ ref cand) incompatible_model_family)
      ≡ families_differ ref cand
  unfolding effective_severity
  block-family = ground arith

  downgrade-family :
      any_downgrade inputs (code_if (families_differ ref cand) incompatible_model_family) ≡ false
  unfolding effective_severity
  downgrade-family = ground arith

  pub block-raised : any_block inputs (raised_codes inputs) ≡ must_block
  unfolding raised_codes findings
  block-raised = simp any-append (
      ground (
        arith,
        block-decode_policy inputs,
        block-tokenizer inputs,
        block-config inputs,
        block-numeric inputs,
        block-family,
        block-oracle inputs (findings inputs),
      ))

  tokenizer-unblocked :
      must_block ≡ false → any_block inputs (calibrate_tokenizer ref cand).2 ≡ false
  tokenizer-unblocked h = ground (arith, block-tokenizer inputs)

  pub downgrade-raised :
      must_block ≡ false → any_downgrade inputs (raised_codes inputs) ≡ not fully_calibrated
  unfolding raised_codes findings
  downgrade-raised h =
      simp
        (
          any-append,
          downgrade-decode_policy,
          downgrade-tokenizer inputs (tokenizer-unblocked h),
          downgrade-config,
          downgrade-numeric,
          downgrade-family,
          downgrade-oracle,
        )
        (ground arith)
