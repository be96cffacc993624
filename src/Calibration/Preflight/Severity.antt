-- ===== src/Calibration/Preflight/Severity.antt =====
-- Which of the codes that each stage raises block, and which downgrade.
use local_inference_system.Base.{
  Bool, false, not, ◌&&◌, ◌||◌, ◌≡◌, nat_eq, string_eq, bool_eq, option_eq, list_eq, any, arith,
}
use local_inference_system.Calibration.Model.{block, downgrade}
use local_inference_system.Calibration.Inputs.{PreflightInputs}
use local_inference_system.Calibration.Domains.{
  Codes, calibrate_decode_policy, calibrate_tokenizer, calibrate_config, calibrate_numeric,
}
use local_inference_system.Calibration.Preflight.{
  effective_severity, has_severity, Findings, oracle_codes,
}
use local_inference_system.Calibration.Preflight.Conditions.{
  arrays_diverge, arrays_agree, fingerprints_differ, direct_tokens, same_policy, raw_policy,
  config_calibrated, numeric_calibrated, is_external, compares_configurations,
}

module _ (inputs : PreflightInputs) where
  open inputs use {
    reference as ref, candidate as cand, build_profile as profile, declared_mode as mode,
    declared_submode as submode,
  }

  abbrev pub any_block : Codes → Bool
  any_block = any (has_severity block mode submode)

  abbrev pub any_downgrade : Codes → Bool
  any_downgrade = any (has_severity downgrade mode submode)

  pub block-decode_policy :
      any_block (calibrate_decode_policy ref cand profile).2 ≡ not (same_policy ref cand profile)
  unfolding effective_severity calibrate_decode_policy
  block-decode_policy = ground arith

  pub downgrade-decode_policy :
      any_downgrade (calibrate_decode_policy ref cand profile).2
      ≡ (same_policy ref cand profile && not (raw_policy ref cand profile))
  unfolding effective_severity calibrate_decode_policy
  downgrade-decode_policy = ground arith

  pub block-tokenizer :
      any_block (calibrate_tokenizer ref cand).2
      ≡ (arrays_diverge ref cand || is_external inputs && not (arrays_agree ref cand))
  unfolding effective_severity calibrate_tokenizer
  block-tokenizer = ground arith

  pub downgrade-tokenizer :
      any_block (calibrate_tokenizer ref cand).2 ≡ false
      → any_downgrade (calibrate_tokenizer ref cand).2
        ≡ not (direct_tokens ref cand && arrays_agree ref cand)
  unfolding effective_severity calibrate_tokenizer
  downgrade-tokenizer h = ground arith

  pub block-config :
      any_block (calibrate_config ref cand profile).2
      ≡ (fingerprints_differ ref cand && not (compares_configurations inputs))
  unfolding effective_severity calibrate_config
  block-config = ground arith

  pub downgrade-config :
      any_downgrade (calibrate_config ref cand profile).2 ≡ not (config_calibrated ref cand profile)
  unfolding effective_severity calibrate_config
  downgrade-config = ground arith

  pub block-numeric : any_block (calibrate_numeric ref cand profile).2 ≡ false
  unfolding effective_severity calibrate_numeric
  block-numeric = ground arith

  pub downgrade-numeric :
      any_downgrade (calibrate_numeric ref cand profile).2
      ≡ not (numeric_calibrated ref cand profile)
  unfolding effective_severity calibrate_numeric
  downgrade-numeric = ground arith

  pub block-oracle : (f : Findings) → any_block (oracle_codes f mode) ≡ is_external inputs
  unfolding effective_severity oracle_codes
  block-oracle f = ground arith

  pub downgrade-oracle : (f : Findings) → any_downgrade (oracle_codes f mode) ≡ false
  unfolding effective_severity oracle_codes
  downgrade-oracle f = ground arith
