-- ===== src/Calibration/Preflight/Conditions.antt =====
-- The facts about two runs that decide the verdict, read off the inputs.
use local_inference_system.Base.{
  Bool, not, ◌&&◌, some, ◌==◌, ◌!=◌, nat_eq, string_eq, option_eq, list_eq, is_some,
}
use local_inference_system.Calibration.Model.{
  ComparisonMode, runtime_differential, configuration_equivalence,
}
use local_inference_system.Calibration.Equality.{comparison_mode_eq, mode_b_submode_eq}
use local_inference_system.Calibration.Inputs.{
  RunSide, BuildCalibrationProfile, PreflightInputs, eps_bound_for,
}
use local_inference_system.Calibration.Domains.{is_neutral, resolve_policy, policies_match}

module _ (ref cand : RunSide) where
  abbrev pub arrays_available : Bool
  arrays_available = is_some ref.prompt_token_array && is_some cand.prompt_token_array

  abbrev pub arrays_diverge : Bool
  arrays_diverge = arrays_available && ref.prompt_token_array != cand.prompt_token_array

  abbrev pub arrays_agree : Bool
  arrays_agree = arrays_available && ref.prompt_token_array == cand.prompt_token_array

  abbrev pub fingerprints_present : Bool
  fingerprints_present = is_some ref.config_fingerprint && is_some cand.config_fingerprint

  abbrev pub fingerprints_differ : Bool
  fingerprints_differ = fingerprints_present && ref.config_fingerprint != cand.config_fingerprint

  abbrev pub fingerprints_agree : Bool
  fingerprints_agree = fingerprints_present && ref.config_fingerprint == cand.config_fingerprint

  abbrev pub backends_differ : Bool
  backends_differ = is_some ref.backend && is_some cand.backend && ref.backend != cand.backend

  abbrev pub direct_tokens : Bool
  direct_tokens = ref.input_mode == some "tokens" && cand.input_mode == some "tokens"

module _ (ref cand : RunSide) (profile : BuildCalibrationProfile) where
  abbrev pub same_policy : Bool
  same_policy = policies_match (resolve_policy ref profile) (resolve_policy cand profile)

  -- The reference has no penalty in force and no suppression.
  abbrev pub raw_policy : Bool
  raw_policy =
      not ((resolve_policy ref profile).1 && not (is_neutral (resolve_policy ref profile).0))
      && not (resolve_policy ref profile).2

  abbrev pub config_calibrated : Bool
  config_calibrated = eps_bound_for profile ref.model_family && fingerprints_agree ref cand

  abbrev pub numeric_calibrated : Bool
  numeric_calibrated = profile.kv_write_round_to_nearest_even && not (backends_differ ref cand)

module _ (inputs : PreflightInputs) where
  abbrev pub is_external : Bool
  is_external = inputs.declared_mode == ComparisonMode.external_semantic

  -- The comparison asks whether two configurations are equivalent.
  abbrev pub compares_configurations : Bool
  compares_configurations =
      inputs.declared_mode == runtime_differential
      && inputs.declared_submode == some configuration_equivalence
