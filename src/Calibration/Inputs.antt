-- ===== src/Calibration/Inputs.antt =====
-- tools/lis_verify/inputs.py and build_profile.py: what Pass 0 is told of each run and of the build.
use local_inference_system.Base.{
  ℕ, String, Bool, true, false, Option, none, some, List, [], ◌∷◌, ◌==◌, string_eq,
}
use local_inference_system.Json.Number.{Float, finite, pos}
use local_inference_system.Calibration.Model.{ComparisonMode, ModeBSubmode}

-- One execution under comparison. The fields that Pass 0 does not read (`role`, the binary and
-- runtime fingerprints, the precision path, the decode trace) are left out.
pub record RunSide : Type 0 where
  pub model_family : Option String
  pub config_fingerprint : Option String
  pub backend : Option String
  pub input_mode : Option String
  pub prompt_token_count : Option ℕ
  pub prompt_token_digest : Option String
  pub prompt_token_array : Option (List ℕ)
  pub repetition_penalty : Option Float
  pub structural_token_suppression : Option Bool

pub record BuildCalibrationProfile : Type 0 where
  pub repetition_penalty : Float
  pub repetition_penalty_enabled : Bool
  pub structural_token_suppression : Bool
  pub rms_norm_eps_runtime_bound : List (String × Bool)
  pub kv_write_round_to_nearest_even : Bool
  pub fma_contraction_backend_defined : Bool
  pub reduction_order_backend_defined : Bool

-- `d.get(key, False)`
unfoldable pub get_flag : List (String × Bool) → String → Bool
get_flag [] key = false
get_flag ((k, flag) ∷ rest) key =
    let later = get_flag rest key in elim (k == key) [ true ↦ flag | false ↦ later ]

unfoldable pub eps_bound_for : BuildCalibrationProfile → Option String → Bool
unfolding get_flag
eps_bound_for profile none = false
eps_bound_for profile (some family) = get_flag profile.rms_norm_eps_runtime_bound family

-- The profile that `default_build_profile` falls back to; the float 1.2 is 5404319552844595 / 2 ^ 52.
abbrev pub builtin_profile : BuildCalibrationProfile
builtin_profile = record {
  repetition_penalty = finite (pos 5404319552844595) 52;
  repetition_penalty_enabled = true;
  structural_token_suppression = true;
  rms_norm_eps_runtime_bound = ("llama3_decoder", false) ∷ ("qwen3_dense_decoder", true) ∷ [];
  kv_write_round_to_nearest_even = false;
  fma_contraction_backend_defined = true;
  reduction_order_backend_defined = true;
}

pub record PreflightInputs : Type 0 where
  pub reference : RunSide
  pub candidate : RunSide
  pub declared_mode : ComparisonMode
  pub declared_submode : Option ModeBSubmode
  pub build_profile : BuildCalibrationProfile
