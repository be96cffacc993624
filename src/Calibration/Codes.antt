-- ===== src/Calibration/Codes.antt =====
-- tools/lis_verify/reason_codes.py: the registry of reason codes, and their stable order.
pub mod Order
use local_inference_system.Base.{
  ℕ, suc, Bool, true, false, ◌&&◌, ◌||◌, List, [], ◌∷◌, ◌==◌, nat_eq, Nat_discrete, ltb,
}
use local_inference_system.Base.Sorting.{sort_by, distinct}
use local_inference_system.Calibration.Model.{
  CalibrationDomain, decode_policy, tokenizer_boundary, config_semantics, numeric_policy,
  comparison_mode, oracle_scope, ReasonSeverity, block, downgrade, informational,
  CalibrationReasonCode, incompatible_decode_policy, policy_modified_greedy, decode_policy_not_raw,
  decode_policy_uncalibrated, tokenizer_boundary_uncalibrated, prompt_token_array_missing,
  prompt_token_identity_unverified, input_token_divergence,
  confidence_downgrade_text_prompt_boundary, config_semantics_uncalibrated,
  rms_norm_eps_runtime_unbound, config_fingerprint_mismatch, runtime_config_fingerprint_missing,
  requires_fix_or_guard, incompatible_model_family, numeric_policy_uncalibrated,
  kv_write_rounding_unverified, fma_policy_backend_defined, reduction_order_backend_defined,
  tolerance_caveat, external_oracle_ineligible, hf_default_greedy_ineligible,
  hf_forced_token_runtime_eligible, internal_lis_differential_only, oracle_scope_limited,
  forced_prefix_report_json_channel_missing,
}
use local_inference_system.Calibration.Equality.{
  calibration_reason_code_eq, CalibrationReasonCode-discrete,
}

-- `REGISTRY[code]`
unfoldable pub registry : CalibrationReasonCode → CalibrationDomain × ReasonSeverity
registry incompatible_decode_policy = (decode_policy, block)
registry policy_modified_greedy = (decode_policy, downgrade)
registry decode_policy_not_raw = (decode_policy, downgrade)
registry decode_policy_uncalibrated = (decode_policy, downgrade)
registry tokenizer_boundary_uncalibrated = (tokenizer_boundary, downgrade)
registry prompt_token_array_missing = (tokenizer_boundary, downgrade)
registry prompt_token_identity_unverified = (tokenizer_boundary, downgrade)
registry input_token_divergence = (tokenizer_boundary, block)
registry confidence_downgrade_text_prompt_boundary = (tokenizer_boundary, downgrade)
registry config_semantics_uncalibrated = (config_semantics, downgrade)
registry rms_norm_eps_runtime_unbound = (config_semantics, downgrade)
registry config_fingerprint_mismatch = (config_semantics, downgrade)
registry runtime_config_fingerprint_missing = (config_semantics, downgrade)
registry requires_fix_or_guard = (config_semantics, downgrade)
registry incompatible_model_family = (config_semantics, block)
registry numeric_policy_uncalibrated = (numeric_policy, downgrade)
registry kv_write_rounding_unverified = (numeric_policy, downgrade)
registry fma_policy_backend_defined = (numeric_policy, informational)
registry reduction_order_backend_defined = (numeric_policy, informational)
registry tolerance_caveat = (numeric_policy, downgrade)
registry external_oracle_ineligible = (oracle_scope, informational)
registry hf_default_greedy_ineligible = (oracle_scope, informational)
registry hf_forced_token_runtime_eligible = (oracle_scope, informational)
registry internal_lis_differential_only = (oracle_scope, informational)
registry oracle_scope_limited = (oracle_scope, informational)
registry forced_prefix_report_json_channel_missing = (oracle_scope, informational)

-- `list(REGISTRY.keys())`
abbrev pub all_codes : List CalibrationReasonCode
all_codes =
    incompatible_decode_policy ∷ policy_modified_greedy ∷ decode_policy_not_raw
    ∷ decode_policy_uncalibrated ∷ tokenizer_boundary_uncalibrated ∷ prompt_token_array_missing
    ∷ prompt_token_identity_unverified ∷ input_token_divergence
    ∷ confidence_downgrade_text_prompt_boundary ∷ config_semantics_uncalibrated
    ∷ rms_norm_eps_runtime_unbound ∷ config_fingerprint_mismatch
    ∷ runtime_config_fingerprint_missing ∷ requires_fix_or_guard ∷ incompatible_model_family
    ∷ numeric_policy_uncalibrated ∷ kv_write_rounding_unverified ∷ fma_policy_backend_defined
    ∷ reduction_order_backend_defined ∷ tolerance_caveat ∷ external_oracle_ineligible
    ∷ hf_default_greedy_ineligible ∷ hf_forced_token_runtime_eligible
    ∷ internal_lis_differential_only ∷ oracle_scope_limited
    ∷ forced_prefix_report_json_channel_missing ∷ []

unfoldable pub base_severity : CalibrationReasonCode → ReasonSeverity
unfolding registry
base_severity code = (registry code).1

unfoldable pub domain_of : CalibrationReasonCode → CalibrationDomain
unfolding registry
domain_of code = (registry code).0

-- `code in AGGREGATOR_ESCALATED`
unfoldable pub aggregator_escalated : CalibrationReasonCode → Bool
aggregator_escalated external_oracle_ineligible = true
aggregator_escalated config_fingerprint_mismatch = true
aggregator_escalated prompt_token_array_missing = true
aggregator_escalated prompt_token_identity_unverified = true
aggregator_escalated _ = false

-- `_DOMAIN_ORDER.index(domain)`
unfoldable pub domain_rank : CalibrationDomain → ℕ
domain_rank decode_policy = 0
domain_rank tokenizer_boundary = 1
domain_rank config_semantics = 2
domain_rank numeric_policy = 3
domain_rank comparison_mode = 4
domain_rank oracle_scope = 5

index_from : ℕ → CalibrationReasonCode → List CalibrationReasonCode → ℕ
unfolding CalibrationReasonCode-discrete
index_from i code [] = i
index_from i code (c ∷ cs) = elim (c == code) [ true ↦ i | false ↦ index_from (suc i) code cs ]

-- `_CODE_INDEX[code]`
unfoldable pub code_index : CalibrationReasonCode → ℕ
unfolding index_from
code_index code = index_from 0 code all_codes

-- `_sort_key(a) < _sort_key(b)`, as Python compares pairs
unfoldable pub key_lt : CalibrationReasonCode → CalibrationReasonCode → Bool
unfolding domain_of domain_rank code_index Nat_discrete
key_lt a b =
    let left = domain_rank (domain_of a) in
    let right = domain_rank (domain_of b) in
    ltb left right || (left == right && ltb (code_index a) (code_index b))

-- `sorted(set(codes), key=_sort_key)`
unfoldable pub order_codes : List CalibrationReasonCode → List CalibrationReasonCode
order_codes codes = sort_by key_lt (distinct codes)
