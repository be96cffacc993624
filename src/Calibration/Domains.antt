-- ===== src/Calibration/Domains.antt =====
-- tools/lis_verify/domains.py: the four calibrators. Each returns its object, whether the domain is
-- calibrated, the codes that it raises, and its warnings.
use local_inference_system.Base.{
  String, Bool, true, false, not, ◌&&◌, ◌||◌, Option, none, some, List, [], ◌∷◌, ◌++◌, ◌==◌, ◌!=◌,
  nat_eq, string_eq, bool_eq, option_eq, list_eq, if◌then◌else◌, is_some,
}
use local_inference_system.Json.Number.{Float, finite, pos, float_equal}
use local_inference_system.Calibration.Model.{
  CalibrationReasonCode, SelectionMode, raw_greedy, DecodePolicyIdentity, direct_token_ids, text,
  PromptIdentityEvidence, array_equal, digest_only, unverified, divergent, Confidence, high, medium,
  low, TokenizerBoundary, ConfigSemanticsStatus, calibrated, unknown, ConfigSemantics,
  round_to_nearest_even, truncate_or_unverified, NumericPolicy, incompatible_decode_policy,
  decode_policy_not_raw, confidence_downgrade_text_prompt_boundary, input_token_divergence,
  prompt_token_array_missing, prompt_token_identity_unverified, tokenizer_boundary_uncalibrated,
  runtime_config_fingerprint_missing, config_fingerprint_mismatch, rms_norm_eps_runtime_unbound,
  config_semantics_uncalibrated, kv_write_rounding_unverified, numeric_policy_uncalibrated,
  fma_policy_backend_defined, reduction_order_backend_defined, tolerance_caveat,
}
use local_inference_system.Calibration.Equality.{prompt_boundary_eq, prompt_identity_evidence_eq}
use local_inference_system.Calibration.Inputs.{RunSide, BuildCalibrationProfile, eps_bound_for}

abbrev pub Codes : Type 0
Codes = List CalibrationReasonCode

abbrev pub Domain : Type 0 → Type 0
Domain Object = Object × Bool × Codes × List String

-- `if test: codes.append(code)`
abbrev pub code_if : Bool → CalibrationReasonCode → Codes
code_if true code = code ∷ []
code_if false code = []

-- A float is 1.0.
unfoldable pub is_neutral : Float → Bool
unfolding float_equal
is_neutral penalty = float_equal penalty (finite (pos 1) 0)

-- The penalty, whether it is enabled, and the suppression of one side.
unfoldable pub resolve_policy : RunSide → BuildCalibrationProfile → Float × Bool × Bool
resolve_policy side profile = (
  elim side.repetition_penalty [ none ↦ profile.repetition_penalty | some penalty ↦ penalty ],
  elim side.repetition_penalty [
    | none ↦ profile.repetition_penalty_enabled
    | some penalty ↦ not (is_neutral penalty)
  ],
  elim side.structural_token_suppression [
    | none ↦ profile.structural_token_suppression
    | some suppression ↦ suppression
  ],
)

unfoldable pub policies_match : Float × Bool × Bool → Float × Bool × Bool → Bool
policies_match (r_pen, r_en, r_supp) (c_pen, c_en, c_supp) =
    float_equal r_pen c_pen && r_en == c_en && r_supp == c_supp

unfoldable pub decode_policy_identity : Float × Bool × Bool → DecodePolicyIdentity
decode_policy_identity (penalty, enabled, suppression) =
    let non_neutral = enabled && not (is_neutral penalty) in
    let raw = not non_neutral && not suppression in
    record {
      selection_mode = if raw then raw_greedy else SelectionMode.policy_modified_greedy;
      repetition_penalty = penalty;
      repetition_penalty_enabled = enabled;
      structural_token_suppression = suppression;
      raw_greedy_equivalent = raw;
    }

unfoldable pub calibrate_decode_policy :
    RunSide → RunSide → BuildCalibrationProfile → Domain DecodePolicyIdentity
unfolding resolve_policy policies_match decode_policy_identity
calibrate_decode_policy ref cand profile =
    let reference = resolve_policy ref profile in
    let candidate = resolve_policy cand profile in
    let non_neutral = reference.1 && not (is_neutral reference.0) in
    let identity = decode_policy_identity reference in
    if policies_match reference candidate
    then (
      identity,
      true,
      code_if non_neutral CalibrationReasonCode.policy_modified_greedy
          ++ code_if reference.2 decode_policy_not_raw,
      [],
    )
    else (identity, false, incompatible_decode_policy ∷ [], [])

-- Equality of two optional values that is known only where both are there.
unfoldable pub both_equal : Bool → Bool → Option Bool
both_equal true equal = some equal
both_equal false equal = none

unfoldable pub prompt_evidence : Option Bool → Option Bool → PromptIdentityEvidence
prompt_evidence (some false) digest = divergent
prompt_evidence (some true) digest = array_equal
prompt_evidence none (some true) = digest_only
prompt_evidence none _ = unverified

unfoldable pub prompt_confidence : PromptIdentityEvidence → Bool → Confidence
prompt_confidence array_equal direct = if direct then high else medium
prompt_confidence digest_only direct = if direct then medium else low
prompt_confidence _ direct = low

unfoldable pub tokenizer_boundary : RunSide → RunSide → TokenizerBoundary
unfolding both_equal prompt_evidence prompt_confidence
tokenizer_boundary ref cand =
    let direct = ref.input_mode == some "tokens" && cand.input_mode == some "tokens" in
    let arrays_available = is_some ref.prompt_token_array && is_some cand.prompt_token_array in
    let array = both_equal arrays_available (ref.prompt_token_array == cand.prompt_token_array) in
    let digest_known =
      is_some ref.prompt_token_digest
      && is_some cand.prompt_token_digest
      && is_some ref.prompt_token_count
      && is_some cand.prompt_token_count in
    let digest = both_equal digest_known (
      ref.prompt_token_digest == cand.prompt_token_digest
      && ref.prompt_token_count == cand.prompt_token_count) in
    let evidence = prompt_evidence array digest in
    record {
      prompt_boundary = if direct then direct_token_ids else text;
      prompt_token_array_available = arrays_available;
      prompt_token_array_equal = array;
      prompt_token_digest_equal = digest;
      prompt_identity_evidence = evidence;
      confidence = prompt_confidence evidence direct;
    }

-- The codes and the calibration that follow from the boundary.
unfoldable pub tokenizer_codes : TokenizerBoundary → Bool × Codes
tokenizer_codes boundary =
    let direct = boundary.prompt_boundary == direct_token_ids in
    let text_code = code_if (not direct) confidence_downgrade_text_prompt_boundary in
    let exact = boundary.prompt_identity_evidence == array_equal in
    if boundary.prompt_identity_evidence == divergent
    then (false, text_code ++ input_token_divergence ∷ [])
    else (
      direct && exact,
      text_code
          ++ (code_if (not boundary.prompt_token_array_available) prompt_token_array_missing
              ++ (code_if (not exact) prompt_token_identity_unverified
                  ++ code_if (not (direct && exact)) tokenizer_boundary_uncalibrated)),
    )

unfoldable pub calibrate_tokenizer : RunSide → RunSide → Domain TokenizerBoundary
unfolding tokenizer_boundary tokenizer_codes
calibrate_tokenizer ref cand =
    let boundary = tokenizer_boundary ref cand in
    let (exact, codes) = tokenizer_codes boundary in (boundary, exact, codes, [])

unfoldable pub calibrate_config :
    RunSide → RunSide → BuildCalibrationProfile → Domain ConfigSemantics
calibrate_config ref cand profile =
    let eps_bound = eps_bound_for profile ref.model_family in
    let fp_present = is_some ref.config_fingerprint && is_some cand.config_fingerprint in
    let fp_equal = fp_present && ref.config_fingerprint == cand.config_fingerprint in
    let fp_codes =
      if fp_present
      then code_if (not fp_equal) config_fingerprint_mismatch
      else runtime_config_fingerprint_missing ∷ [] in
    let object = λ (status : ConfigSemanticsStatus).
      let r : ConfigSemantics = record {
        rms_norm_eps_runtime_bound = eps_bound;
        status = status;
      } in
      r in
    if not eps_bound
    then (
      object ConfigSemanticsStatus.requires_fix_or_guard,
      false,
      fp_codes
          ++ rms_norm_eps_runtime_unbound ∷ config_semantics_uncalibrated
            ∷ CalibrationReasonCode.requires_fix_or_guard ∷ [],
      [],
    )
    else if fp_present && fp_equal
    then (object calibrated, true, fp_codes, [])
    else (object unknown, false, fp_codes ++ config_semantics_uncalibrated ∷ [], [])

unfoldable pub calibrate_numeric :
    RunSide → RunSide → BuildCalibrationProfile → Domain NumericPolicy
calibrate_numeric ref cand profile =
    let rne = profile.kv_write_round_to_nearest_even in
    let kv_status = if rne then round_to_nearest_even else truncate_or_unverified in
    let backends_differ =
      is_some ref.backend && is_some cand.backend && ref.backend != cand.backend in
    (
      record { kv_bf16_write = kv_status; kv_f16_write = kv_status; round_to_nearest_even = rne },
      rne && not backends_differ,
      (if rne then [] else kv_write_rounding_unverified ∷ numeric_policy_uncalibrated ∷ [])
          ++ (code_if (backends_differ || profile.fma_contraction_backend_defined)
                fma_policy_backend_defined
              ++ (code_if (backends_differ || profile.reduction_order_backend_defined)
                    reduction_order_backend_defined
                  ++ code_if backends_differ tolerance_caveat)),
      [],
    )
