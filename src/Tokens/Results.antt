-- ===== src/Tokens/Results.antt =====
-- tools/lis_verify/pass1.py: the results of Pass 1, one function for each way to end.
use local_inference_system.Base.{
  ℕ, String, Bool, true, false, ◌&&◌, Option, none, some, List, [], ◌∷◌, ◌==◌, string_eq,
  if◌then◌else◌, length, leb, take,
}
use local_inference_system.Base.Text.{concat}
use local_inference_system.Json.Render.{canonical_json}
use local_inference_system.Calibration.Model.{checkpoint_confirmation_allowed}
use local_inference_system.Calibration.Equality.{
  calibration_reason_code_eq, prompt_identity_evidence_eq, verdict_strength_limit_eq,
}
use local_inference_system.Calibration.Names.{
  comparison_mode_value, comparison_eligibility_value, pass0_verdict_value,
  prompt_identity_evidence_value, verdict_strength_limit_value, oracle_scope_value,
}
use local_inference_system.Calibration.Artifact.{serialize}
use local_inference_system.Calibration.Gate.{Pass0GateDecision}
use local_inference_system.Tokens.Model.{
  Pass0SourceBinding, Pass1Status, token_equivalent_on_observed_range, first_mismatch_found,
  selected_token_array_missing, selected_token_identity_unverified, unsupported_comparison,
  inconclusive, EvidenceCompleteness, complete, incomplete, CompatibilityResult,
  CalibrationReference, Pass1Result, Pass1ReasonCode, gate_run_identity_inconsistent,
  unsupported_run_artifact, unsupported_batch_shape, ready, not_required, blocked_by_pass0,
  blocked_by_evidence, blocked_by_strength_limit, Pass1RunInput, digest_only,
  selected_token_evidence_level_eq, TokenLocalization, PrefixForReproduction, embedded,
  exact_source_required,
}
use local_inference_system.Tokens.Errors.{
  RunReportInputError, malformed, unsupported, reason, message,
}
use local_inference_system.Tokens.Reports.{Host, sha256_text, token_ids_sha256}
use local_inference_system.Tokens.Locate.{locate_first_selected_token_mismatch}
use local_inference_system.Tokens.Gate.{
  inherited_codes, blocking_codes, CompatibilityState, compatible, failed_execution,
  unsupported_batch, gate_config_inconsistent, compatibility_state_text,
}

-- `DEFAULT_EMBEDDED_PREFIX_CAP`
abbrev pub embedded_prefix_cap : ℕ
embedded_prefix_cap = 64

unfoldable pub calibration_reference : Host → Pass0GateDecision → CalibrationReference
calibration_reference host gate =
    let rendered = canonical_json host.float_repr (serialize gate.artifact) in
    record {
      sha256 = sha256_text host rendered;
      comparison_mode = comparison_mode_value gate.artifact.comparison_mode;
      pass0_verdict = pass0_verdict_value gate.verdict;
      comparison_eligibility = comparison_eligibility_value gate.eligibility;
      prompt_identity_evidence =
          prompt_identity_evidence_value gate.artifact.tokenizer_boundary.prompt_identity_evidence;
      verdict_strength_limit = verdict_strength_limit_value gate.verdict_strength_limit;
      blocking_reasons = blocking_codes gate;
      oracle_scope = oracle_scope_value gate.oracle_eligibility.oracle_scope;
      canonical_json = rendered;
    }

-- `_compatibility` of a comparison that a boundary blocks, with the default states.
unfoldable pub blocked_at : Pass0GateDecision → String → CompatibilityResult
blocked_at gate boundary = record {
  comparison_blocked = true;
  boundary = some boundary;
  model_family_state = "not_evaluated";
  config_state = "not_evaluated";
  prompt_identity_evidence =
      prompt_identity_evidence_value gate.artifact.tokenizer_boundary.prompt_identity_evidence;
}

-- `_result` with its optional arguments at their defaults.
unfoldable pub result :
    Host
    → Pass0GateDecision
    → Pass0SourceBinding
    → Bool
    → Pass1Status
    → EvidenceCompleteness
    → CompatibilityResult
    → Pass1Result
result host gate binding verified status completeness compatibility = record {
  comparison_mode = gate.artifact.comparison_mode;
  pass0_verdict = gate.verdict;
  comparison_eligibility = gate.eligibility;
  source_binding = binding;
  source_binding_verified = verified;
  status = status;
  evidence_completeness = completeness;
  compatibility = compatibility;
  reference = none;
  candidate = none;
  localization = none;
  prefix_for_reproduction = none;
  pass2_disposition = blocked_by_evidence;
  calibration_ref = calibration_reference host gate;
  verdict_strength_limit = gate.verdict_strength_limit;
  reason_codes = [];
  inherited_pass0_reason_codes = inherited_codes gate;
  blocking_reasons = blocking_codes gate;
  warnings = [];
}

unfoldable pub error_status : RunReportInputError → Pass1Status
error_status (malformed text) = inconclusive
error_status (unsupported text code) = unsupported_comparison

-- The reason and the status for a pair of runs that may not be compared.
unfoldable pub state_reason : CompatibilityState → Pass1ReasonCode
state_reason unsupported_batch = unsupported_batch_shape
state_reason gate_config_inconsistent = gate_run_identity_inconsistent
state_reason _ = unsupported_run_artifact

unfoldable pub state_status : CompatibilityState → Pass1Status
state_status gate_config_inconsistent = inconclusive
state_status failed_execution = inconclusive
state_status _ = unsupported_comparison

unfoldable pub is_compatible : CompatibilityState → Bool
is_compatible compatible = true
is_compatible _ = false

unfoldable pub prefix_of : Host → List ℕ → ℕ → PrefixForReproduction
prefix_of host reference_ids step =
    let ids = take step reference_ids in
    record {
      exact_token_ids = ids;
      availability =
          if leb (length ids) embedded_prefix_cap then embedded else exact_source_required;
      prefix_start_generated_step = 0;
      prefix_end_generated_step_exclusive = length ids;
      token_count = length ids;
      sha256 = token_ids_sha256 host ids;
    }

module _ (host : Host) (gate : Pass0GateDecision) (binding : Pass0SourceBinding) where
  unfoldable pub metadata_failure : RunReportInputError → String → Pass1Result
  unfolding result error_status
  metadata_failure error role =
      record (result host gate binding true (error_status error) incomplete
        (blocked_at gate "run_artifact")) {
          reason_codes = reason error ∷ [];
          warnings = concat (role ∷ ": " ∷ message error ∷ []) ∷ [];
        }

  unfoldable pub incompatible_result : CompatibilityState → String → Pass1Result
  unfolding result state_status state_reason
  incompatible_result state detail =
      record (result host gate binding true (state_status state) incomplete
        (blocked_at gate (compatibility_state_text state))) {
          reason_codes = state_reason state ∷ [];
          warnings = concat (detail ∷ ": " ∷ compatibility_state_text state ∷ []) ∷ [];
        }

  unfoldable pub prompt_divergence : String → Pass1Result
  unfolding result
  prompt_divergence config_state =
      record (result host gate binding true Pass1Status.input_token_divergence incomplete
        (record (blocked_at gate "prompt_identity") {
          model_family_state = "compatible";
          config_state = config_state;
        })) { pass2_disposition = blocked_by_pass0 }

  -- `_compatibility` of a comparison that goes on.
  unfoldable pub compatibility_of : String → CompatibilityResult
  compatibility_of config_state = record {
    comparison_blocked = false;
    boundary = none;
    model_family_state = "compatible";
    config_state = config_state;
    prompt_identity_evidence =
        prompt_identity_evidence_value gate.artifact.tokenizer_boundary.prompt_identity_evidence;
  }

  module _ (config_state : String) (reference candidate : Pass1RunInput) where
    unfoldable pub arrays_missing : Pass1Result
    unfolding result
    arrays_missing =
        let both_digest_only =
          reference.selected_tokens.evidence_level == digest_only
          && candidate.selected_tokens.evidence_level == digest_only in
        record (result host gate binding true
          (if both_digest_only
            then selected_token_identity_unverified
            else selected_token_array_missing)
          incomplete (compatibility_of config_state)) {
            reference = some reference;
            candidate = some candidate;
            reason_codes =
                Pass1ReasonCode.selected_token_array_missing
                ∷ (if both_digest_only
                    then Pass1ReasonCode.selected_token_identity_unverified ∷ []
                    else []);
          }

    -- Both arrays are there, and this is where they differ first.
    unfoldable pub located : List ℕ → TokenLocalization → Option ℕ → Pass1Result
    unfolding result prefix_of
    located reference_ids localization none =
        record (result host gate binding true token_equivalent_on_observed_range complete
          (compatibility_of config_state)) {
            reference = some reference;
            candidate = some candidate;
            localization = some localization;
            pass2_disposition = not_required;
          }
    located reference_ids localization (some step) =
        record (result host gate binding true first_mismatch_found complete
          (compatibility_of config_state)) {
            reference = some reference;
            candidate = some candidate;
            localization = some localization;
            prefix_for_reproduction = some (prefix_of host reference_ids step);
            pass2_disposition =
                if gate.verdict_strength_limit == checkpoint_confirmation_allowed
                then ready
                else blocked_by_strength_limit;
          }

    unfoldable pub compare_arrays : Option (List ℕ) → Option (List ℕ) → Pass1Result
    compare_arrays (some reference_ids) (some candidate_ids) =
        let localization = locate_first_selected_token_mismatch reference_ids candidate_ids in
        located reference_ids localization localization.generated_token_step
    compare_arrays _ _ = arrays_missing
