-- ===== src/Tokens/Run.antt =====
-- tools/lis_verify/pass1.py: the run of Pass 1 over a gate and two source-bound reports. The proofs
-- are in the modules below.
pub mod Reach
pub mod Settled
pub mod Arrays
pub mod Soundness
use local_inference_system.Base.{
  ℕ, String, Bool, true, false, not, ◌&&◌, Option, none, some, List, [], ◌∷◌, ◌==◌, string_eq,
  if◌then◌else◌, contains, length, leb, take, Outcome, ok, err, ◌>>=◌,
}
use local_inference_system.Base.Text.{concat}
use local_inference_system.Json.Render.{canonical_json}
use local_inference_system.Calibration.Model.{
  CalibrationReasonCode, PromptIdentityEvidence, divergent, checkpoint_confirmation_allowed,
}
use local_inference_system.Calibration.Equality.{
  calibration_reason_code_eq, prompt_identity_evidence_eq, verdict_strength_limit_eq,
}
use local_inference_system.Calibration.Names.{
  comparison_mode_value, comparison_eligibility_value, pass0_verdict_value,
  prompt_identity_evidence_value, verdict_strength_limit_value, oracle_scope_value,
}
use local_inference_system.Calibration.Artifact.{serialize}
use local_inference_system.Calibration.Gate.{Pass0GateDecision}
use local_inference_system.Tokens.Model
use local_inference_system.Tokens.Model.{
  Pass0SourceBinding, Pass1Status, comparison_blocked_by_pass0, token_equivalent_on_observed_range,
  first_mismatch_found, selected_token_array_missing, selected_token_identity_unverified,
  unsupported_comparison, inconclusive, EvidenceCompleteness, complete, incomplete,
  CompatibilityResult, CalibrationReference, Pass1Result, Pass1ReasonCode,
  gate_run_identity_inconsistent, unsupported_run_artifact, unsupported_batch_shape,
  Pass2Disposition, ready, not_required, blocked_by_pass0, blocked_by_evidence,
  blocked_by_strength_limit, RunReportMetadata, SelectedTokenSequence, Pass1RunInput, digest_only,
  selected_token_evidence_level_eq, TokenLocalization, PrefixForReproduction, embedded,
  exact_source_required,
}
use local_inference_system.Tokens.Errors.{
  RunReportInputError, malformed, unsupported, Read, reason, message,
}
use local_inference_system.Tokens.Reports.{
  Host, sha256_text, token_ids_sha256, CanonicalRunReport, extract_run_metadata,
}
use local_inference_system.Tokens.Sequence.{extract_selected_token_sequence}
use local_inference_system.Tokens.Locate.{locate_first_selected_token_mismatch}
use local_inference_system.Tokens.Gate.{
  gate_is_coherent, binding_matches, inherited_codes, blocking_codes, blocked_boundary,
  CompatibilityState, compatible, failed_execution, unsupported_batch, gate_config_inconsistent,
  compatibility_state_text, validate_run_compatibility,
}
use local_inference_system.Tokens.Results.{
  embedded_prefix_cap, result, calibration_reference, blocked_at, error_status, state_reason,
  state_status, is_compatible, prefix_of, metadata_failure, incompatible_result, prompt_divergence,
  compatibility_of, arrays_missing, located, compare_arrays,
}

module _ (host : Host) (gate : Pass0GateDecision) (binding : Pass0SourceBinding) where
  module _ (reference candidate : CanonicalRunReport) where
    -- The selected tokens of both reports are read here, and not before.
    unfoldable pub read_sequences : Read (SelectedTokenSequence × SelectedTokenSequence)
    read_sequences = do
      r ← extract_selected_token_sequence host reference.materialize "reference"
      c ← extract_selected_token_sequence host candidate.materialize "candidate"
      ok (r, c)

    unfoldable pub read_metadata : Read (RunReportMetadata × RunReportMetadata)
    read_metadata = do
      r ← extract_run_metadata reference.materialize reference.identity "reference"
      c ← extract_run_metadata candidate.materialize candidate.identity "candidate"
      ok (r, c)

    unfoldable pub compare_sequences :
        String
        → RunReportMetadata × RunReportMetadata
        → Read (SelectedTokenSequence × SelectedTokenSequence)
        → Pass1Result
    compare_sequences config_state metadata (err error) =
        metadata_failure host gate binding error "selected-token metadata"
    compare_sequences config_state (r_meta, c_meta) (ok (r, c)) =
        compare_arrays host gate binding config_state
          (record { metadata = r_meta; identity = reference.identity; selected_tokens = r })
          (record { metadata = c_meta; identity = candidate.identity; selected_tokens = c })
          r.token_ids c.token_ids

    unfoldable pub compare_compatible :
        CompatibilityState × String → RunReportMetadata × RunReportMetadata → Pass1Result
    compare_compatible (state, detail) metadata =
        if not (is_compatible state)
        then incompatible_result host gate binding state detail
        else if gate.artifact.tokenizer_boundary.prompt_identity_evidence == divergent
        then prompt_divergence host gate binding detail
        else compare_sequences detail metadata read_sequences

    unfoldable pub compare_metadata : Read (RunReportMetadata × RunReportMetadata) → Pass1Result
    compare_metadata (err error) = metadata_failure host gate binding error "run report"
    compare_metadata (ok (r, c)) = compare_compatible (validate_run_compatibility gate r c) (r, c)

    -- Steps 1 to 4 settle the gate and the identities before a report is opened.
    unfoldable pub run_token_localization : Pass1Result
    unfolding result
    run_token_localization =
        if not (gate_is_coherent gate)
        then record (result host gate binding false inconclusive incomplete
            (blocked_at gate "pass0_gate")) {
              reason_codes = gate_run_identity_inconsistent ∷ [];
              warnings = "Pass0GateDecision is internally inconsistent" ∷ [];
            }
        else if not (
            binding_matches reference binding.reference
            && binding_matches candidate binding.candidate)
        then record (result host gate binding false inconclusive incomplete
            (blocked_at gate "source_binding")) {
              reason_codes = gate_run_identity_inconsistent ∷ [];
              warnings = "supplied run reports do not match Pass 0 source binding" ∷ [];
            }
        else if not gate.proceed
        then record (result host gate binding true
            (if contains CalibrationReasonCode.input_token_divergence gate.blocking_reasons
              then Pass1Status.input_token_divergence
              else comparison_blocked_by_pass0)
            incomplete (blocked_at gate (blocked_boundary gate))) {
              pass2_disposition = blocked_by_pass0;
            }
        else compare_metadata read_metadata
