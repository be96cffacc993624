-- ===== src/Tokens/Artifact.antt =====
-- tools/lis_verify/pass1_artifact.py: the JSON object of a result of Pass 1, without the embedded
-- calibration, which the later passes do not ask for.
use local_inference_system.Base.{
  ℕ, Bool, true, false, ◌&&◌, Option, none, some, map, length, leb, if◌then◌else◌,
}
use local_inference_system.Json.Number.{pos}
use local_inference_system.Json.Value.{Value, null, bool, int, str, list, dict, Fields, end, field}
use local_inference_system.Calibration.Artifact.{texts}
use local_inference_system.Calibration.Names.{
  comparison_mode_value, comparison_eligibility_value, pass0_verdict_value,
  verdict_strength_limit_value,
}
use local_inference_system.Tokens.Model.{
  NormalizedDigest, Pass1RunInput, TokenLocalization, PrefixForReproduction, PrefixAvailability,
  embedded, CalibrationReference, CompatibilityResult, Pass1Result,
}
use local_inference_system.Tokens.Names.{
  pass1_status_value, mismatch_kind_value, selected_token_evidence_level_value,
  pass2_disposition_value, evidence_completeness_value, prefix_availability_value,
  pass1_reason_code_value,
}
use local_inference_system.Tokens.Reports.{token_items}
use local_inference_system.Tokens.Results.{embedded_prefix_cap}

abbrev pub optional : {A : Type 0} → (A → Value) → Option A → Value
optional f none = null
optional f (some a) = f a

abbrev pub number : ℕ → Value
number n = int (pos n)

serialize_digest : NormalizedDigest → Fields
serialize_digest d = field "algorithm" (optional str d.algorithm) (
    field "value" (optional str d.value) (
      field "size_bytes" (optional number d.size_bytes) (
        field "valid" (bool d.valid)
          (field "matches_array" (optional bool d.matches_array) (end)))))

-- `_selected` of an input that is there; `observed_length` is that of the array.
serialize_selected : Pass1RunInput → Fields
serialize_selected input =
    field "level" (str (selected_token_evidence_level_value input.selected_tokens.evidence_level)) (
      field "source_locations" (list (texts input.selected_tokens.source_locations)) (
        field "declared_count" (optional number input.selected_tokens.declared_count) (
          field "observed_array_length"
            (optional (λ ids. number (length ids)) input.selected_tokens.token_ids)
            (field "digest" (dict (serialize_digest input.selected_tokens.digest)) (
              field "stop_reason" (optional str input.selected_tokens.stop_reason) (
                field "generation_limit" (optional number input.selected_tokens.generation_limit)
                  (end)))))))

serialize_localization : TokenLocalization → Fields
serialize_localization l = field "generated_token_step" (optional number l.generated_token_step) (
    field "runtime_checkpoint_step" (optional number l.runtime_checkpoint_step) (
      field "reference_selected_token_id" (optional number l.reference_selected_token_id) (
        field "candidate_selected_token_id" (optional number l.candidate_selected_token_id) (
          field "matched_generated_prefix_length" (number l.matched_generated_prefix_length) (
            field "observed_reference_generated_length"
              (number l.observed_reference_generated_length)
              (field "observed_candidate_generated_length"
                (number l.observed_candidate_generated_length)
                (field "mismatch_kind" (optional (λ k. str (mismatch_kind_value k)) l.mismatch_kind)
                  (end))))))))

unfoldable pub is_embedded : PrefixAvailability → Bool
is_embedded embedded = true
is_embedded _ = false

-- The token IDs are given only where they are embedded and within the cap.
embedded_ids : PrefixForReproduction → Value
embedded_ids p =
    if is_embedded p.availability && leb p.token_count embedded_prefix_cap
    then list (token_items p.exact_token_ids)
    else null

serialize_prefix : Option PrefixForReproduction → Fields
serialize_prefix none = field "availability" (str "not_applicable") (
    field "generated_prefix_token_ids" (null) (
      field "generated_prefix_token_count" (number 0) (
        field "generated_prefix_sha256" (null) (
          field "prefix_start_generated_step" (number 0)
            (field "prefix_end_generated_step_exclusive" (number 0) (end))))))
serialize_prefix (some p) = field "availability" (str (prefix_availability_value p.availability)) (
    field "generated_prefix_token_ids" (embedded_ids p) (
      field "generated_prefix_token_count" (number p.token_count) (
        field "generated_prefix_sha256" (str p.sha256) (
          field "prefix_start_generated_step" (number p.prefix_start_generated_step) (
            field "prefix_end_generated_step_exclusive"
              (number p.prefix_end_generated_step_exclusive) (end))))))

serialize_compatibility : CompatibilityResult → Fields
serialize_compatibility c = field "comparison_blocked" (bool c.comparison_blocked) (
    field "boundary" (optional str c.boundary) (
      field "model_family_state" (str c.model_family_state) (
        field "config_state" (str c.config_state)
          (field "prompt_identity_evidence" (str c.prompt_identity_evidence) (end)))))

serialize_calibration : CalibrationReference → Fields
serialize_calibration c = field "sha256" (str c.sha256) (
    field "summary"
      (dict (
        field "comparison_mode" (str c.comparison_mode) (
          field "pass0_verdict" (str c.pass0_verdict) (
            field "comparison_eligibility" (str c.comparison_eligibility) (
              field "prompt_identity_evidence" (str c.prompt_identity_evidence) (
                field "verdict_strength_limit" (str c.verdict_strength_limit) (
                  field "blocking_reasons" (list (texts c.blocking_reasons))
                    (field "oracle_scope" (str c.oracle_scope) (end)))))))))
      (field "embedded" (null) (end)))

unfoldable pub serialize : Pass1Result → Value
unfolding serialize_selected serialize_digest serialize_localization serialize_prefix embedded_ids
    is_embedded serialize_compatibility serialize_calibration
serialize r = dict (
    field "schema" (str "lis.execution_artifact/v1") (
      field "kind" (str "token_localization") (
        field "contract_version" (str "differential_verification_contract_v1") (
          field "comparison_mode" (str (comparison_mode_value r.comparison_mode)) (
            field "pass0_verdict" (str (pass0_verdict_value r.pass0_verdict)) (
              field "comparison_eligibility"
                (str (comparison_eligibility_value r.comparison_eligibility))
                (field "source_binding"
                  (dict (
                    field "reference_run_report_sha256"
                      (str r.source_binding.reference.run_report_sha256)
                      (field "candidate_run_report_sha256"
                        (str r.source_binding.candidate.run_report_sha256)
                        (field "verified" (bool r.source_binding_verified) (end)))))
                  (field "pass1_status" (str (pass1_status_value r.status)) (
                    field "evidence_scope" (str "generated_selected_token_sequences") (
                      field "evidence_completeness"
                        (str (evidence_completeness_value r.evidence_completeness))
                        (field "compatibility" (dict (serialize_compatibility r.compatibility)) (
                          field "selected_token_evidence"
                            (dict (
                              field "reference"
                                (optional (λ i. dict (serialize_selected i)) r.reference)
                                (field "candidate"
                                  (optional (λ i. dict (serialize_selected i)) r.candidate) (end))))
                            (field "token_localization"
                              (optional (λ l. dict (serialize_localization l)) r.localization)
                              (field "prefix_for_reproduction"
                                (dict (serialize_prefix r.prefix_for_reproduction))
                                (field "pass2_disposition"
                                  (str (pass2_disposition_value r.pass2_disposition))
                                  (field "calibration_ref"
                                    (dict (serialize_calibration r.calibration_ref))
                                    (field "verdict_strength_limit"
                                      (str (verdict_strength_limit_value r.verdict_strength_limit))
                                      (field "reason_codes"
                                        (list (texts (map pass1_reason_code_value r.reason_codes)))
                                        (field "inherited_pass0_reason_codes"
                                          (list (texts r.inherited_pass0_reason_codes))
                                          (field "blocking_reasons"
                                            (list (texts r.blocking_reasons))
                                            (field "warnings" (list (texts r.warnings))
                                              (end))))))))))))))))))))))
