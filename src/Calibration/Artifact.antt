-- ===== src/Calibration/Artifact.antt =====
-- tools/lis_verify/artifact.py: the JSON object of a preflight artifact.
use local_inference_system.Base.{Bool, Option, none, some, String, List, [], ◌∷◌, map}
use local_inference_system.Json.Value.{
  Value, null, bool, float, str, list, dict, Items, nil, cons, Fields, end, field,
}
use local_inference_system.Calibration.Model.{
  CalibrationPreflightArtifact, CalibrationStatus, DecodePolicyIdentity, TokenizerBoundary,
  ConfigSemantics, NumericPolicy, OracleEligibility,
}
use local_inference_system.Calibration.Names.{
  comparison_mode_value, comparison_eligibility_value, pass0_verdict_value, selection_mode_value,
  prompt_boundary_value, confidence_value, prompt_identity_evidence_value,
  config_semantics_status_value, kv_write_status_value, oracle_scope_value,
  verdict_strength_limit_value, calibration_reason_code_value,
}

pub texts : List String → Items
texts [] = nil
texts (s ∷ ss) = cons (str s) (texts ss)

optional_bool : Option Bool → Value
optional_bool none = null
optional_bool (some b) = bool b

serialize_status : CalibrationStatus → Fields
serialize_status s = field "decode_policy_calibrated" (bool s.decode_policy_calibrated) (
    field "config_semantics_calibrated" (bool s.config_semantics_calibrated) (
      field "numeric_policy_calibrated" (bool s.numeric_policy_calibrated)
        (field "tokenizer_boundary_calibrated" (bool s.tokenizer_boundary_calibrated) end)))

serialize_identity : DecodePolicyIdentity → Fields
serialize_identity d = field "selection_mode" (str (selection_mode_value d.selection_mode)) (
    field "repetition_penalty" (float d.repetition_penalty) (
      field "repetition_penalty_enabled" (bool d.repetition_penalty_enabled) (
        field "structural_token_suppression" (bool d.structural_token_suppression)
          (field "raw_greedy_equivalent" (bool d.raw_greedy_equivalent) end))))

serialize_boundary : TokenizerBoundary → Fields
serialize_boundary t = field "prompt_boundary" (str (prompt_boundary_value t.prompt_boundary)) (
    field "prompt_token_array_available" (bool t.prompt_token_array_available) (
      field "prompt_token_array_equal" (optional_bool t.prompt_token_array_equal) (
        field "prompt_token_digest_equal" (optional_bool t.prompt_token_digest_equal) (
          field "prompt_identity_evidence"
            (str (prompt_identity_evidence_value t.prompt_identity_evidence))
            (field "confidence" (str (confidence_value t.confidence)) end)))))

serialize_config : ConfigSemantics → Fields
serialize_config c =
    field "rms_norm_eps_runtime_bound" (bool c.rms_norm_eps_runtime_bound)
      (field "status" (str (config_semantics_status_value c.status)) end)

serialize_numeric : NumericPolicy → Fields
serialize_numeric n = field "kv_bf16_write" (str (kv_write_status_value n.kv_bf16_write)) (
    field "kv_f16_write" (str (kv_write_status_value n.kv_f16_write))
      (field "round_to_nearest_even" (bool n.round_to_nearest_even) end))

serialize_oracle : OracleEligibility → Fields
serialize_oracle o =
    let forced = o.hf_forced_token_runtime in
    field "lis_internal_backend_differential" (bool o.lis_internal_backend_differential) (
      field "hf_default_greedy" (bool o.hf_default_greedy) (
        field "hf_forced_token_runtime"
          (dict (
            field "potentially_eligible" (bool forced.potentially_eligible) (
              field "artifact_supported" (bool forced.artifact_supported)
                (field "status" (str forced.status) end))))
          (field "oracle_scope" (str (oracle_scope_value o.oracle_scope)) end)))

unfoldable pub serialize : CalibrationPreflightArtifact → Value
unfolding serialize_status serialize_identity serialize_boundary serialize_config serialize_numeric
    serialize_oracle texts optional_bool
serialize a = dict (
    field "schema" (str "lis.execution_artifact/v1") (
      field "kind" (str "calibration_preflight") (
        field "contract_version" (str "differential_verification_contract_v1") (
          field "comparison_mode" (str (comparison_mode_value a.comparison_mode)) (
            field "comparison_eligibility"
              (str (comparison_eligibility_value a.comparison_eligibility))
              (field "pass0_verdict" (str (pass0_verdict_value a.pass0_verdict)) (
                field "calibration_status" (dict (serialize_status a.calibration_status)) (
                  field "decode_policy_identity"
                    (dict (serialize_identity a.decode_policy_identity))
                    (field "tokenizer_boundary" (dict (serialize_boundary a.tokenizer_boundary)) (
                      field "config_semantics" (dict (serialize_config a.config_semantics)) (
                        field "numeric_policy" (dict (serialize_numeric a.numeric_policy)) (
                          field "oracle_eligibility" (dict (serialize_oracle a.oracle_eligibility))
                            (field "reason_codes"
                              (list (texts (map calibration_reason_code_value a.reason_codes)))
                              (field "warnings" (list (texts a.warnings)) (
                                field "blocking_reasons"
                                  (list
                                    (texts (map calibration_reason_code_value a.blocking_reasons)))
                                  (field "verdict_strength_limit"
                                    (str (verdict_strength_limit_value a.verdict_strength_limit))
                                    end))))))))))))))))
