-- ===== src/Layers/Exits/Tests.antt =====
-- Pass 3 after a verified result of Pass 2, on two traces that differ.
use local_inference_system.Base.{
  String, true, false, none, some, [], ◌∷◌, ◌≡◌, refl, ok, Nat_discrete, String_discrete,
  Option-discrete, List-discrete,
}
use local_inference_system.Json.Number.{float_equal}
use local_inference_system.Json.Value.{str, end, field, get, value_equal}
use local_inference_system.Calibration.Model.{
  runtime_differential, comparable, comparison_allowed, checkpoint_confirmation_allowed,
}
use local_inference_system.Tokens.Model.{first_mismatch_found, ready}
use local_inference_system.Tokens.Reports.{CanonicalRunReport, canonical_json_sha256, sha256_text}
use local_inference_system.Product.Contract.{after_prefix, hex_digits}
use local_inference_system.Replay.Model.{
  Pass2Result, Pass2Status, Pass3Disposition, ReproductionEvidenceTier,
}
use local_inference_system.Layers.Model.{Pass3Result, logical_key, LogicalKey-discrete}
use local_inference_system.Layers.Inputs.{trace_from_object, target_of, manifest_sha256}
use local_inference_system.Layers.Gates.{
  SourceArtifactBinding, typed_pass2_ready, is_request_only, is_reproduced, is_ready,
  coherent_target, gates_verified, validate_both_source_bindings, expected_target,
  selected_source_hashes, source_hash, both_hashes, check_hash, validated_run_report_binding,
  trace_set_id, set_id_of, is_artifact_set_id, report_manifest_sha256, manifest_of, is_target,
}
use local_inference_system.Layers.Coverage.{
  coverage_of, summary_map, alignment_failure, put, find, map_onto, is_captured, coordinate_map,
  values_of, coordinate_basis_conflicts, basis_of, pair_fault, summary_pair, pairs_fault,
}
use local_inference_system.Layers.Compare.{verdict_at, digests_equal, compare_from, compared}
use local_inference_system.Layers.Localize.{localize, conclude, is_asymmetric}
use local_inference_system.Layers.Normalize.Tests.{
  host, trace_with, artifact_with, first_digest, other_digest, normalized_test, coordinate_on,
  manifest, set_id,
}
use local_inference_system.Layers.Exits.{normalize_both, bindings, localized}
use local_inference_system.Layers.ReportMapping.Blocked.{Explained}
use local_inference_system.Layers.ReportMapping.AllExits.{Exit-Explained}

abbrev report_of : String → CanonicalRunReport
report_of hash = record {
  identity = record {
    run_report_sha256 = hash;
    schema = some "lis.execution_artifact/v1";
    kind = some "run_report";
    model_fingerprint = none;
    config_fingerprint = none;
    input_fingerprint = none;
  };
  materialize = field "schema" (str "lis.execution_artifact/v1") (
      field "kind" (str "run_report")
        (field "artifact_set_id" (str set_id) (field "manifest" manifest end)));
}

abbrev pass2 : Pass2Result
pass2 = record {
  comparison_mode = runtime_differential;
  pass0_verdict = comparison_allowed;
  comparison_eligibility = comparable;
  pass1_status = first_mismatch_found;
  pass1_pass2_disposition = ready;
  source_binding = record {
    pass1_artifact_sha256 = "sha256:00";
    reference_original_run_report_sha256 = some "sha256:01";
    candidate_original_run_report_sha256 = some "sha256:02";
    reference_original_verified = true;
    candidate_original_verified = true;
    reference_reproduction_sha256 = none;
    candidate_reproduction_sha256 = none;
    reproduction_verified = none;
    verified = true;
  };
  source_binding_verified = true;
  status = Pass2Status.reproduction_verified;
  reproduction_evidence_tier = ReproductionEvidenceTier.original_pair_boundary_consistent;
  target = record {
    generated_token_step = some 2;
    expected_runtime_checkpoint_step = some 3;
    matched_generated_prefix_length = some 2;
  };
  prompt_reproduction = record {
    status = "verified";
    inherited_prompt_identity_evidence = "array_equal";
  };
  prefix_reproduction = record {
    status = "verified";
    expected_token_count = some 2;
    expected_sha256 = some "sha256:00";
    verified_sides = [];
    failed_side = none;
    first_diff_index = none;
    mismatch_kind = none;
  };
  policy_reproduction = record {
    status = "verified";
    build_continuity_verified = true;
    inherited_calibration_sha256 = "sha256:00";
    runs = [];
  };
  checkpoint_step_reproduction = record {
    status = "verified";
    generated_token_step = some 2;
    pass1_runtime_checkpoint_step = some 3;
    expected_runtime_checkpoint_step = some 3;
    evidence = "pass1_mapping";
    trace_runtime_checkpoint_step = none;
    materialized_checkpoint_artifact_verified = true;
  };
  context_reproduction = record { status = "verified"; runs = [] };
  pass3_disposition = Pass3Disposition.ready;
  localization_ref = record {
    sha256 = "sha256:00";
    pass1_status = "first_mismatch_found";
    generated_token_step = some 2;
    runtime_checkpoint_step = some 3;
    matched_generated_prefix_length = some 2;
    prefix_availability = "embedded";
    pass2_disposition = "ready";
    verdict_strength_limit = "checkpoint_confirmation_allowed";
    canonical_json = "{}";
  };
  verdict_strength_limit = checkpoint_confirmation_allowed;
  reason_codes = [];
  inherited_pass1_reason_codes = [];
  inherited_pass0_reason_codes = [];
  blocking_reasons = [];
  warnings = [];
}

abbrev binding_of : String → String → SourceArtifactBinding
binding_of role hash = record {
  role = role;
  run_report_sha256 = hash;
  trace_sha256 = "sha256:00";
  artifact_set_id = set_id;
  semantic_manifest_sha256 = "sha256:00";
}

ready_test : typed_pass2_ready pass2 ≡ none
unfolding typed_pass2_ready is_request_only is_reproduced is_ready coherent_target gates_verified
    Option-discrete Nat_discrete String_discrete
ready_test = refl

bound_test :
    bindings host pass2
      (report_of "sha256:01")
      (report_of "sha256:02")
      (trace_with first_digest)
      (trace_with other_digest)
    ≡ ok (binding_of "reference_original" "sha256:01", binding_of "candidate_original" "sha256:02")
unfolding validate_both_source_bindings expected_target selected_source_hashes source_hash
    both_hashes check_hash validated_run_report_binding trace_set_id set_id_of is_artifact_set_id
    report_manifest_sha256 manifest_of is_target trace_from_object target_of manifest_sha256 get
    value_equal canonical_json_sha256 sha256_text after_prefix hex_digits Option-discrete
    Nat_discrete String_discrete float_equal
bound_test = refl

both_test :
    normalize_both host (trace_with first_digest) (trace_with other_digest)
    ≡ ok (artifact_with first_digest, artifact_with other_digest)
unfolding normalize_both
both_test = rw (normalized_test.0, normalized_test.1) refl

abbrev found : Pass3Result
found =
    let a = artifact_with first_digest in
    let mismatch = coordinate_on 0 in
    conclude (coverage_of a (artifact_with other_digest)) []
      (compared (record { coordinate = mismatch; equivalent = false } ∷ []) none (some mismatch))

found_test : localize (artifact_with first_digest) (artifact_with other_digest) [] ≡ ok found
unfolding localize coverage_of LogicalKey-discrete Nat_discrete logical_key String_discrete
    alignment_failure coordinate_basis_conflicts Option-discrete pairs_fault summary_pair find
    summary_map pair_fault List-discrete compare_from verdict_at digests_equal basis_of
    coordinate_map is_captured map_onto put values_of conclude is_asymmetric
found_test = refl

Exit-Explained_example : Explained found
Exit-Explained_example =
    Exit-Explained host pass2 (report_of "sha256:01") (report_of "sha256:02")
      (trace_with first_digest) (trace_with other_digest)
      (localized
        (binding_of "reference_original" "sha256:01", binding_of "candidate_original" "sha256:02")
        (artifact_with first_digest) (artifact_with other_digest) {r = found} ready_test bound_test
        both_test found_test)
