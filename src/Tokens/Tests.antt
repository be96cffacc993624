-- ===== src/Tokens/Tests.antt =====
-- Pass 1 at concrete reports, and its theorems there.
use local_inference_system.Base.{
  ℕ, String, true, false, none, some, List, [], ◌∷◌, ◌≡◌, ◌≢◌, ◌↔◌, refl, ok, length,
  Option-discrete, Nat_discrete, String_discrete, ◌&&◌, arith,
}
use local_inference_system.Json.Number.{pos, finite}
use local_inference_system.Json.Value.{int, str, list, dict, Items, nil, cons, Fields, end, field}
use local_inference_system.Calibration.Model.{
  CalibrationPreflightArtifact, runtime_differential, comparable, comparison_allowed, raw_greedy,
  direct_token_ids, array_equal, high, calibrated, round_to_nearest_even, internal_lis_and_runtime,
  checkpoint_confirmation_allowed, divergent,
}
use local_inference_system.Calibration.Preflight.{run_calibration_preflight}
use local_inference_system.Calibration.Gate.{Pass0GateDecision, build_gate}
use local_inference_system.Calibration.Tests.{clean_pair}
use local_inference_system.Tokens.Model.{
  Pass0SourceBinding, token_equivalent_on_observed_range, first_mismatch_found,
  SelectedTokenSequence, Pass1Result, RunReportMetadata, array_exact, RunReportIdentity-discrete,
}
use local_inference_system.Tokens.Reports.{
  Host, CanonicalRunReport, build_source_binding, optional_nonnegative_int, extract_run_metadata,
}
use local_inference_system.Tokens.Sequence.{
  extract_selected_token_sequence, explicit_array, declared_count, single_metadata_value,
  declared_digest, generation_limit_of, assemble_sequence, checked_evidence,
}
use local_inference_system.Tokens.Sequence.Coherent.{IsCoherent, extract-IsCoherent}
use local_inference_system.Tokens.Digests.{normalize_digest, validate_digest_for_array}
use local_inference_system.Json.Lookup.{collect_locations, first}
use local_inference_system.Calibration.Equality.{Pass0Verdict-discrete}
use local_inference_system.Calibration.Model.{CalibrationReasonCode}
use local_inference_system.Calibration.Equality.{calibration_reason_code_eq}
use local_inference_system.Calibration.ReportMapping.{map_block_reason}
use local_inference_system.Tokens.Model.{comparison_blocked_by_pass0}
use local_inference_system.Tokens.ReportMapping.{map_pass1_status}
use local_inference_system.Tokens.ReportMapping.Explained.{run-explained}
use local_inference_system.Base.{◌⊎◌, is_some, contains}
use local_inference_system.Tokens.Locate.{locate_first_selected_token_mismatch}
use local_inference_system.Tokens.Locate.Specification.{IsLocalization, locate-IsLocalization}
use local_inference_system.Tokens.Gate.{
  gate_is_coherent, build_gate-coherent, binding_matches, validate_run_compatibility, compatible,
  is_ok, supported_model_family, side_fault, pair_state,
}
use local_inference_system.Tokens.Run.{run_token_localization, read_metadata, read_sequences}
use local_inference_system.Tokens.Run.Reach.{Reached}
use local_inference_system.Tokens.Run.Soundness.{
  FirstMismatch, run-equal_sound, run-mismatch_sound, run-decides,
}

-- A hash and a float printer to run the model with.
abbrev pub host : Host
host = record { sha256_hex = λ text. text; float_repr = λ f. "1.0" }

abbrev items : List ℕ → Items
items [] = nil
items (n ∷ ns) = cons (int (pos n)) (items ns)

abbrev run_report : List ℕ → Fields
run_report ids = field "schema" (str "lis.execution_artifact/v1") (
    field "kind" (str "run_report") (
      field "manifest"
        (dict (
          field "model_family" (str "qwen3_dense_decoder") (
            field "config_fingerprint" (str "fnv1a64:01")
              (field "runtime" (dict (field "batch_size" (int (pos 1)) end)) end))))
        (field "report"
          (dict (
            field "execution_status" (str "OK") (
              field "selected_token_ids" (list (items ids))
                (field "selected_token_count" (int (pos (length ids))) end))))
          end)))

abbrev pub report_of : List ℕ → CanonicalRunReport
report_of ids = record {
  identity = record {
    run_report_sha256 = "sha256:00";
    schema = some "lis.execution_artifact/v1";
    kind = some "run_report";
    model_fingerprint = none;
    config_fingerprint = some "fnv1a64:01";
    input_fingerprint = none;
  };
  materialize = run_report ids;
}

-- The artifact of a comparison that is allowed.
abbrev allowed : CalibrationPreflightArtifact
allowed = record {
  comparison_mode = runtime_differential;
  comparison_eligibility = comparable;
  pass0_verdict = comparison_allowed;
  calibration_status = record {
    decode_policy_calibrated = true;
    config_semantics_calibrated = true;
    numeric_policy_calibrated = true;
    tokenizer_boundary_calibrated = true;
  };
  decode_policy_identity = record {
    selection_mode = raw_greedy;
    repetition_penalty = finite (pos 1) 0;
    repetition_penalty_enabled = false;
    structural_token_suppression = false;
    raw_greedy_equivalent = true;
  };
  tokenizer_boundary = record {
    prompt_boundary = direct_token_ids;
    prompt_token_array_available = true;
    prompt_token_array_equal = some true;
    prompt_token_digest_equal = some true;
    prompt_identity_evidence = array_equal;
    confidence = high;
  };
  config_semantics = record { rms_norm_eps_runtime_bound = true; status = calibrated };
  numeric_policy = record {
    kv_bf16_write = round_to_nearest_even;
    kv_f16_write = round_to_nearest_even;
    round_to_nearest_even = true;
  };
  oracle_eligibility = record {
    lis_internal_backend_differential = true;
    hf_default_greedy = true;
    hf_forced_token_runtime = record {
      potentially_eligible = true;
      artifact_supported = false;
      status = "eligible";
    };
    oracle_scope = internal_lis_and_runtime;
  };
  reason_codes = [];
  warnings = [];
  blocking_reasons = [];
  verdict_strength_limit = checkpoint_confirmation_allowed;
}

abbrev pub gate : Pass0GateDecision
gate = build_gate allowed

abbrev metadata_of : String → RunReportMetadata
metadata_of role = record {
  role = role;
  schema = some "lis.execution_artifact/v1";
  kind = some "run_report";
  execution_status = some "OK";
  model_family = some "qwen3_dense_decoder";
  model_fingerprint = none;
  config_fingerprint = some "fnv1a64:01";
  input_fingerprint = none;
  batch_size = some 1;
}

abbrev sequence_of : String → List ℕ → SelectedTokenSequence
sequence_of role ids = record {
  role = role;
  token_ids = some ids;
  source_locations = "report.selected_token_ids" ∷ [];
  declared_count = some (length ids);
  digest = record {
    algorithm = none;
    value = none;
    size_bytes = none;
    valid = false;
    matches_array = none;
  };
  stop_reason = none;
  generation_limit = none;
  evidence_level = array_exact;
}

abbrev pub binding_of : List ℕ → Pass0SourceBinding
binding_of other = build_source_binding (report_of (5 ∷ 6 ∷ 7 ∷ [])) (report_of other)

abbrev pub ours : List ℕ
ours = 5 ∷ 6 ∷ 7 ∷ []

read_sequence_test :
    extract_selected_token_sequence host (run_report ours) "reference"
    ≡ ok (sequence_of "reference" ours)
unfolding extract_selected_token_sequence explicit_array collect_locations declared_count
    single_metadata_value optional_nonnegative_int declared_digest normalize_digest
    generation_limit_of first assemble_sequence checked_evidence Option-discrete Nat_discrete
    validate_digest_for_array
read_sequence_test = refl

module _ (other : List ℕ) where
  bound_test :
      (binding_matches (report_of ours) (binding_of other).reference
        && binding_matches (report_of other) (binding_of other).candidate)
      ≡ true
  unfolding binding_matches RunReportIdentity-discrete Option-discrete String_discrete
      build_source_binding
  bound_test = refl

  metadata_test :
      read_metadata host gate (binding_of other) (report_of ours) (report_of other)
      ≡ ok (metadata_of "reference", metadata_of "candidate")
  unfolding read_metadata extract_run_metadata Option-discrete String_discrete first
      optional_nonnegative_int
  metadata_test = refl

  comparable_test :
      validate_run_compatibility gate (metadata_of "reference") (metadata_of "candidate")
      ≡ (compatible, "compatible")
  unfolding validate_run_compatibility is_ok Option-discrete String_discrete Nat_discrete build_gate
      supported_model_family side_fault pair_state
  comparable_test = refl

  proceeds_test : gate.proceed ≡ true
  unfolding build_gate Pass0Verdict-discrete
  proceeds_test = refl

  same_prompt_test : gate.artifact.tokenizer_boundary.prompt_identity_evidence ≢ divergent
  unfolding build_gate
  same_prompt_test = λ h. ground (arith, h)

  abbrev reached :
      read_sequences host gate (binding_of other) (report_of ours) (report_of other)
        ≡ ok (sequence_of "reference" ours, sequence_of "candidate" other)
      → Reached host gate (binding_of other) (report_of ours) (report_of other)
  reached read = record {
    coherent = build_gate-coherent allowed;
    bound = bound_test;
    proceeds = proceeds_test;
    metadata = (metadata_of "reference", metadata_of "candidate");
    read_meta = metadata_test;
    detail = "compatible";
    comparable = comparable_test;
    same_prompt = same_prompt_test;
    sequences = (sequence_of "reference" ours, sequence_of "candidate" other);
    read = read;
  }

locate-IsLocalization_example :
    IsLocalization
      (5 ∷ 6 ∷ 7 ∷ [])
      (5 ∷ 6 ∷ [])
      (locate_first_selected_token_mismatch (5 ∷ 6 ∷ 7 ∷ []) (5 ∷ 6 ∷ []))
locate-IsLocalization_example = locate-IsLocalization (5 ∷ 6 ∷ 7 ∷ []) (5 ∷ 6 ∷ [])

build_gate-coherent_example :
    gate_is_coherent (build_gate (run_calibration_preflight clean_pair)) ≡ true
build_gate-coherent_example = build_gate-coherent (run_calibration_preflight clean_pair)

abbrev theirs : List ℕ
theirs = 5 ∷ 6 ∷ 8 ∷ []

same_test :
    read_sequences host gate (binding_of ours) (report_of ours) (report_of ours)
    ≡ ok (sequence_of "reference" ours, sequence_of "candidate" ours)
unfolding read_sequences extract_selected_token_sequence explicit_array collect_locations
    declared_count single_metadata_value optional_nonnegative_int declared_digest normalize_digest
    generation_limit_of first assemble_sequence checked_evidence Option-discrete Nat_discrete
    validate_digest_for_array
same_test = refl

other_test :
    read_sequences host gate (binding_of theirs) (report_of ours) (report_of theirs)
    ≡ ok (sequence_of "reference" ours, sequence_of "candidate" theirs)
unfolding read_sequences extract_selected_token_sequence explicit_array collect_locations
    declared_count single_metadata_value optional_nonnegative_int declared_digest normalize_digest
    generation_limit_of first assemble_sequence checked_evidence Option-discrete Nat_discrete
    validate_digest_for_array
other_test = refl

extract-IsCoherent_example : IsCoherent host (sequence_of "reference" ours)
extract-IsCoherent_example =
    extract-IsCoherent host (run_report ours) "reference" read_sequence_test

abbrev run_with : List ℕ → Pass1Result
run_with other =
    run_token_localization host gate (binding_of other) (report_of ours) (report_of other)

run-decides_example :
    ((run_with theirs).status ≡ token_equivalent_on_observed_range ↔ ours ≡ theirs)
    × ((run_with theirs).status ≡ first_mismatch_found ↔ ours ≢ theirs)
run-decides_example =
    run-decides host gate (binding_of theirs) (report_of ours) (report_of theirs)
      (reached theirs other_test) ours theirs refl refl

same_status : (run_with ours).status ≡ token_equivalent_on_observed_range
same_status =
    (run-decides host gate (binding_of ours) (report_of ours) (report_of ours)
        (reached ours same_test) ours ours refl refl).0.1
      refl

run-equal_sound_example :
    (reached : Reached host gate (binding_of ours) (report_of ours) (report_of ours)) × (ids : List
      ℕ)
    × (reached.sequences.0.token_ids ≡ some ids)
    × (reached.sequences.1.token_ids ≡ some ids)
run-equal_sound_example =
    run-equal_sound host gate (binding_of ours) (report_of ours) (report_of ours) same_status

other_status : (run_with theirs).status ≡ first_mismatch_found
other_status =
    (run-decides host gate (binding_of theirs) (report_of ours) (report_of theirs)
        (reached theirs other_test) ours theirs refl refl).1.1
      (λ same. cc)

run-mismatch_sound_example :
    (reached : Reached host gate (binding_of theirs) (report_of ours) (report_of theirs))
    × (reference_ids : List ℕ) × (candidate_ids : List ℕ) × (reached.sequences.0.token_ids
        ≡ some reference_ids)
    × (reached.sequences.1.token_ids ≡ some candidate_ids)
    × FirstMismatch host gate reference_ids candidate_ids (run_with theirs)
run-mismatch_sound_example =
    run-mismatch_sound host gate (binding_of theirs) (report_of ours) (report_of theirs)
      other_status

run-explained_example :
    (is_some (
        map_pass1_status
          (run_token_localization host
            (build_gate (run_calibration_preflight clean_pair))
            (binding_of theirs)
            (report_of ours)
            (report_of theirs)).status)
      ≡ true)
    ⊎ ((run_token_localization host
          (build_gate (run_calibration_preflight clean_pair))
          (binding_of theirs)
          (report_of ours)
          (report_of theirs)).status
        ≡ first_mismatch_found)
    ⊎ (((run_token_localization host
            (build_gate (run_calibration_preflight clean_pair))
            (binding_of theirs)
            (report_of ours)
            (report_of theirs)).status
          ≡ comparison_blocked_by_pass0)
        × (c : CalibrationReasonCode) × (contains c
              (run_calibration_preflight clean_pair).blocking_reasons
            ≡ true)
        × (is_some (map_block_reason c) ≡ true))
run-explained_example =
    run-explained host clean_pair (binding_of theirs) (report_of ours) (report_of theirs)
