-- ===== src/Replay/RunTests.antt =====
-- Pass 2 after Pass 1 on two small reports.
use local_inference_system.Base.{
  ℕ, String, true, none, some, List, [], ◌∷◌, ◌≡◌, refl, ok, nat_eq, string_eq, String_discrete,
  Option-discrete, Nat_discrete, Bool-discrete, List-discrete,
}
use local_inference_system.Json.Number.{pos}
use local_inference_system.Json.Value.{
  int, str, list, dict, Items, nil, cons, Fields, end, field, get,
}
use local_inference_system.Json.Lookup.{first, collect_locations}
use local_inference_system.Tokens.Model.{
  Pass0SourceBinding, first_mismatch_found, Pass1Result, RunReportIdentity-discrete,
}
use local_inference_system.Tokens.Reports.{
  CanonicalRunReport, report_objects, extract_run_metadata, optional_nonnegative_int,
}
use local_inference_system.Calibration.Gate.{build_gate}
use local_inference_system.Calibration.Equality.{
  Pass0Verdict-discrete, ComparisonEligibility-discrete, VerdictStrengthLimit-discrete,
  OracleEligibility-discrete, ForcedTokenRuntimeEligibility-discrete, OracleScope-discrete,
  PromptIdentityEvidence-discrete, CalibrationReasonCode-discrete,
}
use local_inference_system.Tokens.Gate.{
  gate_is_coherent, binding_matches, validate_run_compatibility, side_fault, pair_state, is_ok,
  supported_model_family,
}
use local_inference_system.Tokens.Digests.{normalize_digest, validate_digest_for_array}
use local_inference_system.Tokens.Sequence.{
  extract_selected_token_sequence, explicit_array, declared_count, single_metadata_value,
  declared_digest, generation_limit_of, assemble_sequence, checked_evidence,
}
use local_inference_system.Tokens.Locate.{locate_first_selected_token_mismatch, first_difference}
use local_inference_system.Tokens.Results.{is_compatible, compare_arrays, located}
use local_inference_system.Tokens.Run.{
  run_token_localization, compare_metadata, read_metadata, compare_compatible, compare_sequences,
  read_sequences,
}
use local_inference_system.Tokens.Tests.{host, gate}
use local_inference_system.Replay.Model.{Pass2Status}
use local_inference_system.Replay.Evidence.{
  RunEvidence, extract_run_evidence, required, executed, part_objects, fingerprint, first_prompt,
  runtime_evidence, nonnegative_int, positive_int, optional_positive_int, has_identities,
}
use local_inference_system.Replay.Run.{run_prefix_policy_reproduction}
use local_inference_system.Replay.Run.Coherent.{IsCoherent, run-IsCoherent}
use local_inference_system.Replay.Run.Sound.{Reproduced, run-verified_sound}
use local_inference_system.Replay.Follows.Reproduces.{Readable, run-reproduces}

abbrev items : List ℕ → Items
items [] = nil
items (n ∷ ns) = cons (int (pos n)) (items ns)

abbrev runtime : Fields
runtime = field "batch_size" (int (pos 1)) (field "thread_count" (int (pos 8)) end)

abbrev manifest : Fields
manifest = field "model_family" (str "qwen3_dense_decoder") (
    field "config_fingerprint" (str "fnv1a64:01") (
      field "runtime" (dict runtime)
        (field "binary" (dict (field "fingerprint" (str "sha256:ab") end)) end)))

abbrev run_report : List ℕ → Fields
run_report ids = field "schema" (str "lis.execution_artifact/v1") (
    field "kind" (str "run_report") (
      field "manifest" (dict manifest) (
        field "report"
          (dict (
            field "execution_status" (str "OK") (
              field "selected_token_ids" (list (items ids)) (
                field "prompt_sequences"
                  (list (cons (dict (field "token_count" (int (pos 5)) end)) nil)) end))))
          end)))

abbrev pub report_of : String → List ℕ → CanonicalRunReport
report_of hash ids = record {
  identity = record {
    run_report_sha256 = hash;
    schema = some "lis.execution_artifact/v1";
    kind = some "run_report";
    model_fingerprint = some "fnv1a64:02";
    config_fingerprint = some "fnv1a64:01";
    input_fingerprint = some "fnv1a64:03";
  };
  materialize = run_report ids;
}

abbrev reference : CanonicalRunReport
reference = report_of "sha256:00" (5 ∷ 6 ∷ 7 ∷ [])

abbrev candidate : CanonicalRunReport
candidate = report_of "sha256:01" (5 ∷ 6 ∷ 8 ∷ [])

abbrev binding : Pass0SourceBinding
binding = record { reference = reference.identity; candidate = candidate.identity }

abbrev pass1 : Pass1Result
pass1 = run_token_localization host gate binding reference candidate

abbrev pub evidence_of : String → CanonicalRunReport → RunEvidence
evidence_of role report = record {
  role = role;
  identity = report.identity;
  binary_fingerprint = "sha256:ab";
  runtime_fingerprint = none;
  configured_context = none;
  prompt_token_count = 5;
  batch_size = 1;
  thread_count = 8;
  raw = report.materialize;
}

found_test : pass1.status ≡ first_mismatch_found
unfolding run_token_localization gate_is_coherent Bool-discrete build_gate Pass0Verdict-discrete
    ComparisonEligibility-discrete VerdictStrengthLimit-discrete OracleEligibility-discrete
    ForcedTokenRuntimeEligibility-discrete String_discrete OracleScope-discrete List-discrete
    binding_matches RunReportIdentity-discrete Option-discrete compare_metadata read_metadata
    extract_run_metadata first optional_nonnegative_int report_objects compare_compatible
    validate_run_compatibility side_fault pair_state is_ok supported_model_family is_compatible
    PromptIdentityEvidence-discrete compare_sequences read_sequences extract_selected_token_sequence
    explicit_array collect_locations declared_count single_metadata_value declared_digest
    normalize_digest generation_limit_of assemble_sequence checked_evidence
    validate_digest_for_array compare_arrays locate_first_selected_token_mismatch first_difference
    located Nat_discrete CalibrationReasonCode-discrete
found_test = refl

reference_test :
    extract_run_evidence reference "reference_original"
    ≡ ok (evidence_of "reference_original" reference)
unfolding extract_run_evidence Option-discrete get required report_objects executed is_ok
    Nat_discrete part_objects fingerprint first_prompt runtime_evidence nonnegative_int positive_int
    optional_positive_int has_identities
reference_test = refl

candidate_test :
    extract_run_evidence candidate "candidate_original"
    ≡ ok (evidence_of "candidate_original" candidate)
unfolding extract_run_evidence Option-discrete get required report_objects executed is_ok
    Nat_discrete part_objects fingerprint first_prompt runtime_evidence nonnegative_int positive_int
    optional_positive_int has_identities
candidate_test = refl

readable : Readable host gate binding reference candidate
unfolding get String_discrete
readable = record {
  reference_hash = λ h. cc;
  candidate_hash = λ h. cc;
  originals =
      (evidence_of "reference_original" reference, evidence_of "candidate_original" candidate);
  reference_read = reference_test;
  candidate_read = candidate_test;
  reference_unforced = refl;
  candidate_unforced = refl;
  prompts = refl;
  builds = λ _. refl;
}

run-reproduces_example :
    (run_prefix_policy_reproduction host
      (run_token_localization host gate binding reference candidate)
      reference
      candidate
      none
      none
      none).status
    ≡ Pass2Status.reproduction_verified
unfolding build_gate
run-reproduces_example =
    run-reproduces host gate binding reference candidate readable refl found_test

verified_test :
    (run_prefix_policy_reproduction host pass1 reference candidate none none none).status
    ≡ Pass2Status.reproduction_verified
unfolding build_gate
verified_test = run-reproduces host gate binding reference candidate readable refl found_test

run-verified_sound_example :
    Reproduced host pass1 reference candidate none none none
    × ((run_prefix_policy_reproduction host pass1 reference candidate none none
          none).source_binding_verified
        ≡ true)
run-verified_sound_example =
    run-verified_sound host pass1 reference candidate none none none verified_test

run-IsCoherent_example :
    IsCoherent
      (run_prefix_policy_reproduction host pass1 reference candidate none (some reference) none)
run-IsCoherent_example = run-IsCoherent host pass1 reference candidate none (some reference) none
