-- ===== src/Replay/Tests.antt =====
-- The evidence that Pass 2 reads from one small report.
use local_inference_system.Base.{
  true, none, some, ◌≡◌, refl, ok, String_discrete, Option-discrete, Nat_discrete,
}
use local_inference_system.Json.Number.{pos}
use local_inference_system.Json.Value.{int, str, list, dict, nil, cons, Fields, end, field, get}
use local_inference_system.Tokens.Reports.{CanonicalRunReport, report_objects}
use local_inference_system.Tokens.Gate.{is_ok}
use local_inference_system.Replay.Evidence.{
  RunEvidence, extract_run_evidence, positive_int, nonnegative_int, required, executed,
  part_objects, first_prompt, optional_positive_int, has_identities, runtime_evidence, fingerprint,
  reproduction_identity_matches,
}
use local_inference_system.Replay.Evidence.Sound.{IsEvidence, MetadataAgrees, extract-agrees}

abbrev binary : Fields
binary =
    field "fingerprint" (dict (field "algorithm" (str "sha256") (field "hex" (str "ab") end))) end

abbrev runtime : Fields
runtime =
    field "batch_size" (int (pos 1))
      (field "thread_count" (int (pos 8)) (field "configured_context" (int (pos 4096)) end))

abbrev raw : Fields
raw = field "schema" (str "lis.execution_artifact/v1") (
    field "kind" (str "run_report") (
      field "manifest" (dict (field "binary" (dict binary) (field "runtime" (dict runtime) end))) (
        field "report"
          (dict (
            field "execution_status" (str "OK") (
              field "prompt_sequences"
                (list (cons (dict (field "token_count" (int (pos 5)) end)) nil)) end)))
          end)))

abbrev report : CanonicalRunReport
report = record {
  identity = record {
    run_report_sha256 = "sha256:00";
    schema = some "lis.execution_artifact/v1";
    kind = some "run_report";
    model_fingerprint = some "fnv1a64:01";
    config_fingerprint = some "fnv1a64:02";
    input_fingerprint = some "fnv1a64:03";
  };
  materialize = raw;
}

abbrev evidence : RunEvidence
evidence = record {
  role = "reference";
  identity = report.identity;
  binary_fingerprint = "sha256:ab";
  runtime_fingerprint = none;
  configured_context = some 4096;
  prompt_token_count = 5;
  batch_size = 1;
  thread_count = 8;
  raw = raw;
}

evidence_test : extract_run_evidence report "reference" ≡ ok evidence
unfolding extract_run_evidence runtime_evidence positive_int nonnegative_int required executed
    part_objects first_prompt optional_positive_int has_identities fingerprint is_ok report_objects
    get Option-discrete String_discrete Nat_discrete
evidence_test = refl

same_identity_test : reproduction_identity_matches report evidence ≡ true
unfolding reproduction_identity_matches Option-discrete String_discrete
same_identity_test = refl

extract-agrees_example :
    IsEvidence report "reference" evidence × MetadataAgrees report "pass1" evidence
extract-agrees_example = extract-agrees report "reference" "pass1" {e = evidence} evidence_test
