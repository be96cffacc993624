-- ===== src/Replay/Forced/Tests.antt =====
-- Forced-prefix metadata and reports at concrete reports.
use local_inference_system.Base.{
  String, [], ◌∷◌, ◌≡◌, refl, ok, nat_eq, string_eq, String_discrete, Option-discrete, Nat_discrete,
  Bool-discrete, List-discrete, err,
}
use local_inference_system.Json.Value.{Value, str, field, get, value_equal}
use local_inference_system.Json.Number.{float_equal}
use local_inference_system.Json.Lookup.{first, collect_locations}
use local_inference_system.Tokens.Model.{
  Pass1Result, PrefixForReproduction, TokenLocalization, RunReportIdentity-discrete,
}
use local_inference_system.Tokens.Reports.{
  Host, CanonicalRunReport, report_objects, extract_run_metadata, optional_nonnegative_int,
  sha256_text, token_ids_sha256,
}
use local_inference_system.Calibration.Gate.{build_gate}
use local_inference_system.Calibration.Equality.{
  Pass0Verdict-discrete, ComparisonEligibility-discrete, VerdictStrengthLimit-discrete,
  OracleEligibility-discrete, ForcedTokenRuntimeEligibility-discrete, OracleScope-discrete,
  PromptIdentityEvidence-discrete, CalibrationReasonCode-discrete,
}
use local_inference_system.Tokens.Gate.{
  gate_is_coherent, binding_matches, validate_run_compatibility, side_fault, pair_state, is_ok,
  supported_model_family,
}
use local_inference_system.Tokens.Digests.{normalize_digest, validate_digest_for_array}
use local_inference_system.Tokens.Sequence.{
  extract_selected_token_sequence, explicit_array, declared_count, single_metadata_value,
  declared_digest, generation_limit_of, assemble_sequence, checked_evidence,
}
use local_inference_system.Tokens.Locate.{
  locate_first_selected_token_mismatch, first_difference, runtime_checkpoint_step_for_generated,
}
use local_inference_system.Tokens.Results.{
  is_compatible, compare_arrays, located, prefix_of, calibration_reference,
}
use local_inference_system.Tokens.Artifact.{is_embedded}
use local_inference_system.Tokens.Run.{
  run_token_localization, compare_metadata, read_metadata, compare_compatible, compare_sequences,
  read_sequences,
}
use local_inference_system.Tokens.Tests.{gate}
use local_inference_system.Product.Contract.{is_sha256, require_sha256}
use local_inference_system.Product.ForcedPrefix.{
  validate_forced_prefix_metadata, selection_policy_sha256, selection_policy_profile,
  require_exact_keys, keys_within, has_keys, require_int, forced_steps, forced_policy,
  require_digests,
}
use local_inference_system.Replay.Evidence.{
  RunEvidence, extract_run_evidence, required, executed, part_objects, fingerprint, first_prompt,
  runtime_evidence, nonnegative_int, positive_int, optional_positive_int, has_identities,
  reproduction_identity_matches, selected_tokens,
}
use local_inference_system.Replay.Results.{localization_reference}
use local_inference_system.Replay.RunTests.{report_of, evidence_of}
use local_inference_system.Replay.Forced.{
  forced_fields, build_forced_prefix_metadata, validate_forced_prefix_reproduction,
  is_first_mismatch, bounded_prefix, is_bounded, expected_identity, well_formed, validate_rerun,
  only_token, target_reproduced, target_step, same_runtime, same_backend, reuses_artifacts, backend,
  contains_prohibited_key,
}
use local_inference_system.Replay.Forced.Builds.{
  Forcible, WritesDigests, read_back, build_forced_prefix_metadata-read_back,
}
use local_inference_system.Replay.Forced.Sound.{Reruns, forced_reproduction-Reruns}

abbrev hex_text : String
hex_text = "00000000000000000000000000000000000000000000000000000000000000ab"

abbrev digest : String
digest = "sha256:00000000000000000000000000000000000000000000000000000000000000ab"

abbrev host : Host
host = record { sha256_hex = λ text. hex_text; float_repr = λ f. "1.0" }

writes : WritesDigests host
unfolding is_sha256 sha256_text Nat_discrete
writes text = refl

abbrev original : CanonicalRunReport
original = report_of digest (5 ∷ 6 ∷ 7 ∷ [])

abbrev candidate : CanonicalRunReport
candidate = report_of digest (5 ∷ 6 ∷ 8 ∷ [])

abbrev pass1 : Pass1Result
pass1 =
    run_token_localization host gate
      (record { reference = original.identity; candidate = candidate.identity }) original candidate

abbrev policy : String
policy = "lis_policy_modified_greedy_v1"

abbrev prefix : PrefixForReproduction
prefix = prefix_of host (5 ∷ 6 ∷ 7 ∷ []) 2

abbrev localization : TokenLocalization
localization = locate_first_selected_token_mismatch (5 ∷ 6 ∷ 7 ∷ []) (5 ∷ 6 ∷ 8 ∷ [])

abbrev run : RunEvidence
run = evidence_of "reference_original" original

forcible : Forcible host pass1 original "reference" policy run prefix localization
unfolding is_bounded expected_identity run_token_localization gate_is_coherent Bool-discrete
    build_gate Pass0Verdict-discrete ComparisonEligibility-discrete VerdictStrengthLimit-discrete
    OracleEligibility-discrete ForcedTokenRuntimeEligibility-discrete String_discrete
    OracleScope-discrete List-discrete binding_matches RunReportIdentity-discrete Option-discrete
    compare_metadata read_metadata extract_run_metadata first optional_nonnegative_int
    report_objects compare_compatible validate_run_compatibility side_fault pair_state is_ok
    supported_model_family is_compatible PromptIdentityEvidence-discrete compare_sequences
    read_sequences extract_selected_token_sequence explicit_array collect_locations declared_count
    single_metadata_value declared_digest normalize_digest generation_limit_of assemble_sequence
    checked_evidence validate_digest_for_array compare_arrays locate_first_selected_token_mismatch
    first_difference located Nat_discrete CalibrationReasonCode-discrete extract_run_evidence get
    required executed part_objects fingerprint first_prompt runtime_evidence nonnegative_int
    positive_int optional_positive_int has_identities is_sha256 sha256_text is_embedded
    token_ids_sha256 prefix_of runtime_checkpoint_step_for_generated calibration_reference
forcible = record {
  role_known = refl;
  mismatch = refl;
  has_prefix = refl;
  has_localization = refl;
  bounded = refl;
  step = refl;
  checkpoint = refl;
  bound = refl;
  read = refl;
  prefix_digest = refl;
  pass0_digest = refl;
  report_digest = refl;
}

build_forced_prefix_metadata-read_back_example :
    (value : Value) × (build_forced_prefix_metadata host pass1 original "reference" policy
      ≡ ok value)
    × (validate_forced_prefix_metadata host value ≡ ok (read_back run prefix))
unfolding String_discrete
build_forced_prefix_metadata-read_back_example =
    build_forced_prefix_metadata-read_back host pass1 original "reference" policy run prefix
      localization writes refl forcible

abbrev rerun : CanonicalRunReport
rerun = record (report_of digest (7 ∷ [])) {
  materialize =
      field "forced_prefix"
        (elim (build_forced_prefix_metadata host pass1 original "reference" policy) [
          | ok value ↦ value
          | err e ↦ str e
        ])
        (report_of digest (7 ∷ [])).materialize;
}

accepted_test :
    validate_forced_prefix_reproduction host pass1 original rerun "reference" policy ≡ ok tt
unfolding validate_forced_prefix_reproduction build_forced_prefix_metadata is_first_mismatch
    bounded_prefix is_bounded expected_identity forced_fields well_formed validate_rerun only_token
    target_reproduced target_step same_runtime same_backend reuses_artifacts backend
    contains_prohibited_key run_token_localization gate_is_coherent Bool-discrete build_gate
    Pass0Verdict-discrete ComparisonEligibility-discrete VerdictStrengthLimit-discrete
    OracleEligibility-discrete ForcedTokenRuntimeEligibility-discrete String_discrete
    OracleScope-discrete List-discrete binding_matches RunReportIdentity-discrete Option-discrete
    compare_metadata read_metadata extract_run_metadata first optional_nonnegative_int
    report_objects compare_compatible validate_run_compatibility side_fault pair_state is_ok
    supported_model_family is_compatible PromptIdentityEvidence-discrete compare_sequences
    read_sequences extract_selected_token_sequence explicit_array collect_locations declared_count
    single_metadata_value declared_digest normalize_digest generation_limit_of assemble_sequence
    checked_evidence validate_digest_for_array compare_arrays locate_first_selected_token_mismatch
    first_difference located Nat_discrete CalibrationReasonCode-discrete extract_run_evidence get
    required executed part_objects fingerprint first_prompt runtime_evidence nonnegative_int
    positive_int optional_positive_int has_identities selection_policy_sha256
    selection_policy_profile validate_forced_prefix_metadata require_exact_keys keys_within has_keys
    require_int forced_steps forced_policy require_digests require_sha256 is_sha256 value_equal
    reproduction_identity_matches selected_tokens localization_reference sha256_text is_embedded
    float_equal token_ids_sha256 prefix_of runtime_checkpoint_step_for_generated
    calibration_reference
accepted_test = refl

forced_reproduction-Reruns_example : Reruns host pass1 original rerun "reference" policy
forced_reproduction-Reruns_example =
    forced_reproduction-Reruns host pass1 original rerun "reference" policy accepted_test
