-- ===== src/Replay/Forced.antt =====
-- tools/lis_verify/forced_prefix.py: the metadata that bind a forced-prefix report to its sources,
-- and the validation of such a report. `ForcedPrefixBindingError` is its text.
pub mod Builds
pub mod Metadata
pub mod Sound
mod Tests
use local_inference_system.Base.{
  ℕ, suc, ◌+◌, String, Bool, true, false, not, ◌&&◌, ◌||◌, Option, none, some, List, [], ◌∷◌, ◌==◌,
  ◌!=◌, nat_eq, string_eq, option_eq, contains, is_nonempty, is_some, length, leb, get_elem?,
  if◌then◌else◌, Outcome, ok, err, ◌>>=◌, ◌>>◌, require,
}
use local_inference_system.Base.Text.{concat}
use local_inference_system.Json.Value.{
  Value, null, bool, str, list, dict, Items, nil, cons, Fields, end, field, value_equal,
}
use local_inference_system.Json.Lookup.{get_value, as_object, as_text}
use local_inference_system.Tokens.Model.{
  Pass1Result, Pass1Status, first_mismatch_found, PrefixForReproduction, PrefixAvailability,
  embedded, TokenLocalization, RunReportIdentity, run_report_identity_eq,
}
use local_inference_system.Tokens.Reports.{Host, CanonicalRunReport}
use local_inference_system.Tokens.Artifact.{number, optional, is_embedded}
use local_inference_system.Product.ForcedPrefix.{
  selection_policy_sha256, validate_forced_prefix_metadata, max_token_id_preview, ForcedPrefix,
}
use local_inference_system.Replay.Evidence.{
  RunEvidence, nonempty_text, extract_run_evidence, reproduction_identity_matches, selected_tokens,
}
use local_inference_system.Replay.Results.{localization_reference}

abbrev pub Bound : Type 0 → Type 0
Bound A = Outcome String A

-- `_backend`: the name and the fingerprint, where the backend is an object.
unfoldable pub backend : Fields → Value × Value
backend raw = elim (get_value "backend" (as_object (get_value "manifest" raw))) [
  | dict fields ↦ (get_value "name" fields, get_value "fingerprint" fields)
  | _ ↦ (null, null)
]

unfoldable mutual
  pub contains_prohibited_key : List String → Value → Bool
  contains_prohibited_key prohibited (dict fields) = prohibited_field prohibited fields
  contains_prohibited_key prohibited (list items) = prohibited_item prohibited items
  contains_prohibited_key prohibited _ = false

  pub prohibited_field : List String → Fields → Bool
  prohibited_field prohibited end = false
  prohibited_field prohibited (field key child rest) =
      contains key prohibited
      || contains_prohibited_key prohibited child
      || prohibited_field prohibited rest

  pub prohibited_item : List String → Items → Bool
  prohibited_item prohibited nil = false
  prohibited_item prohibited (cons child rest) =
      contains_prohibited_key prohibited child || prohibited_item prohibited rest

-- The prefix and the localization of a mismatch that can be reproduced by forcing.
unfoldable pub is_bounded : PrefixForReproduction → Bool
is_bounded prefix =
    is_embedded prefix.availability
    && is_nonempty prefix.exact_token_ids
    && prefix.token_count == length prefix.exact_token_ids
    && leb prefix.token_count max_token_id_preview

unfoldable pub bounded_prefix : Pass1Result → Bound (PrefixForReproduction × TokenLocalization)
unfolding is_bounded
bounded_prefix pass1 = elim pass1.prefix_for_reproduction [
  | none ↦ err "a bounded exact non-empty prefix is required"
  | some prefix ↦ elim pass1.localization [
    | none ↦ err "a bounded exact non-empty prefix is required"
    | some localization ↦
        if is_bounded prefix
        then ok (prefix, localization)
        else err "a bounded exact non-empty prefix is required"
  ]
]

unfoldable pub expected_identity : Pass1Result → String → RunReportIdentity
expected_identity pass1 role =
    if role == "reference" then pass1.source_binding.reference else pass1.source_binding.candidate

unfoldable pub is_first_mismatch : Pass1Status → Bool
is_first_mismatch first_mismatch_found = true
is_first_mismatch _ = false

-- The runs agree on the backend, the builds and the context.
unfoldable pub same_runtime : RunEvidence → RunEvidence → Bool
same_runtime original rerun =
    rerun.prompt_token_count == original.prompt_token_count
    && rerun.batch_size == original.batch_size
    && rerun.thread_count == original.thread_count
    && rerun.configured_context == original.configured_context

unfoldable pub same_backend : RunEvidence → RunEvidence → Bool
unfolding backend
same_backend original rerun =
    value_equal (backend original.raw).0 (backend rerun.raw).0
    && value_equal (backend original.raw).1 (backend rerun.raw).1

-- `_artifact_set_id` of both is there, and is the same.
unfoldable pub reuses_artifacts : RunEvidence → RunEvidence → Bool
reuses_artifacts original rerun =
    let original_set = nonempty_text (get_value "artifact_set_id" original.raw) in
    let rerun_set = nonempty_text (get_value "artifact_set_id" rerun.raw) in
    is_some original_set && is_some rerun_set && original_set == rerun_set

-- The rerun kept one token, the original's at the target step.
unfoldable pub target_reproduced : Option (List ℕ) → Option ℕ → List ℕ → Bool
target_reproduced (some selected) (some step) (token ∷ []) = get_elem? selected step == some token
target_reproduced selected step observed = false

unfoldable pub only_token : Option (List ℕ) → Bound (List ℕ)
only_token (some (token ∷ [])) = ok (token ∷ [])
only_token observed = err "forced-prefix report must retain only the target selected token"

unfoldable pub target_step : Option TokenLocalization → Option ℕ
target_step none = none
target_step (some localization) = localization.generated_token_step

unfoldable pub well_formed : Host → Value → Bound ForcedPrefix
well_formed host forced = elim (validate_forced_prefix_metadata host forced) [
  | ok read ↦ ok read
  | err error ↦ err "forced-prefix metadata is malformed"
]

-- The rerun against the original, once its metadata are the expected ones.
unfoldable pub validate_rerun :
    Host → Option ℕ → CanonicalRunReport → RunEvidence → RunEvidence → Bound Unit
unfolding same_runtime same_backend reuses_artifacts target_reproduced
validate_rerun host step reproduction original rerun = do
  require (reproduction_identity_matches reproduction original)
      "model, config, or input identity changed"
  require (rerun.binary_fingerprint == original.binary_fingerprint)
      "binary identity changed across reproduction"
  require (same_backend original rerun) "backend identity changed across reproduction"
  require (same_runtime original rerun) "runtime context changed across reproduction"
  require (not (reuses_artifacts original rerun)) "reproduction reused the original artifact set"
  original_selected ← selected_tokens host original
  observed ← selected_tokens host rerun
  tokens ← only_token observed
  require (target_reproduced original_selected step tokens)
      "forced-prefix target selection did not reproduce the original role"
  require
      (not (
        contains_prohibited_key
          ("full_forced_prefix_token_ids" ∷ "raw_prompt_text" ∷ "raw_generated_text" ∷ [])
          (dict reproduction.materialize)))
      "forced-prefix report retained prohibited data"

module _ (host : Host) (pass1 : Pass1Result) where
  -- The fields of the object that is written.
  unfoldable pub forced_fields :
      CanonicalRunReport
      → RunEvidence
      → PrefixForReproduction
      → TokenLocalization
      → String
      → String
      → Fields
  forced_fields original run prefix localization policy policy_sha256 =
      let pass1_sha256 = (localization_reference host pass1).sha256 in
      field "mode" (str "injected_selected_token_prefix_v1") (
        field "applied" (bool true) (
          field "token_count" (number prefix.token_count) (
            field "token_ids_sha256" (str prefix.sha256) (
              field "prefix_start_generated_step" (number 0) (
                field "prefix_end_generated_step_exclusive" (number prefix.token_count) (
                  field "target_generated_token_step"
                    (optional number localization.generated_token_step)
                    (field "runtime_checkpoint_step"
                      (optional number localization.runtime_checkpoint_step)
                      (field "prompt_token_count" (number run.prompt_token_count) (
                        field "context_position"
                          (number (run.prompt_token_count + prefix.token_count))
                          (field "selection_policy" (str policy) (
                            field "selection_policy_sha256" (str policy_sha256) (
                              field "source_pass0_artifact_sha256"
                                (str pass1.calibration_ref.sha256)
                                (field "source_original_run_report_sha256"
                                  (str original.identity.run_report_sha256)
                                  (field "source_pass1_artifact_sha256" (str pass1_sha256) (
                                    field "source_localization_ref_sha256" (str pass1_sha256)
                                      end)))))))))))))))

  unfoldable pub build_forced_prefix_metadata : CanonicalRunReport → String → String → Bound Value
  unfolding is_first_mismatch
  build_forced_prefix_metadata original role policy = do
    require (contains role ("reference" ∷ "candidate" ∷ [])) "forced-prefix role is unsupported"
    require (is_first_mismatch pass1.status) "forced-prefix binding requires a Pass 1 mismatch"
    (prefix, localization) ← bounded_prefix pass1
    require (original.identity == expected_identity pass1 role)
        "original report is bound to the wrong role"
    run ← extract_run_evidence original (concat (role ∷ "_original" ∷ []))
    policy_sha256 ← selection_policy_sha256 host policy
    let value = dict (forced_fields original run prefix localization policy policy_sha256)
    _ ← validate_forced_prefix_metadata host value
    ok value

  unfoldable pub validate_forced_prefix_reproduction :
      CanonicalRunReport → CanonicalRunReport → String → String → Bound Unit
  validate_forced_prefix_reproduction original reproduction role policy = do
    expected ← build_forced_prefix_metadata original role policy
    let forced = get_value "forced_prefix" reproduction.materialize
    _ ← well_formed host forced
    require (value_equal forced expected) "forced-prefix metadata is stale or source-inconsistent"
    original_run ← extract_run_evidence original (concat (role ∷ "_original" ∷ []))
    rerun ← extract_run_evidence reproduction (concat (role ∷ "_reproduction" ∷ []))
    validate_rerun host (target_step pass1.localization) reproduction original_run rerun

  -- The two reports, each with the default policy.
  unfoldable pub validate_paired_forced_prefix_reproductions :
      CanonicalRunReport → CanonicalRunReport → CanonicalRunReport → CanonicalRunReport → Bound Unit
  validate_paired_forced_prefix_reproductions reference candidate reference_rerun candidate_rerun =
      validate_forced_prefix_reproduction reference reference_rerun "reference"
        "lis_policy_modified_greedy_v1"
      >> validate_forced_prefix_reproduction candidate candidate_rerun "candidate"
          "lis_policy_modified_greedy_v1"
