-- ===== src/Replay/Results.antt =====
-- tools/lis_verify/pass2.py: what every result of Pass 2 takes from Pass 1, and the results for the
-- dispositions of Pass 1.
use local_inference_system.Base.{
  suc, String, Bool, false, Option, none, some, List, [], ◌∷◌, ◌++◌, map, string_eq, ltb, any,
  if◌then◌else◌, unique, Outcome, ok, err,
}
use local_inference_system.Json.Render.{canonical_json}
use local_inference_system.Calibration.Names.{verdict_strength_limit_value}
use local_inference_system.Tokens.Model.{first_mismatch_found, Pass1Result, Pass2Disposition}
use local_inference_system.Tokens.Names.{
  pass1_status_value, pass1_reason_code_value, pass2_disposition_value, prefix_availability_value,
}
use local_inference_system.Tokens.Reports.{Host, CanonicalRunReport, sha256_text}
use local_inference_system.Tokens.Artifact.{serialize}
use local_inference_system.Replay.Model.{
  Pass2Status, Pass2ReasonCode, ReproductionEvidenceTier, Pass3Disposition, Pass2SourceBinding,
  TargetCheckpoint, PrefixGateResult, PolicyGateResult, LocalizationReference, Pass2Result,
}
use local_inference_system.Replay.Names.{pass2_reason_code_value}
use local_inference_system.Replay.Evidence.{RunEvidence, report_sha256}

-- `value.field if value is not None else None`
abbrev pub bind : {A B : Type 0} → (A → Option B) → Option A → Option B
bind f none = none
bind f (some a) = f a

-- A `PrefixGateResult` with its optional fields at their defaults.
abbrev pub prefix_gate : String → PrefixGateResult
prefix_gate status = record {
  status = status;
  expected_token_count = none;
  expected_sha256 = none;
  verified_sides = [];
  failed_side = none;
  first_diff_index = none;
  mismatch_kind = none;
}

module _ (host : Host) (pass1 : Pass1Result) where
  unfoldable pub localization_reference : LocalizationReference
  localization_reference =
      let rendered = canonical_json host.float_repr (serialize pass1) in
      record {
        sha256 = sha256_text host rendered;
        pass1_status = pass1_status_value pass1.status;
        generated_token_step = bind (λ l. l.generated_token_step) pass1.localization;
        runtime_checkpoint_step = bind (λ l. l.runtime_checkpoint_step) pass1.localization;
        matched_generated_prefix_length =
            bind (λ l. some l.matched_generated_prefix_length) pass1.localization;
        prefix_availability = elim pass1.prefix_for_reproduction [
          | none ↦ "not_applicable"
          | some prefix ↦ prefix_availability_value prefix.availability
        ];
        pass2_disposition = pass2_disposition_value pass1.pass2_disposition;
        verdict_strength_limit = verdict_strength_limit_value pass1.verdict_strength_limit;
        canonical_json = rendered;
      }

  unfoldable pub initial_binding :
      CanonicalRunReport
      → CanonicalRunReport
      → Option CanonicalRunReport
      → Option CanonicalRunReport
      → Pass2SourceBinding
  unfolding localization_reference
  initial_binding reference candidate reference_rerun candidate_rerun = record {
    pass1_artifact_sha256 = localization_reference.sha256;
    reference_original_run_report_sha256 = report_sha256 reference;
    candidate_original_run_report_sha256 = report_sha256 candidate;
    reference_original_verified = false;
    candidate_original_verified = false;
    reference_reproduction_sha256 = bind report_sha256 reference_rerun;
    candidate_reproduction_sha256 = bind report_sha256 candidate_rerun;
    reproduction_verified = none;
    verified = false;
  }

  -- `_target`
  unfoldable pub target : TargetCheckpoint
  target = record {
    generated_token_step = bind (λ l. l.generated_token_step) pass1.localization;
    expected_runtime_checkpoint_step =
        bind (λ l. bind (λ n. some (suc n)) l.generated_token_step) pass1.localization;
    matched_generated_prefix_length =
        bind (λ l. some l.matched_generated_prefix_length) pass1.localization;
  }

  -- `_result` with its optional gates at their defaults.
  unfoldable pub result :
      Pass2SourceBinding
      → Pass2Status
      → ReproductionEvidenceTier
      → Pass3Disposition
      → List Pass2ReasonCode
      → List String
      → Pass2Result
  result binding status tier pass3 reasons warnings = record {
    comparison_mode = pass1.comparison_mode;
    pass0_verdict = pass1.pass0_verdict;
    comparison_eligibility = pass1.comparison_eligibility;
    pass1_status = pass1.status;
    pass1_pass2_disposition = pass1.pass2_disposition;
    source_binding = binding;
    source_binding_verified = binding.verified;
    status = status;
    reproduction_evidence_tier = tier;
    target = target;
    prompt_reproduction = record {
      status = "not_evaluated";
      inherited_prompt_identity_evidence = pass1.compatibility.prompt_identity_evidence;
    };
    prefix_reproduction = prefix_gate "not_evaluated";
    policy_reproduction = record {
      status = "not_evaluated";
      build_continuity_verified = false;
      inherited_calibration_sha256 = pass1.calibration_ref.sha256;
      runs = [];
    };
    checkpoint_step_reproduction = record {
      status = "not_evaluated";
      generated_token_step = target.generated_token_step;
      pass1_runtime_checkpoint_step = bind (λ l. l.runtime_checkpoint_step) pass1.localization;
      expected_runtime_checkpoint_step = target.expected_runtime_checkpoint_step;
      evidence = "computed_from_pass1_step_mapping";
      trace_runtime_checkpoint_step = none;
      materialized_checkpoint_artifact_verified = false;
    };
    context_reproduction = record { status = "not_evaluated"; runs = [] };
    pass3_disposition = pass3;
    localization_ref = localization_reference;
    verdict_strength_limit = pass1.verdict_strength_limit;
    reason_codes = reasons;
    inherited_pass1_reason_codes = map pass1_reason_code_value pass1.reason_codes;
    inherited_pass0_reason_codes = pass1.inherited_pass0_reason_codes;
    blocking_reasons = unique (pass1.blocking_reasons ++ map pass2_reason_code_value reasons);
    warnings = unique (pass1.warnings ++ warnings);
  }

  -- A result that stops before anything is reproduced.
  unfoldable pub stopped :
      Pass2SourceBinding
      → Pass2Status
      → Pass3Disposition
      → List Pass2ReasonCode
      → List String
      → Pass2Result
  unfolding result
  stopped binding status pass3 reasons warnings =
      result binding status ReproductionEvidenceTier.reproduction_request_only pass3 reasons
        warnings

  -- `_early_disposition`: only a first mismatch that Pass 1 calls ready goes on.
  unfoldable pub early_disposition : Pass2SourceBinding → Outcome Pass2Result Unit
  unfolding stopped
  early_disposition binding = elim pass1.pass2_disposition [
    | Pass2Disposition.ready ↦ elim pass1.status [
      | first_mismatch_found ↦ ok tt
      | _ ↦ err (
          stopped binding Pass2Status.inconclusive Pass3Disposition.blocked_by_reproduction
            (Pass2ReasonCode.pass1_status_not_reproducible ∷ []) [])
    ]
    | Pass2Disposition.not_required ↦
        err
          (stopped binding Pass2Status.no_mismatch_to_reproduce Pass3Disposition.not_required [] [])
    | Pass2Disposition.blocked_by_pass0 ↦ err (
        stopped binding Pass2Status.comparison_blocked_by_pass0 Pass3Disposition.blocked_by_pass0 []
          [])
    | Pass2Disposition.blocked_by_evidence ↦ err (
        stopped binding Pass2Status.token_localization_not_available
          Pass3Disposition.blocked_by_pass1_evidence [] [])
    | Pass2Disposition.blocked_by_strength_limit ↦ err (
        stopped binding Pass2Status.unsupported_reproduction_mode
          Pass3Disposition.blocked_by_reproduction
          (Pass2ReasonCode.verdict_strength_limit_blocks_reproduction ∷ []) [])
  ]

  -- `_policy`, where the status is that of the test.
  unfoldable pub policy : List RunEvidence → Bool → PolicyGateResult
  policy runs verified = record {
    status = if verified then "verified" else "failed";
    build_continuity_verified = verified;
    inherited_calibration_sha256 = pass1.calibration_ref.sha256;
    runs =
        map (λ run. record { role = run.role; binary_fingerprint = run.binary_fingerprint }) runs;
  }

-- `_thread_warnings`
unfoldable pub thread_warnings : List RunEvidence → List String
thread_warnings runs =
    if any (λ run. ltb 1 run.thread_count) runs
    then "thread_count_gt_1_determinism_caveat" ∷ []
    else []
