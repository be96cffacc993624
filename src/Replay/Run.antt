-- ===== src/Replay/Run.antt =====
-- tools/lis_verify/pass2.py: the gates of Pass 2 from the prompt on, and the whole run.
pub mod Passed
pub mod Coherent
pub mod Sound
pub mod Complete
use local_inference_system.Base.{
  ℕ, suc, String, Bool, true, false, not, ◌&&◌, ◌||◌, Option, none, some, List, [], ◌∷◌, ◌++◌, ◌==◌,
  ◌!=◌, nat_eq, string_eq, option_eq, any, is_some, if◌then◌else◌, Outcome, ok, err, ◌>>=◌, ◌>>◌,
}
use local_inference_system.Json.Value.{Value}
use local_inference_system.Tokens.Model
use local_inference_system.Tokens.Model.{Pass1Result, TokenLocalization}
use local_inference_system.Tokens.Reports.{Host, CanonicalRunReport}
use local_inference_system.Replay.Model.{
  Pass2Status, Pass2ReasonCode, ReproductionEvidenceTier, Pass3Disposition, Pass2SourceBinding,
  PromptGateResult, PrefixGateResult, PolicyGateResult, CheckpointStepGateResult, ContextGateResult,
  Pass2Result,
}
use local_inference_system.Replay.Evidence.{RunEvidence, original_binding_matches}
use local_inference_system.Replay.Results.{
  initial_binding, result, stopped, early_disposition, policy, thread_warnings,
}
use local_inference_system.Replay.Prefix.{ExpectedPrefix, resolve_expected_prefix}
use local_inference_system.Replay.Compare.{compare_prefixes, context_gate}
use local_inference_system.Replay.Originals.{
  Gate, Pair, or_stop, read_pair, runs_of, blocked, malformed, originals_bound, needs_common_binary,
  read_originals, original_builds, expect, prefix_failure, prefix_status, reproductions,
}

-- What the gates up to the reruns have found.
pub record Material : Type 0 where
  pub binding : Pass2SourceBinding
  pub originals : Pair
  pub gate : PolicyGateResult
  pub expected : ExpectedPrefix
  pub reruns : Option Pair

module _ (host : Host) (pass1 : Pass1Result) where
  module _ (m : Material) where
    abbrev pub runs : List RunEvidence
    runs = runs_of m.originals m.reruns

    abbrev warnings : List String
    warnings = thread_warnings runs

    unfoldable pub prompt_gate : PromptGateResult
    prompt_gate = record {
      status =
          if pass1.compatibility.prompt_identity_evidence == "divergent"
          then "failed"
          else "verified";
      inherited_prompt_identity_evidence = pass1.compatibility.prompt_identity_evidence;
    }

    -- Gate 6: the prompt's identity, which Pass 1 passes on.
    unfoldable pub same_prompt : Gate Unit
    unfolding stopped prompt_gate
    same_prompt =
        if pass1.compatibility.prompt_identity_evidence == "divergent"
        then err
            (record (stopped host pass1 m.binding Pass2Status.comparison_blocked_by_pass0
              Pass3Disposition.blocked_by_pass0 (Pass2ReasonCode.pass1_status_not_reproducible ∷ [])
              warnings) { prompt_reproduction = prompt_gate; policy_reproduction = m.gate })
        else ok tt

    -- Gate 6: the prefix of every run.
    unfoldable pub same_prefix : Gate PrefixGateResult
    unfolding blocked malformed prefix_status prompt_gate
    same_prefix = elim (compare_prefixes host m.expected.values m.expected.prefix.sha256 runs) [
      | err error ↦ err (record (malformed host pass1 m.binding (warnings ++ (error ∷ []))) {
        prompt_reproduction = prompt_gate;
        policy_reproduction = m.gate;
      })
      | ok (prefix, some reason) ↦
          err (record (blocked host pass1 m.binding (prefix_status reason) reason warnings) {
            prompt_reproduction = prompt_gate;
            prefix_reproduction = prefix;
            policy_reproduction = m.gate;
          })
      | ok (prefix, none) ↦ ok prefix
    ]

    -- The binary of every rerun is that of its role's original.
    unfoldable pub reruns_keep_binary : Pair → Option Pair → Bool
    reruns_keep_binary originals none = true
    reruns_keep_binary (reference, candidate) (some (reference_rerun, candidate_rerun)) =
        reference_rerun.binary_fingerprint == reference.binary_fingerprint
        && candidate_rerun.binary_fingerprint == candidate.binary_fingerprint

    unfoldable pub builds_verified : Bool
    unfolding needs_common_binary reruns_keep_binary
    builds_verified =
        if needs_common_binary host pass1
        then not (any (λ run. run.binary_fingerprint != m.originals.0.binary_fingerprint) runs)
        else reruns_keep_binary m.originals m.reruns

    -- Gate 7: the builds of all runs.
    unfoldable pub same_builds : PrefixGateResult → Gate PolicyGateResult
    unfolding blocked policy prompt_gate
    same_builds prefix =
        if builds_verified
        then ok (policy host pass1 runs true)
        else err
            (record (blocked host pass1 m.binding Pass2Status.decode_policy_reproduction_failed
              Pass2ReasonCode.decode_policy_reproduction_failed warnings) {
                prompt_reproduction = prompt_gate;
                prefix_reproduction = prefix;
                policy_reproduction = policy host pass1 runs false;
              })

    unfoldable pub step_is_mapped : TokenLocalization → ℕ → Bool
    step_is_mapped localization step =
        localization.runtime_checkpoint_step == some (suc step)
        && localization.matched_generated_prefix_length == step

    unfoldable pub checkpoint_gate : CheckpointStepGateResult
    unfolding step_is_mapped
    checkpoint_gate = record {
      status =
          if step_is_mapped m.expected.localization m.expected.step then "verified" else "failed";
      generated_token_step = some m.expected.step;
      pass1_runtime_checkpoint_step = m.expected.localization.runtime_checkpoint_step;
      expected_runtime_checkpoint_step = some (suc m.expected.step);
      evidence = "computed_from_pass1_step_mapping";
      trace_runtime_checkpoint_step = none;
      materialized_checkpoint_artifact_verified = false;
    }

    -- Gate 8: the checkpoint of the step.
    unfoldable pub same_checkpoint : PrefixGateResult → PolicyGateResult → Gate Unit
    unfolding blocked prompt_gate checkpoint_gate
    same_checkpoint prefix gate =
        if step_is_mapped m.expected.localization m.expected.step
        then ok tt
        else err
            (record (blocked host pass1 m.binding Pass2Status.checkpoint_step_mapping_mismatch
              Pass2ReasonCode.checkpoint_step_mapping_mismatch warnings) {
                prompt_reproduction = prompt_gate;
                prefix_reproduction = prefix;
                policy_reproduction = gate;
                checkpoint_step_reproduction = checkpoint_gate;
              })

    -- Gates 9 and 10: the context of the runs, and the result.
    unfoldable pub same_context : PrefixGateResult → PolicyGateResult → Gate Pass2Result
    unfolding blocked result prompt_gate checkpoint_gate
    same_context prefix gate =
        let context = context_gate runs m.expected.step in
        if context.status != "verified"
        then err
            (record (blocked host pass1 m.binding Pass2Status.context_position_mismatch
              Pass2ReasonCode.context_position_mismatch warnings) {
                prompt_reproduction = prompt_gate;
                prefix_reproduction = prefix;
                policy_reproduction = gate;
                checkpoint_step_reproduction = checkpoint_gate;
                context_reproduction = context;
              })
        else ok
            (record (result host pass1 m.binding Pass2Status.reproduction_verified
              (if is_some m.reruns
                then ReproductionEvidenceTier.independent_rerun_verified
                else ReproductionEvidenceTier.original_pair_boundary_consistent)
              Pass3Disposition.ready [] warnings) {
                prompt_reproduction = prompt_gate;
                prefix_reproduction = prefix;
                policy_reproduction = gate;
                checkpoint_step_reproduction = checkpoint_gate;
                context_reproduction = context;
              })

    -- Gates 6 to 10.
    unfoldable pub reproduce : Gate Pass2Result
    reproduce = do
      same_prompt
      prefix ← same_prefix
      gate ← same_builds prefix
      same_checkpoint prefix gate
      same_context prefix gate

  module _ (reference_original candidate_original : CanonicalRunReport)
      (exact_prefix_source : Option (List Value))
      (reference_reproduction candidate_reproduction : Option CanonicalRunReport) where
    -- Gates 0 to 5.
    unfoldable pub collect : Gate Material
    collect = do
      let initial =
          initial_binding host pass1 reference_original candidate_original reference_reproduction
            candidate_reproduction
      early_disposition host pass1 initial
      binding ←
          originals_bound host pass1 initial
            (original_binding_matches pass1 reference_original candidate_original)
            (is_some reference_reproduction || is_some candidate_reproduction)
      originals ← read_originals host pass1 reference_original candidate_original binding
      gate ← original_builds host pass1 binding originals
      expected ← expect host pass1 exact_prefix_source binding originals gate
      (bound, reruns) ←
          reproductions host pass1 originals gate binding reference_reproduction
            candidate_reproduction
      ok (record {
        binding = bound;
        originals = originals;
        gate = gate;
        expected = expected;
        reruns = reruns;
      })

    unfoldable pub gates : Gate Pass2Result
    gates = do m ← collect; reproduce m

    unfoldable pub run_prefix_policy_reproduction : Pass2Result
    run_prefix_policy_reproduction = elim gates [ ok r ↦ r | err r ↦ r ]
