-- ===== src/Replay/Originals.antt =====
-- tools/lis_verify/pass2.py: the gates of Pass 2 before the prefix is compared. A gate that stops the
-- run gives the result as an `err`.
use local_inference_system.Base.{
  String, Bool, true, false, not, ◌&&◌, ◌||◌, Option, none, some, List, [], ◌∷◌, ◌++◌, ◌==◌, nat_eq,
  string_eq, option_eq, if◌then◌else◌, Outcome, ok, err, ◌>>=◌,
}
use local_inference_system.Json.Value.{Value}
use local_inference_system.Calibration.Model.{backend_differential}
use local_inference_system.Calibration.Equality.{comparison_mode_eq}
use local_inference_system.Tokens.Model.{Pass1Result}
use local_inference_system.Tokens.Reports.{Host, CanonicalRunReport}
use local_inference_system.Replay.Model.{
  Pass2Status, Pass2ReasonCode, Pass3Disposition, Pass2SourceBinding, PolicyGateResult, Pass2Result,
}
use local_inference_system.Replay.Evidence.{
  RunEvidence, Read, extract_run_evidence, reproduction_identity_matches,
}
use local_inference_system.Replay.Results.{prefix_gate, stopped, policy, thread_warnings}
use local_inference_system.Replay.Prefix.{PrefixFault, ExpectedPrefix, resolve_expected_prefix}

abbrev pub Gate : Type 0 → Type 0
Gate A = Outcome Pass2Result A

abbrev pub Pair : Type 0
Pair = RunEvidence × RunEvidence

-- What a reader's error stops the run with.
abbrev pub or_stop : {E A : Type 0} → Outcome E A → (E → Pass2Result) → Gate A
or_stop (ok a) stop = ok a
or_stop (err e) stop = err (stop e)

unfoldable pub read_pair : CanonicalRunReport → String → CanonicalRunReport → String → Read Pair
read_pair reference reference_role candidate candidate_role = do
  r ← extract_run_evidence reference reference_role
  c ← extract_run_evidence candidate candidate_role
  ok (r, c)

unfoldable pub is_unavailable : Pass2ReasonCode → Bool
is_unavailable Pass2ReasonCode.prefix_material_unavailable = true
is_unavailable _ = false

-- The status of a prefix that is not reproduced.
unfoldable pub prefix_status : Pass2ReasonCode → Pass2Status
unfolding is_unavailable
prefix_status reason =
    if is_unavailable reason
    then Pass2Status.prefix_material_unavailable
    else Pass2Status.prefix_reproduction_failed

-- The runs in order: the originals, then the reruns.
abbrev pub runs_of : Pair → Option Pair → List RunEvidence
runs_of (reference, candidate) none = reference ∷ candidate ∷ []
runs_of (reference, candidate) (some (reference_rerun, candidate_rerun)) =
    reference ∷ candidate ∷ reference_rerun ∷ candidate_rerun ∷ []

module _ (host : Host) (pass1 : Pass1Result) where
  -- A stop that blocks the later passes for the reproduction's sake.
  unfoldable pub blocked :
      Pass2SourceBinding → Pass2Status → Pass2ReasonCode → List String → Pass2Result
  unfolding stopped
  blocked binding status reason warnings =
      stopped host pass1 binding status Pass3Disposition.blocked_by_reproduction (reason ∷ [])
        warnings

  unfoldable pub malformed : Pass2SourceBinding → List String → Pass2Result
  unfolding blocked
  malformed binding warnings =
      blocked binding Pass2Status.inconclusive Pass2ReasonCode.reproduction_artifact_malformed
        warnings

  -- Gate 1: the hashes of the originals, before a report is opened.
  unfoldable pub originals_bound : Pass2SourceBinding → Bool × Bool → Bool → Gate Pass2SourceBinding
  unfolding blocked
  originals_bound initial (reference_matches, candidate_matches) has_reproductions =
      let binding : Pass2SourceBinding = record initial {
        reference_original_verified = reference_matches;
        candidate_original_verified = candidate_matches;
        verified = reference_matches && candidate_matches && not has_reproductions;
      } in
      if not (reference_matches && candidate_matches)
      then err (
          blocked binding Pass2Status.source_binding_inconsistent
            Pass2ReasonCode.source_binding_inconsistent [])
      else ok binding

  -- Gate 2: the metadata of the originals.
  unfoldable pub read_originals :
      CanonicalRunReport → CanonicalRunReport → Pass2SourceBinding → Gate Pair
  unfolding malformed
  read_originals reference candidate binding =
      or_stop (read_pair reference "reference_original" candidate "candidate_original")
        (λ error. malformed binding (error ∷ []))

  -- Two dispatch paths of one binary are compared, and not two binaries.
  unfoldable pub needs_common_binary : Bool
  needs_common_binary = pass1.comparison_mode == backend_differential

  -- Gate 3: the builds of the originals.
  unfoldable pub original_builds : Pass2SourceBinding → Pair → Gate PolicyGateResult
  unfolding blocked needs_common_binary policy
  original_builds binding (reference, candidate) =
      let runs = reference ∷ candidate ∷ [] in
      let verified =
        not needs_common_binary || reference.binary_fingerprint == candidate.binary_fingerprint in
      let gate = policy host pass1 runs verified in
      if verified
      then ok gate
      else err
          (record (blocked binding Pass2Status.decode_policy_reproduction_failed
            Pass2ReasonCode.decode_policy_reproduction_failed (thread_warnings runs)) {
              policy_reproduction = gate;
            })

  -- `_prefix_failure_result`
  unfoldable pub prefix_failure :
      Pass2SourceBinding → PolicyGateResult → List String → PrefixFault → Pass2Result
  unfolding blocked prefix_status is_unavailable
  prefix_failure binding gate warnings fault =
      record (blocked binding (prefix_status fault.reason) fault.reason warnings) {
        prefix_reproduction =
            record (prefix_gate (if is_unavailable fault.reason then "unavailable" else "failed")) {
              expected_token_count = elim pass1.prefix_for_reproduction [
                | none ↦ none
                | some prefix ↦ some prefix.token_count
              ];
              expected_sha256 = elim pass1.prefix_for_reproduction [
                | none ↦ none
                | some prefix ↦ some prefix.sha256
              ];
              mismatch_kind = fault.mismatch_kind;
            };
        policy_reproduction = gate;
      }

  -- Gate 4: the expected prefix, which is not looked for again.
  unfoldable pub expect :
      Option (List Value) → Pass2SourceBinding → Pair → PolicyGateResult → Gate ExpectedPrefix
  expect source binding originals gate =
      or_stop (resolve_expected_prefix host pass1 source)
        (prefix_failure binding gate (thread_warnings (runs_of originals none)))

  module _ (originals : Pair) (gate : PolicyGateResult) where
    abbrev original_warnings : List String
    original_warnings = thread_warnings (runs_of originals none)

    -- Gate 5: the reruns come in a pair, are identified by their hashes, and are then read.
    unfoldable pub read_reruns :
        Pass2SourceBinding
        → CanonicalRunReport
        → CanonicalRunReport
        → Gate (Pass2SourceBinding × Option Pair)
    unfolding blocked malformed
    read_reruns binding reference candidate =
        let matches =
          reproduction_identity_matches reference originals.0
          && reproduction_identity_matches candidate originals.1 in
        let bound : Pass2SourceBinding = record binding {
          reproduction_verified = some matches;
          verified =
              binding.reference_original_verified && binding.candidate_original_verified && matches;
        } in
        if not matches
        then err
            (record (blocked bound Pass2Status.source_binding_inconsistent
              Pass2ReasonCode.source_binding_inconsistent original_warnings) {
                policy_reproduction = gate;
              })
        else do
          reruns ←
              or_stop
                (read_pair reference "reference_reproduction" candidate "candidate_reproduction")
                (λ error. record (malformed bound (original_warnings ++ (error ∷ []))) {
                  policy_reproduction = gate;
                })
          ok (bound, some reruns)

    unfoldable pub reproductions :
        Pass2SourceBinding
        → Option CanonicalRunReport
        → Option CanonicalRunReport
        → Gate (Pass2SourceBinding × Option Pair)
    unfolding blocked read_reruns
    reproductions binding none none = ok (binding, none)
    reproductions binding (some reference) (some candidate) =
        read_reruns binding reference candidate
    reproductions binding reference candidate =
        err
          (record (blocked (record binding { reproduction_verified = some false; verified = false })
            Pass2Status.unsupported_reproduction_mode Pass2ReasonCode.unsupported_reproduction_mode
            original_warnings) { policy_reproduction = gate })
