-- ===== src/Product/Tests.antt =====
-- The product's rules at concrete runs, and their theorems there.
use local_inference_system.Base.{
  ℕ, suc, String, true, false, none, some, List, map, ◌≡◌, ◌≢◌, ◌↔◌, ◌⊎◌, refl, take,
  String_discrete, Nat_discrete, Option-discrete, ok, nat_eq,
}
use local_inference_system.Calibration.Model
use local_inference_system.Calibration.Names.{calibration_reason_code_value}
use local_inference_system.Calibration.Tests.{diverging_pair, diverging_reason}
use local_inference_system.Tokens.Tests.{host, gate, binding_of, report_of, ours}
use local_inference_system.Tokens.Names.{pass1_status_value}
use local_inference_system.Tokens.Run.{run_token_localization}
use local_inference_system.Tokens.Run.Reach.{Reached}
use local_inference_system.Product.Model.{
  CustomerVerdict, pass, regression, unsupported, harness_error, StageResult,
}
use local_inference_system.Product.Contract.{canonical_stages, validate_stages, utf8_length}
use local_inference_system.Product.Machine.{
  StageMachine, next_stage, start, finish_fault, result_of, finish, finalize,
}
use local_inference_system.Product.Machine.Reach.{unmoved, started, finished, Reachable}
use local_inference_system.Product.Machine.Valid.{Each, Bounded, finalize-valid}
use local_inference_system.Product.Machine.Progress.{failure, Closes, Reachable-Closes}
use local_inference_system.Product.Aggregation.{
  AggregationDecision, resolve_pass_status, resolve_pass0_block_reason, policy_result_for,
}
use local_inference_system.Product.Aggregation.Totality.{
  pass1-decided, block_reason-resolves, policy_result-satisfied_iff, expected_exit_code-injective,
}

abbrev row : String → StageResult
row stage = record {
  name = stage;
  state = failure.state;
  result_ref = none;
  evidence_tier = none;
  failure_class = failure.failure_class;
  reason = failure.reason;
  blocker = none;
}

-- The machine after so many failed stages.
abbrev after : ℕ → StageMachine
after n = record { active = none; results = map row (take n canonical_stages) }

one :
    (n : ℕ) (stage : String)
    → start (after n) stage ≡ ok (record (after n) { active = some stage })
    → finish (record (after n) { active = some stage }) failure ≡ ok (row stage, after (suc n))
    → Reachable (after n)
    → Reachable (after (suc n))
one n stage begins ends reach = finished failure (started stage reach begins) ends

all_failed : Reachable (after 12)
unfolding start next_stage finish finish_fault result_of String_discrete Nat_discrete
    Option-discrete
all_failed = one 11 "cleanup" refl refl (
    one 10 "aggregation" refl refl (
      one 9 "pass4_intra_layer_localization" refl refl (
        one 8 "pass3b_authoritative_localization" refl refl (
          one 7 "bounded_recapture" refl refl (
            one 6 "pass3a_discovery" refl refl (
              one 5 "pass2_prefix_policy_reproduction" refl refl (
                one 4 "pass1_token_localization" refl refl (
                  one 3 "pass0_calibration" refl refl (
                    one 2 "candidate_original_execution" refl refl (
                      one 1 "reference_original_execution" refl refl
                        (one 0 "preflight" refl refl (unmoved))))))))))))

final_test : finalize (after 12) ≡ ok (map row canonical_stages)
unfolding finalize next_stage Nat_discrete
final_test = refl

Bounded-test : Each Bounded (map row canonical_stages)
unfolding utf8_length String_discrete
Bounded-test = (
  refl,
  (refl, (refl, (refl, (refl, (refl, (refl, (refl, (refl, (refl, (refl, (refl, tt))))))))))),
)

finalize-valid_example : validate_stages (map row canonical_stages) ≡ ok tt
finalize-valid_example =
    finalize-valid {m = after 12} {rs = map row canonical_stages} all_failed final_test Bounded-test

Reachable-Closes_example : Closes (after 12)
Reachable-Closes_example = Reachable-Closes {m = after 12} all_failed

block_reason-resolves_example :
    (v : CustomerVerdict) × (resolve_pass0_block_reason
        (calibration_reason_code_value Model.input_token_divergence)
      ≡ ok v)
    × (v ≢ pass)
    × (v ≢ regression)
block_reason-resolves_example =
    block_reason-resolves diverging_pair Model.input_token_divergence diverging_reason

policy_result-satisfied_iff_example :
    let r = policy_result_for unsupported true "unsupported_mode" in
    (r.satisfied ≡ true ↔ r.exit_code ≡ 0)
    × (r.satisfied ≡ true ↔ ((unsupported ≡ pass) ⊎ ((unsupported ≡ unsupported) × (true ≡ false))))
policy_result-satisfied_iff_example =
    policy_result-satisfied_iff unsupported true "unsupported_mode"

expected_exit_code-injective_example : harness_error ≡ harness_error
expected_exit_code-injective_example = expected_exit_code-injective harness_error harness_error refl

pass1-decided_example :
    (d : AggregationDecision) × (resolve_pass_status "pass1" (
        pass1_status_value
          (run_token_localization host gate
            (binding_of ours)
            (report_of ours)
            (report_of ours)).status)
      ≡ ok d)
    × (d.target ≡ "PASS"
        → (reached : Reached host gate (binding_of ours) (report_of ours) (report_of ours))
          × (ids : List ℕ) × (reached.sequences.0.token_ids ≡ some ids)
          × (reached.sequences.1.token_ids ≡ some ids))
pass1-decided_example = pass1-decided host gate (binding_of ours) (report_of ours) (report_of ours)
