-- ===== src/Product/Aggregation/Totality.antt =====
-- The tables of the product have an entry for all that the passes report.
use local_inference_system.Base.{
  is_some, ◌⊎◌, string_eq, ℕ, String, Bool, true, false, some, List, ◌≡◌, ◌≢◌, ◌↔◌, refl, arith,
  contains, ◌==◌, nat_eq, String_discrete, ok,
}
use local_inference_system.Calibration.Model.{CalibrationReasonCode}
use local_inference_system.Calibration.Equality.{calibration_reason_code_eq}
use local_inference_system.Calibration.Names.{calibration_reason_code_value}
use local_inference_system.Calibration.Inputs.{PreflightInputs}
use local_inference_system.Calibration.Preflight.{run_calibration_preflight}
use local_inference_system.Calibration.Model
use local_inference_system.Calibration.ReportMapping.{map_block_reason, map_block_reason-blocking}
use local_inference_system.Calibration.Gate.{Pass0GateDecision}
use local_inference_system.Tokens.Model.{
  Pass0SourceBinding, Pass1Status, token_equivalent_on_observed_range,
}
use local_inference_system.Tokens.Names.{pass1_status_value}
use local_inference_system.Tokens.Reports.{Host, CanonicalRunReport}
use local_inference_system.Tokens.Run.{run_token_localization}
use local_inference_system.Tokens.Run.Reach.{Reached}
use local_inference_system.Tokens.Run.Soundness.{run-equal_sound}
use local_inference_system.Product.Model.{
  CustomerVerdict, pass, regression, unsupported, require_supported,
}
use local_inference_system.Product.Contract.{expected_exit_code}
use local_inference_system.Product.Aggregation.{
  lookup, action_of, decide, resolve_pass_status, resolve_pass0_block_reason, policy_result_for,
  AggregationDecision,
}

differs : (s t : String) → (s == t) ≡ false → s ≢ t
differs s t h e = ground arith

status-resolves :
    (s : Pass1Status)
    → (d : AggregationDecision) × (resolve_pass_status "pass1" (pass1_status_value s) ≡ ok d)
      × (d.target ≡ "PASS" → s ≡ token_equivalent_on_observed_range)
unfolding resolve_pass_status pass1_status_value lookup action_of decide String_discrete
status-resolves token_equivalent_on_observed_range = (_, refl, λ h. refl)
status-resolves s = (_, refl, λ h. absurd (differs _ "PASS" refl h))

-- Every status of Pass 1 has a decision, and a decision that ends in PASS follows only a run whose
-- gate, binding, metadata and prompts are in order, and whose reports hold the same tokens.
pub pass1-decided :
    (host : Host) (gate : Pass0GateDecision) (binding : Pass0SourceBinding)
    (reference candidate : CanonicalRunReport)
    → (d : AggregationDecision) × (resolve_pass_status "pass1"
          (pass1_status_value (run_token_localization host gate binding reference candidate).status)
        ≡ ok d)
      × (d.target ≡ "PASS"
          → (reached : Reached host gate binding reference candidate) × (ids : List ℕ)
            × (reached.sequences.0.token_ids ≡ some ids)
            × (reached.sequences.1.token_ids ≡ some ids))
pass1-decided host gate binding reference candidate =
    let (d, decided, passes) =
      status-resolves (run_token_localization host gate binding reference candidate).status in
    (d, decided, λ h. run-equal_sound host gate binding reference candidate (passes h))

mapped-resolves :
    (c : CalibrationReasonCode)
    → is_some (map_block_reason c) ≡ true
    → (v : CustomerVerdict) × (resolve_pass0_block_reason (calibration_reason_code_value c) ≡ ok v)
      × (v ≢ pass)
      × (v ≢ regression)
unfolding resolve_pass0_block_reason calibration_reason_code_value lookup String_discrete
    map_block_reason
mapped-resolves Model.incompatible_decode_policy h = (_, refl, λ e. cc, λ e. cc)
mapped-resolves Model.input_token_divergence h = (_, refl, λ e. cc, λ e. cc)
mapped-resolves Model.incompatible_model_family h = (_, refl, λ e. cc, λ e. cc)
mapped-resolves Model.config_fingerprint_mismatch h = (_, refl, λ e. cc, λ e. cc)
mapped-resolves Model.external_oracle_ineligible h = (_, refl, λ e. cc, λ e. cc)
mapped-resolves Model.prompt_token_array_missing h = (_, refl, λ e. cc, λ e. cc)
mapped-resolves Model.prompt_token_identity_unverified h = (_, refl, λ e. cc, λ e. cc)
mapped-resolves _ h = absurd (ground (arith, h))

-- Every reason for which Pass 0 blocks a comparison has a verdict of the product, which is neither
-- PASS nor REGRESSION.
pub block_reason-resolves :
    (inputs : PreflightInputs) (c : CalibrationReasonCode)
    → contains c (run_calibration_preflight inputs).blocking_reasons ≡ true
    → (v : CustomerVerdict) × (resolve_pass0_block_reason (calibration_reason_code_value c) ≡ ok v)
      × (v ≢ pass)
      × (v ≢ regression)
block_reason-resolves inputs c h = mapped-resolves c (map_block_reason-blocking inputs c h)

-- The policy result is satisfied exactly at exit code 0: for PASS, and for UNSUPPORTED unless support
-- is required.
pub policy_result-satisfied_iff :
    (verdict : CustomerVerdict) (supported : Bool) (reason : String)
    → let r = policy_result_for verdict supported reason in
      (r.satisfied ≡ true ↔ r.exit_code ≡ 0)
      × (r.satisfied ≡ true ↔ ((verdict ≡ pass) ⊎ ((verdict ≡ unsupported) × (supported ≡ false))))
unfolding policy_result_for expected_exit_code
policy_result-satisfied_iff verdict supported reason = ground arith

-- Where support is required, the exit code tells the verdict.
pub expected_exit_code-injective :
    (v w : CustomerVerdict)
    → expected_exit_code v require_supported ≡ expected_exit_code w require_supported
    → v ≡ w
unfolding expected_exit_code
expected_exit_code-injective v w h = ground arith
