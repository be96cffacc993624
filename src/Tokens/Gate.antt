-- ===== src/Tokens/Gate.antt =====
-- tools/lis_verify/pass1.py: what Pass 1 checks of the gate and of the two reports before it reads a
-- selected token.
use Prim.Native.Char.{code}
use local_inference_system.Base.{
  String, Bool, true, false, not, ◌&&◌, ◌||◌, Option, none, some, List, map, ◌≡◌, arith, ◌==◌, ◌!=◌,
  nat_eq, string_eq, bool_eq, option_eq, list_eq, if◌then◌else◌, contains, is_some,
}
use local_inference_system.Calibration.Model.{
  CalibrationPreflightArtifact, config_fingerprint_mismatch, runtime_config_fingerprint_missing,
  input_token_divergence, incompatible_model_family, incompatible_decode_policy, comparison_blocked,
}
use local_inference_system.Calibration.Equality.{
  comparison_eligibility_eq, pass0_verdict_eq, verdict_strength_limit_eq, oracle_eligibility_eq,
  calibration_reason_code_eq,
}
use local_inference_system.Calibration.Gate.{Pass0GateDecision, build_gate}
use local_inference_system.Calibration.Names.{calibration_reason_code_value}
use local_inference_system.Tokens.Model.{
  RunReportIdentity, RunReportMetadata, run_report_identity_eq,
}
use local_inference_system.Tokens.Reports.{CanonicalRunReport}

unfoldable pub gate_is_coherent : Pass0GateDecision → Bool
gate_is_coherent gate =
    let artifact = gate.artifact in
    gate.proceed == (gate.verdict != comparison_blocked)
    && gate.eligibility == artifact.comparison_eligibility
    && gate.verdict == artifact.pass0_verdict
    && gate.verdict_strength_limit == artifact.verdict_strength_limit
    && gate.oracle_eligibility == artifact.oracle_eligibility
    && gate.blocking_reasons == artifact.blocking_reasons

unfoldable pub binding_matches : CanonicalRunReport → RunReportIdentity → Bool
binding_matches source expected = source.identity == expected

unfoldable pub inherited_codes : Pass0GateDecision → List String
inherited_codes gate = map calibration_reason_code_value gate.artifact.reason_codes

unfoldable pub blocking_codes : Pass0GateDecision → List String
blocking_codes gate = map calibration_reason_code_value gate.blocking_reasons

unfoldable pub blocked_boundary : Pass0GateDecision → String
blocked_boundary gate =
    if contains input_token_divergence gate.blocking_reasons
    then "prompt_identity"
    else if contains incompatible_model_family gate.blocking_reasons
    then "model_family"
    else if contains config_fingerprint_mismatch gate.blocking_reasons
    then "config"
    else if contains incompatible_decode_policy gate.blocking_reasons
    then "decode_policy"
    else "pass0"

pub data CompatibilityState : Type 0 where
  compatible failed_execution unsupported_model_family unsupported_batch : CompatibilityState
  incompatible_family incompatible_model_fingerprint : CompatibilityState
  gate_config_inconsistent : CompatibilityState

unfoldable pub compatibility_state_text : CompatibilityState → String
compatibility_state_text compatible = "compatible"
compatibility_state_text failed_execution = "failed_execution"
compatibility_state_text unsupported_model_family = "unsupported_model_family"
compatibility_state_text unsupported_batch = "unsupported_batch"
compatibility_state_text incompatible_family = "incompatible_model_family"
compatibility_state_text incompatible_model_fingerprint = "incompatible_model_fingerprint"
compatibility_state_text gate_config_inconsistent = "gate_config_inconsistent"

-- `status.lower() == "ok"`; the Kelvin sign is a third letter whose lower case is `k`.
unfoldable pub is_ok : String → Bool
is_ok (String.◌∷◌ o (String.◌∷◌ k String.[])) =
    (code o == 111 || code o == 79) && (code k == 107 || code k == 75 || code k == 0x212a)
is_ok _ = false

unfoldable pub supported_model_family : Option String → Bool
supported_model_family family =
    family == some "llama3_decoder" || family == some "qwen3_dense_decoder"

-- The first fault of one side, if any.
unfoldable pub side_fault : RunReportMetadata → Option CompatibilityState
unfolding is_ok supported_model_family
side_fault metadata =
    if not (elim metadata.execution_status [ none ↦ false | some status ↦ is_ok status ])
    then some failed_execution
    else if not (supported_model_family metadata.model_family)
    then some unsupported_model_family
    else if metadata.batch_size != some 1
    then some unsupported_batch
    else none

-- The faults of the pair, once each side has none.
unfoldable pub pair_state :
    Pass0GateDecision → RunReportMetadata → RunReportMetadata → CompatibilityState × String
pair_state gate reference candidate =
    let codes = gate.artifact.reason_codes in
    let config_mismatch = reference.config_fingerprint != candidate.config_fingerprint in
    let recorded_mismatch = contains config_fingerprint_mismatch codes in
    let recorded_missing = contains runtime_config_fingerprint_missing codes in
    let config_missing =
      not (is_some reference.config_fingerprint) || not (is_some candidate.config_fingerprint) in
    if reference.model_family != candidate.model_family
    then (incompatible_family, "comparison")
    else if is_some reference.model_fingerprint
        && is_some candidate.model_fingerprint
        && reference.model_fingerprint != candidate.model_fingerprint
    then (incompatible_model_fingerprint, "comparison")
    else if config_mismatch && not (recorded_mismatch || recorded_missing)
    then (gate_config_inconsistent, "comparison")
    else if not config_mismatch && recorded_mismatch
    then (gate_config_inconsistent, "comparison")
    else if config_missing && not recorded_missing
    then (gate_config_inconsistent, "comparison")
    else (
      compatible,
      if config_mismatch || config_missing then "accepted_by_pass0" else "compatible",
    )

unfoldable pub validate_run_compatibility :
    Pass0GateDecision → RunReportMetadata → RunReportMetadata → CompatibilityState × String
validate_run_compatibility gate reference candidate = elim (side_fault reference) [
  | some fault ↦ (fault, reference.role)
  | none ↦ elim (side_fault candidate) [
    | some fault ↦ (fault, candidate.role)
    | none ↦ pair_state gate reference candidate
  ]
]

-- The gate that Pass 0 builds from any artifact passes the check of Pass 1.
pub build_gate-coherent :
    (artifact : CalibrationPreflightArtifact) → gate_is_coherent (build_gate artifact) ≡ true
unfolding build_gate gate_is_coherent
build_gate-coherent artifact = ground arith
