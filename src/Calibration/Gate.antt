-- ===== src/Calibration/Gate.antt =====
-- tools/lis_verify/gate.py: what Pass 0 hands to Pass 1.
use local_inference_system.Base.{Bool, List, ◌!=◌}
use local_inference_system.Calibration.Model.{
  CalibrationPreflightArtifact, CalibrationReasonCode, ComparisonEligibility, Pass0Verdict,
  comparison_blocked, VerdictStrengthLimit, OracleEligibility,
}
use local_inference_system.Calibration.Equality.{pass0_verdict_eq}

pub record Pass0GateDecision : Type 0 where
  pub proceed : Bool
  pub eligibility : ComparisonEligibility
  pub verdict : Pass0Verdict
  pub verdict_strength_limit : VerdictStrengthLimit
  pub oracle_eligibility : OracleEligibility
  pub blocking_reasons : List CalibrationReasonCode
  pub artifact : CalibrationPreflightArtifact

unfoldable pub build_gate : CalibrationPreflightArtifact → Pass0GateDecision
build_gate artifact = record {
  proceed = artifact.pass0_verdict != comparison_blocked;
  eligibility = artifact.comparison_eligibility;
  verdict = artifact.pass0_verdict;
  verdict_strength_limit = artifact.verdict_strength_limit;
  oracle_eligibility = artifact.oracle_eligibility;
  blocking_reasons = artifact.blocking_reasons;
  artifact = artifact;
}
