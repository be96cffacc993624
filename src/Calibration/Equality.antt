-- ===== src/Calibration/Equality.antt =====
-- Equality of the enums and data classes of Pass 0.
use local_inference_system.Base.{Eq, Bool-discrete, String_discrete}
use local_inference_system.Calibration.Model.{
  ComparisonMode, ModeBSubmode, ComparisonEligibility, Pass0Verdict, PromptBoundary,
  PromptIdentityEvidence, OracleScope, VerdictStrengthLimit, CalibrationDomain, ReasonSeverity,
  CalibrationReasonCode, ForcedTokenRuntimeEligibility, OracleEligibility,
}

unfoldable pub ComparisonMode-discrete : Discrete ComparisonMode
ComparisonMode-discrete = hlevel

instance abbrev pub comparison_mode_eq : Eq ComparisonMode
comparison_mode_eq = record { same = ComparisonMode-discrete }

unfoldable pub ModeBSubmode-discrete : Discrete ModeBSubmode
ModeBSubmode-discrete = hlevel

instance abbrev pub mode_b_submode_eq : Eq ModeBSubmode
mode_b_submode_eq = record { same = ModeBSubmode-discrete }

unfoldable pub ComparisonEligibility-discrete : Discrete ComparisonEligibility
ComparisonEligibility-discrete = hlevel

instance abbrev pub comparison_eligibility_eq : Eq ComparisonEligibility
comparison_eligibility_eq = record { same = ComparisonEligibility-discrete }

unfoldable pub Pass0Verdict-discrete : Discrete Pass0Verdict
Pass0Verdict-discrete = hlevel

instance abbrev pub pass0_verdict_eq : Eq Pass0Verdict
pass0_verdict_eq = record { same = Pass0Verdict-discrete }

unfoldable pub PromptBoundary-discrete : Discrete PromptBoundary
PromptBoundary-discrete = hlevel

instance abbrev pub prompt_boundary_eq : Eq PromptBoundary
prompt_boundary_eq = record { same = PromptBoundary-discrete }

unfoldable pub PromptIdentityEvidence-discrete : Discrete PromptIdentityEvidence
PromptIdentityEvidence-discrete = hlevel

instance abbrev pub prompt_identity_evidence_eq : Eq PromptIdentityEvidence
prompt_identity_evidence_eq = record { same = PromptIdentityEvidence-discrete }

unfoldable pub OracleScope-discrete : Discrete OracleScope
OracleScope-discrete = hlevel

instance abbrev pub oracle_scope_eq : Eq OracleScope
oracle_scope_eq = record { same = OracleScope-discrete }

unfoldable pub VerdictStrengthLimit-discrete : Discrete VerdictStrengthLimit
VerdictStrengthLimit-discrete = hlevel

instance abbrev pub verdict_strength_limit_eq : Eq VerdictStrengthLimit
verdict_strength_limit_eq = record { same = VerdictStrengthLimit-discrete }

unfoldable pub CalibrationDomain-discrete : Discrete CalibrationDomain
CalibrationDomain-discrete = hlevel

instance abbrev pub calibration_domain_eq : Eq CalibrationDomain
calibration_domain_eq = record { same = CalibrationDomain-discrete }

unfoldable pub ReasonSeverity-discrete : Discrete ReasonSeverity
ReasonSeverity-discrete = hlevel

instance abbrev pub reason_severity_eq : Eq ReasonSeverity
reason_severity_eq = record { same = ReasonSeverity-discrete }

unfoldable pub CalibrationReasonCode-discrete : Discrete CalibrationReasonCode
CalibrationReasonCode-discrete = hlevel

instance abbrev pub calibration_reason_code_eq : Eq CalibrationReasonCode
calibration_reason_code_eq = record { same = CalibrationReasonCode-discrete }

unfoldable pub ForcedTokenRuntimeEligibility-discrete : Discrete ForcedTokenRuntimeEligibility
ForcedTokenRuntimeEligibility-discrete = hlevel (Bool-discrete, String_discrete)

unfoldable pub OracleEligibility-discrete : Discrete OracleEligibility
OracleEligibility-discrete =
    hlevel (Bool-discrete, ForcedTokenRuntimeEligibility-discrete, OracleScope-discrete)

instance abbrev pub oracle_eligibility_eq : Eq OracleEligibility
oracle_eligibility_eq = record { same = OracleEligibility-discrete }
