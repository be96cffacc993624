-- ===== src/Tokens/Model.antt =====
-- tools/lis_verify/pass1_model.py: the enums and data classes of Pass 1.
use local_inference_system.Base.{
  ℕ, String, Bool, Option, List, Eq, String_discrete, Option-discrete,
}
use local_inference_system.Calibration.Model.{
  ComparisonMode, Pass0Verdict, ComparisonEligibility, VerdictStrengthLimit,
}

pub data Pass1Status : Type 0 where
  comparison_blocked_by_pass0 token_equivalent_on_observed_range : Pass1Status
  first_mismatch_found input_token_divergence selected_token_array_missing : Pass1Status
  selected_token_identity_unverified unsupported_comparison inconclusive : Pass1Status

pub data MismatchKind : Type 0 where
  token_id_mismatch length_mismatch_or_early_termination : MismatchKind

pub data SelectedTokenEvidenceLevel : Type 0 where
  array_exact digest_only metadata_only missing : SelectedTokenEvidenceLevel

pub data Pass2Disposition : Type 0 where
  ready not_required blocked_by_pass0 blocked_by_evidence : Pass2Disposition
  blocked_by_strength_limit : Pass2Disposition

pub data EvidenceCompleteness : Type 0 where
  complete partial incomplete : EvidenceCompleteness

pub data PrefixAvailability : Type 0 where
  embedded exact_source_required not_applicable : PrefixAvailability

pub data Pass1ReasonCode : Type 0 where
  selected_token_array_missing selected_token_identity_unverified : Pass1ReasonCode
  selected_token_metadata_inconsistent gate_run_identity_inconsistent : Pass1ReasonCode
  unsupported_run_artifact unsupported_batch_shape : Pass1ReasonCode

pub record RunReportIdentity : Type 0 where
  pub run_report_sha256 : String
  pub schema : Option String
  pub kind : Option String
  pub model_fingerprint : Option String
  pub config_fingerprint : Option String
  pub input_fingerprint : Option String

pub record Pass0SourceBinding : Type 0 where
  pub reference : RunReportIdentity
  pub candidate : RunReportIdentity

pub record NormalizedDigest : Type 0 where
  pub algorithm : Option String
  pub value : Option String
  pub size_bytes : Option ℕ
  pub valid : Bool
  pub matches_array : Option Bool

pub record SelectedTokenSequence : Type 0 where
  pub role : String
  pub token_ids : Option (List ℕ)
  pub source_locations : List String
  pub declared_count : Option ℕ
  pub digest : NormalizedDigest
  pub stop_reason : Option String
  pub generation_limit : Option ℕ
  pub evidence_level : SelectedTokenEvidenceLevel

pub record RunReportMetadata : Type 0 where
  pub role : String
  pub schema : Option String
  pub kind : Option String
  pub execution_status : Option String
  pub model_family : Option String
  pub model_fingerprint : Option String
  pub config_fingerprint : Option String
  pub input_fingerprint : Option String
  pub batch_size : Option ℕ

pub record Pass1RunInput : Type 0 where
  pub metadata : RunReportMetadata
  pub identity : RunReportIdentity
  pub selected_tokens : SelectedTokenSequence

pub record TokenLocalization : Type 0 where
  pub generated_token_step : Option ℕ
  pub runtime_checkpoint_step : Option ℕ
  pub reference_selected_token_id : Option ℕ
  pub candidate_selected_token_id : Option ℕ
  pub matched_generated_prefix_length : ℕ
  pub observed_reference_generated_length : ℕ
  pub observed_candidate_generated_length : ℕ
  pub mismatch_kind : Option MismatchKind

pub record PrefixForReproduction : Type 0 where
  pub exact_token_ids : List ℕ
  pub availability : PrefixAvailability
  pub prefix_start_generated_step : ℕ
  pub prefix_end_generated_step_exclusive : ℕ
  pub token_count : ℕ
  pub sha256 : String

pub record CompatibilityResult : Type 0 where
  pub comparison_blocked : Bool
  pub boundary : Option String
  pub model_family_state : String
  pub config_state : String
  pub prompt_identity_evidence : String

pub record CalibrationReference : Type 0 where
  pub sha256 : String
  pub comparison_mode : String
  pub pass0_verdict : String
  pub comparison_eligibility : String
  pub prompt_identity_evidence : String
  pub verdict_strength_limit : String
  pub blocking_reasons : List String
  pub oracle_scope : String
  pub canonical_json : String

-- The four constant fields (`schema`, `kind`, `contract_version`, `evidence_scope`) are left out.
pub record Pass1Result : Type 0 where
  pub comparison_mode : ComparisonMode
  pub pass0_verdict : Pass0Verdict
  pub comparison_eligibility : ComparisonEligibility
  pub source_binding : Pass0SourceBinding
  pub source_binding_verified : Bool
  pub status : Pass1Status
  pub evidence_completeness : EvidenceCompleteness
  pub compatibility : CompatibilityResult
  pub reference : Option Pass1RunInput
  pub candidate : Option Pass1RunInput
  pub localization : Option TokenLocalization
  pub prefix_for_reproduction : Option PrefixForReproduction
  pub pass2_disposition : Pass2Disposition
  pub calibration_ref : CalibrationReference
  pub verdict_strength_limit : VerdictStrengthLimit
  pub reason_codes : List Pass1ReasonCode
  pub inherited_pass0_reason_codes : List String
  pub blocking_reasons : List String
  pub warnings : List String

unfoldable pub SelectedTokenEvidenceLevel-discrete : Discrete SelectedTokenEvidenceLevel
SelectedTokenEvidenceLevel-discrete = hlevel

instance abbrev pub selected_token_evidence_level_eq : Eq SelectedTokenEvidenceLevel
selected_token_evidence_level_eq = record { same = SelectedTokenEvidenceLevel-discrete }

unfoldable pub RunReportIdentity-discrete : Discrete RunReportIdentity
RunReportIdentity-discrete = hlevel (String_discrete, Option-discrete)

instance abbrev pub run_report_identity_eq : Eq RunReportIdentity
run_report_identity_eq = record { same = RunReportIdentity-discrete }
