-- ===== src/Layers/ReportMapping.antt =====
-- tools/lis_verify/pass3_report_mapping.py: the report's reason for a status and for a reason code
-- of Pass 3.
pub mod Blocked
pub mod AllExits
use local_inference_system.Base.{String, Option, none, some}
use local_inference_system.Layers.Model.{Pass3Status, Pass3ReasonCode}

unfoldable pub map_pass3_reason : Pass3ReasonCode → Option String
map_pass3_reason Pass3ReasonCode.pass2_not_ready = some "partial_evidence_inconclusive"
map_pass3_reason Pass3ReasonCode.reproduction_request_only = some "partial_evidence_inconclusive"
map_pass3_reason Pass3ReasonCode.source_binding_inconsistent = some "malformed_artifact"
map_pass3_reason Pass3ReasonCode.pass2_artifact_identity_inconsistent = some "malformed_artifact"
map_pass3_reason Pass3ReasonCode.pass2_object_artifact_inconsistent = some "malformed_artifact"
map_pass3_reason Pass3ReasonCode.run_report_canonical_sha_inconsistent = some "malformed_artifact"
map_pass3_reason Pass3ReasonCode.artifact_set_id_inconsistent = some "malformed_artifact"
map_pass3_reason Pass3ReasonCode.binding_metadata_missing = some "malformed_artifact"
map_pass3_reason Pass3ReasonCode.runtime_checkpoint_step_mismatch = some "malformed_artifact"
map_pass3_reason Pass3ReasonCode.insufficient_common_coverage = some "partial_evidence_inconclusive"
map_pass3_reason Pass3ReasonCode.reference_checkpoint_missing = some "requested_step_absent"
map_pass3_reason Pass3ReasonCode.candidate_checkpoint_missing = some "requested_step_absent"
map_pass3_reason Pass3ReasonCode.checkpoint_alignment_inconsistent = some "unsupported_comparison"
map_pass3_reason Pass3ReasonCode.duplicate_checkpoint_coordinate = some "malformed_artifact"
map_pass3_reason Pass3ReasonCode.checkpoint_summary_malformed = some "malformed_artifact"
map_pass3_reason Pass3ReasonCode.summary_field_missing = some "unsupported_comparison"
map_pass3_reason Pass3ReasonCode.checkpoint_digest_incompatible = some "unsupported_comparison"
map_pass3_reason Pass3ReasonCode.comparison_policy_unavailable = some "unsupported_comparison"
map_pass3_reason Pass3ReasonCode.unsupported_checkpoint_layout = some "unsupported_comparison"
map_pass3_reason Pass3ReasonCode.asymmetric_coverage = some "asymmetric_checkpoint"
map_pass3_reason _ = none

unfoldable pub map_pass3_status : Pass3Status → Option String
map_pass3_status Pass3Status.comparison_blocked_by_pass2 = some "partial_evidence_inconclusive"
map_pass3_status Pass3Status.insufficient_common_coverage = some "partial_evidence_inconclusive"
map_pass3_status Pass3Status.source_binding_inconsistent = some "malformed_artifact"
map_pass3_status Pass3Status.checkpoint_alignment_inconsistent = some "unsupported_comparison"
map_pass3_status Pass3Status.checkpoint_artifact_missing = some "requested_step_absent"
map_pass3_status Pass3Status.checkpoint_summary_malformed = some "malformed_artifact"
map_pass3_status Pass3Status.comparison_policy_unavailable = some "unsupported_comparison"
map_pass3_status Pass3Status.unsupported_checkpoint_layout = some "unsupported_comparison"
map_pass3_status Pass3Status.inconclusive = some "partial_evidence_inconclusive"
map_pass3_status _ = none
