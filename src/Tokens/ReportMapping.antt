-- ===== src/Tokens/ReportMapping.antt =====
-- tools/lis_verify/pass1_report_mapping.py: the report's reason for a status and for a reason code
-- of Pass 1.
pub mod Explained
use local_inference_system.Base.{String, Option, none, some}
use local_inference_system.Tokens.Model.{
  Pass1Status, token_equivalent_on_observed_range, unsupported_comparison, inconclusive,
  Pass1ReasonCode, selected_token_metadata_inconsistent, gate_run_identity_inconsistent,
  unsupported_run_artifact, unsupported_batch_shape,
}

unfoldable pub map_pass1_reason : Pass1ReasonCode → Option String
map_pass1_reason Pass1ReasonCode.selected_token_array_missing = some "partial_evidence_inconclusive"
map_pass1_reason Pass1ReasonCode.selected_token_identity_unverified =
    some "partial_evidence_inconclusive"
map_pass1_reason selected_token_metadata_inconsistent = some "malformed_artifact"
map_pass1_reason gate_run_identity_inconsistent = some "malformed_artifact"
map_pass1_reason unsupported_run_artifact = some "unsupported_comparison"
map_pass1_reason unsupported_batch_shape = some "unsupported_comparison"

unfoldable pub map_pass1_status : Pass1Status → Option String
map_pass1_status token_equivalent_on_observed_range = some "equivalent_on_observed_coverage"
map_pass1_status Pass1Status.input_token_divergence = some "input_token_divergence"
map_pass1_status Pass1Status.selected_token_array_missing = some "partial_evidence_inconclusive"
map_pass1_status Pass1Status.selected_token_identity_unverified =
    some "partial_evidence_inconclusive"
map_pass1_status unsupported_comparison = some "unsupported_comparison"
map_pass1_status inconclusive = some "partial_evidence_inconclusive"
map_pass1_status _ = none
