-- ===== src/Layers/Model.antt =====
-- tools/lis_verify/pass3_model.py and pass3_inputs.py: checkpoints, their coverage, and the result of
-- Pass 3.
use local_inference_system.Base.{ℕ, String, Bool, Option, List, Eq, Nat_discrete, String_discrete}

pub data Pass3Status : Type 0 where
  observable_mismatch_found no_mismatch_in_captured_coverage comparison_blocked_by_pass2 :
      Pass3Status
  insufficient_common_coverage source_binding_inconsistent : Pass3Status
  checkpoint_alignment_inconsistent checkpoint_artifact_missing : Pass3Status
  checkpoint_summary_malformed comparison_policy_unavailable : Pass3Status
  unsupported_checkpoint_layout inconclusive : Pass3Status

pub data Pass3ReasonCode : Type 0 where
  pass2_not_ready reproduction_request_only source_binding_inconsistent : Pass3ReasonCode
  pass2_artifact_identity_inconsistent pass2_object_artifact_inconsistent : Pass3ReasonCode
  run_report_canonical_sha_inconsistent artifact_set_id_inconsistent : Pass3ReasonCode
  binding_metadata_missing runtime_checkpoint_step_mismatch : Pass3ReasonCode
  insufficient_common_coverage reference_checkpoint_missing : Pass3ReasonCode
  candidate_checkpoint_missing checkpoint_alignment_inconsistent : Pass3ReasonCode
  duplicate_checkpoint_coordinate checkpoint_summary_malformed : Pass3ReasonCode
  summary_field_missing checkpoint_digest_incompatible : Pass3ReasonCode
  comparison_policy_unavailable unsupported_checkpoint_layout : Pass3ReasonCode
  asymmetric_coverage observable_mismatch_found : Pass3ReasonCode
  no_mismatch_in_captured_coverage : Pass3ReasonCode

pub data CoverageState : Type 0 where
  captured not_captured unsupported malformed unexpectedly_absent : CoverageState

pub data Pass3DownstreamDisposition : Type 0 where
  blocked exploratory_localization_only suspect_interval_available : Pass3DownstreamDisposition

pub record CheckpointCoordinate : Type 0 where
  pub runtime_checkpoint_step : ℕ
  pub layer_index : ℕ
  pub tensor_role : String
  pub batch_index : ℕ
  pub sequence_index : ℕ
  pub stage_order : ℕ
  pub execution_ordinal : ℕ

unfoldable pub CheckpointCoordinate-discrete : Discrete CheckpointCoordinate
CheckpointCoordinate-discrete = hlevel (Nat_discrete, String_discrete)

instance abbrev pub checkpoint_coordinate_eq : Eq CheckpointCoordinate
checkpoint_coordinate_eq = record { same = CheckpointCoordinate-discrete }

pub record LogicalKey : Type 0 where
  pub step : ℕ
  pub layer : ℕ
  pub role : String
  pub batch : ℕ
  pub sequence : ℕ
  pub stage : ℕ

-- `coordinate.logical_key`
unfoldable pub logical_key : CheckpointCoordinate → LogicalKey
logical_key c = record {
  step = c.runtime_checkpoint_step;
  layer = c.layer_index;
  role = c.tensor_role;
  batch = c.batch_index;
  sequence = c.sequence_index;
  stage = c.stage_order;
}

unfoldable pub LogicalKey-discrete : Discrete LogicalKey
LogicalKey-discrete = hlevel (Nat_discrete, String_discrete)

instance abbrev pub logical_key_eq : Eq LogicalKey
logical_key_eq = record { same = LogicalKey-discrete }

pub record CheckpointDigest : Type 0 where
  pub algorithm : String
  pub version : String
  pub tensor_role : String
  pub shape : List ℕ
  pub observed_dtype : String
  pub byte_order : String
  pub canonicalization : String
  pub value : String

-- The aggregates of a summary (minimum, maximum, mean, norms, counts) are left out: nothing behind
-- the reading of a trace looks at them.
pub record CheckpointSummary : Type 0 where
  pub coordinate : CheckpointCoordinate
  pub source_checkpoint_name : String
  pub phase : String
  pub shape : List ℕ
  pub observed_dtype : String
  pub precision_path : String
  pub element_count : Option ℕ
  pub digest : Option CheckpointDigest

pub record CoverageEntry : Type 0 where
  pub coordinate : CheckpointCoordinate
  pub state : CoverageState
  pub detail : Option String

pub record CheckpointCoverage : Type 0 where
  pub requested_coordinates : List CheckpointCoordinate
  pub captured_coordinates : List CheckpointCoordinate
  pub missing_coordinates : List CoverageEntry
  pub ordered_coordinates : List CheckpointCoordinate
  pub total_layer_count : Option ℕ
  pub layout_name : String

pub record CheckpointSummaryArtifact : Type 0 where
  pub model_family : String
  pub precision_path : String
  pub coverage : CheckpointCoverage
  pub summaries : List CheckpointSummary

pub record CoverageAnalysis : Type 0 where
  pub reference_requested : List CheckpointCoordinate
  pub reference_captured : List CheckpointCoordinate
  pub candidate_requested : List CheckpointCoordinate
  pub candidate_captured : List CheckpointCoordinate
  pub common_captured : List CheckpointCoordinate
  pub reference_only : List CheckpointCoordinate
  pub candidate_only : List CheckpointCoordinate
  pub common_comparable : List CheckpointCoordinate
  pub reference_missing : List CoverageEntry
  pub candidate_missing : List CoverageEntry

-- The mismatching fields, the field results and the evidence level are constant behind `equivalent`.
pub record SummaryComparisonResult : Type 0 where
  pub coordinate : CheckpointCoordinate
  pub equivalent : Bool

pub record SuspectInterval : Type 0 where
  pub start_boundary : String
  pub last_observed_equivalent_coordinate : Option CheckpointCoordinate
  pub first_observed_mismatch_coordinate : CheckpointCoordinate
  pub start_exclusive : Bool
  pub end_inclusive : Bool
  pub unobserved_layer_indices : List ℕ
  pub notation : String

-- The result without what it inherits from Pass 2 and from the bindings, and without the fields that
-- are constant where a comparison was made (the decision field, its semantics, the digest's contract
-- and the evidence level).
pub record Pass3Result : Type 0 where
  pub status : Pass3Status
  pub downstream_disposition : Pass3DownstreamDisposition
  pub coverage : CoverageAnalysis
  pub comparisons : List SummaryComparisonResult
  pub last_observed_equivalent_coordinate : Option CheckpointCoordinate
  pub first_observed_mismatch_coordinate : Option CheckpointCoordinate
  pub earliest_observable_suspect_layer : Option ℕ
  pub suspect_interval : Option SuspectInterval
  pub reason_codes : List Pass3ReasonCode
  pub warnings : List String
