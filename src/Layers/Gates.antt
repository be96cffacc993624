-- ===== src/Layers/Gates.antt =====
-- The gates of Pass 3 before a trace is read: whether the result of Pass 2 is ready (pass3.py), and
-- the binding of both reports and traces to it (pass3_inputs.py).
use local_inference_system.Base.{
  ℕ, ◌+◌, String, Bool, true, false, ◌&&◌, Option, none, some, [], ◌∷◌, ◌==◌, ◌!=◌, nat_eq,
  string_eq, option_eq, is_some, if◌then◌else◌, ok, err, ◌>>=◌, ◌>>◌, require,
}
use local_inference_system.Base.Text.{concat}
use local_inference_system.Json.Number.{pos}
use local_inference_system.Json.Value.{Value, int, dict, Fields, value_equal}
use local_inference_system.Json.Lookup.{get_value, as_text}
use local_inference_system.Tokens.Reports.{Host, CanonicalRunReport, canonical_json_sha256}
use local_inference_system.Product.Contract.{after_prefix, hex_digits}
use local_inference_system.Replay.Model.{
  Pass2Result, Pass2Status, Pass3Disposition, ReproductionEvidenceTier,
}
use local_inference_system.Layers.Model.{Pass3ReasonCode}
use local_inference_system.Layers.Inputs.{
  Pass3InputError, Parse, refused, CanonicalLayerTrace, LayerTraceIdentity,
}

unfoldable pub is_request_only : ReproductionEvidenceTier → Bool
is_request_only ReproductionEvidenceTier.reproduction_request_only = true
is_request_only _ = false

unfoldable pub is_reproduced : Pass2Status → Bool
is_reproduced Pass2Status.reproduction_verified = true
is_reproduced _ = false

unfoldable pub is_ready : Pass3Disposition → Bool
is_ready Pass3Disposition.ready = true
is_ready _ = false

-- The checkpoint's step follows the generated step, and the gate on the steps says the same.
unfoldable pub coherent_target : Pass2Result → Bool
coherent_target pass2 = elim pass2.target.generated_token_step [
  | none ↦ false
  | some step ↦
      pass2.target.expected_runtime_checkpoint_step == some (step + 1)
      && pass2.checkpoint_step_reproduction.expected_runtime_checkpoint_step
        == pass2.target.expected_runtime_checkpoint_step
      && pass2.checkpoint_step_reproduction.generated_token_step
        == pass2.target.generated_token_step
]

unfoldable pub gates_verified : Pass2Result → Bool
gates_verified pass2 =
    pass2.prompt_reproduction.status == "verified"
    && pass2.prefix_reproduction.status == "verified"
    && pass2.policy_reproduction.status == "verified"
    && pass2.context_reproduction.status == "verified"
    && pass2.checkpoint_step_reproduction.status == "verified"

-- The reason for which the result is not ready, if there is one.
unfoldable pub typed_pass2_ready : Pass2Result → Option Pass3ReasonCode
typed_pass2_ready pass2 =
    if is_request_only pass2.reproduction_evidence_tier
    then some Pass3ReasonCode.reproduction_request_only
    else if is_reproduced pass2.status
        && is_ready pass2.pass3_disposition
        && pass2.source_binding_verified
        && pass2.source_binding.verified
        && coherent_target pass2
        && gates_verified pass2
    then none
    else some Pass3ReasonCode.pass2_not_ready

pub record SourceArtifactBinding : Type 0 where
  pub role : String
  pub run_report_sha256 : String
  pub trace_sha256 : String
  pub artifact_set_id : String
  pub semantic_manifest_sha256 : String

abbrev pub faulty : String → String → Pass3ReasonCode → Pass3InputError
faulty role text reason = refused (concat (role ∷ ": " ∷ text ∷ [])) reason

-- A role and the digest of its report, which has to be there.
unfoldable pub source_hash : String → Option String → Parse (String × String)
source_hash role none =
    err
      (refused "Pass 2 source role binding is incomplete" Pass3ReasonCode.binding_metadata_missing)
source_hash role (some sha256) =
    require (sha256 != "")
      (refused "Pass 2 source role binding is incomplete" Pass3ReasonCode.binding_metadata_missing)
    >> ok (role, sha256)

unfoldable pub both_hashes :
    Parse (String × String)
    → Parse (String × String)
    → Parse ((String × String) × (String × String))
both_hashes reference candidate = do r ← reference; c ← candidate; ok (r, c)

-- The reruns where they were verified independently, the originals otherwise.
unfoldable pub selected_source_hashes : Pass2Result → Parse ((String × String) × (String × String))
selected_source_hashes pass2 = elim pass2.reproduction_evidence_tier [
  | ReproductionEvidenceTier.independent_rerun_verified ↦
      both_hashes
        (source_hash "reference_reproduction" pass2.source_binding.reference_reproduction_sha256)
        (source_hash "candidate_reproduction" pass2.source_binding.candidate_reproduction_sha256)
  | _ ↦
      both_hashes
        (source_hash "reference_original" pass2.source_binding.reference_original_run_report_sha256)
        (source_hash "candidate_original" pass2.source_binding.candidate_original_run_report_sha256)
]

unfoldable pub check_hash : String × String → CanonicalRunReport → Parse Unit
check_hash (role, sha256) report = require (report.identity.run_report_sha256 == sha256) (
    faulty role "run-report canonical SHA-256 does not match Pass 2"
      Pass3ReasonCode.run_report_canonical_sha_inconsistent)

-- `_ARTIFACT_SET_ID.fullmatch(value)`
unfoldable pub is_artifact_set_id : String → Bool
is_artifact_set_id value = elim (after_prefix "aset1:" value) [
  | none ↦ false
  | some digits ↦ hex_digits 32 digits
]

-- A text that is an artifact set's identity.
unfoldable pub set_id_of : String → String → Option String → Parse String
set_id_of role text none = err (faulty role text Pass3ReasonCode.binding_metadata_missing)
set_id_of role text (some value) =
    require (is_artifact_set_id value) (faulty role text Pass3ReasonCode.binding_metadata_missing)
    >> ok value

-- The trace is a layer trace of the set, at the target step.
unfoldable pub trace_set_id : String → LayerTraceIdentity → ℕ → Parse String
trace_set_id role identity target = do
  require
      (identity.schema == some "lis.execution_artifact/v1" && identity.kind == some "layer_trace")
      (faulty role "supplied trace is not a layer_trace artifact"
        Pass3ReasonCode.binding_metadata_missing)
  set_id ← set_id_of role "trace artifact_set_id is missing or malformed" identity.artifact_set_id
  require (is_some identity.runtime_checkpoint_step) (
      faulty role "versioned checkpoint layout is unavailable"
        Pass3ReasonCode.unsupported_checkpoint_layout)
  require (identity.runtime_checkpoint_step == some target) (
      faulty role "trace runtime checkpoint step does not match Pass 2"
        Pass3ReasonCode.runtime_checkpoint_step_mismatch)
  ok set_id

abbrev pub incomplete : String → Pass3InputError
incomplete role =
    faulty role "complete report/trace binding metadata is required"
      Pass3ReasonCode.binding_metadata_missing

unfoldable pub manifest_of : String → Value → Parse Fields
manifest_of role (dict manifest) = ok manifest
manifest_of role value = err (incomplete role)

unfoldable pub is_target : Value → ℕ → Bool
is_target (dict runtime) target =
    value_equal (get_value "layer_checkpoint_step" runtime) (int (pos target))
is_target value target = false

-- What the report has to have in common with the trace; returns the digest of the manifest.
unfoldable pub report_manifest_sha256 :
    Host → String → Fields → LayerTraceIdentity → String → ℕ → Parse String
report_manifest_sha256 host role raw identity set_id target = do
  require
      (as_text (get_value "schema" raw) == some "lis.execution_artifact/v1"
        && as_text (get_value "kind" raw) == some "run_report")
      (faulty role "unsupported run report" Pass3ReasonCode.binding_metadata_missing)
  report_set_id ←
      set_id_of role "complete report/trace binding metadata is required"
        (as_text (get_value "artifact_set_id" raw))
  manifest ← manifest_of role (get_value "manifest" raw)
  require (is_some identity.semantic_manifest_sha256) (incomplete role)
  require (report_set_id == set_id) (
      faulty role "report and trace artifact_set_id differ"
        Pass3ReasonCode.artifact_set_id_inconsistent)
  let manifest_sha256 = canonical_json_sha256 host (dict manifest)
  require (identity.semantic_manifest_sha256 == some manifest_sha256) (
      faulty role "report and trace semantic manifests differ"
        Pass3ReasonCode.source_binding_inconsistent)
  require (is_target (get_value "runtime" manifest) target) (
      faulty role "report runtime target does not match Pass 2"
        Pass3ReasonCode.runtime_checkpoint_step_mismatch)
  ok manifest_sha256

unfoldable pub validated_run_report_binding :
    Host
    → String × String
    → CanonicalRunReport
    → CanonicalLayerTrace
    → ℕ
    → Parse SourceArtifactBinding
validated_run_report_binding host (role, sha256) report trace target = do
  check_hash (role, sha256) report
  set_id ← trace_set_id role trace.identity target
  manifest_sha256 ← report_manifest_sha256 host role report.materialize trace.identity set_id target
  ok (record {
    role = role;
    run_report_sha256 = report.identity.run_report_sha256;
    trace_sha256 = trace.identity.trace_sha256;
    artifact_set_id = set_id;
    semantic_manifest_sha256 = manifest_sha256;
  })

unfoldable pub expected_target : Option ℕ → Parse ℕ
expected_target none =
    err (
      refused "Pass 2 target runtime checkpoint step is unavailable"
        Pass3ReasonCode.pass2_not_ready)
expected_target (some target) = ok target

unfoldable pub validate_both_source_bindings :
    Host
    → Pass2Result
    → CanonicalRunReport
    → CanonicalRunReport
    → CanonicalLayerTrace
    → CanonicalLayerTrace
    → Parse (SourceArtifactBinding × SourceArtifactBinding)
validate_both_source_bindings host pass2 reference_report candidate_report reference_trace
      candidate_trace =
    do
      target ← expected_target pass2.target.expected_runtime_checkpoint_step
      (reference_source, candidate_source) ← selected_source_hashes pass2
      check_hash reference_source reference_report
      check_hash candidate_source candidate_report
      reference ←
          validated_run_report_binding host reference_source reference_report reference_trace target
      candidate ←
          validated_run_report_binding host candidate_source candidate_report candidate_trace target
      ok (reference, candidate)
