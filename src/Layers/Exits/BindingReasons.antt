-- ===== src/Layers/Exits/BindingReasons.antt =====
-- The reasons that the binding of the reports and traces raises are never those of a comparison.
use local_inference_system.Base.{
  ℕ, String, Option, arith, nat_eq, string_eq, option_eq, list_eq, OnError, >>=-OnError,
}
use local_inference_system.Json.Value.{Fields}
use local_inference_system.Tokens.Reports.{Host, CanonicalRunReport}
use local_inference_system.Replay.Model.{Pass2Result}
use local_inference_system.Layers.Model.{logical_key_eq, checkpoint_coordinate_eq}
use local_inference_system.Layers.Inputs
use local_inference_system.Layers.Gates
use local_inference_system.Layers.Inputs.{Pass3InputError, CanonicalLayerTrace, LayerTraceIdentity}
use local_inference_system.Layers.Exits.Reasons.{Fails, is_failure}

check_hash-Fails :
    (source : String × String) (report : CanonicalRunReport)
    → OnError Fails (Gates.check_hash source report)
unfolding Gates.check_hash is_failure
check_hash-Fails source report = ground arith

source_hash-Fails :
    (role : String) (sha256 : Option String) → OnError Fails (Gates.source_hash role sha256)
unfolding Gates.source_hash is_failure
source_hash-Fails role sha256 = ground arith

both_hashes-Fails :
    (reference candidate : Inputs.Parse (String × String))
    → OnError Fails reference
    → OnError Fails candidate
    → OnError Fails (Gates.both_hashes reference candidate)
unfolding Gates.both_hashes
both_hashes-Fails reference candidate r c = ground (arith, r, c)

hashes-Fails :
    (left right : String) (reference candidate : Option String)
    → OnError Fails
        (Gates.both_hashes (Gates.source_hash left reference) (Gates.source_hash right candidate))
hashes-Fails left right reference candidate =
    both_hashes-Fails _ _ (source_hash-Fails left reference) (source_hash-Fails right candidate)

selected-Fails : (pass2 : Pass2Result) → OnError Fails (Gates.selected_source_hashes pass2)
unfolding Gates.selected_source_hashes
selected-Fails pass2 =
    let binding = pass2.source_binding in
    ground (
      arith,
      hashes-Fails "reference_reproduction" "candidate_reproduction"
          binding.reference_reproduction_sha256 binding.candidate_reproduction_sha256,
      hashes-Fails "reference_original" "candidate_original"
          binding.reference_original_run_report_sha256 binding.candidate_original_run_report_sha256,
    )

trace_set_id-Fails :
    (role : String) (identity : LayerTraceIdentity) (target : ℕ)
    → OnError Fails (Gates.trace_set_id role identity target)
unfolding Gates.trace_set_id Gates.set_id_of is_failure
trace_set_id-Fails role identity target = ground arith

report_manifest-Fails :
    (host : Host) (role : String) (raw : Fields) (identity : LayerTraceIdentity) (set_id : String)
    (target : ℕ)
    → OnError Fails (Gates.report_manifest_sha256 host role raw identity set_id target)
unfolding Gates.report_manifest_sha256 Gates.set_id_of Gates.manifest_of is_failure
report_manifest-Fails host role raw identity set_id target = ground arith

binding-Fails :
    (host : Host) (source : String × String) (report : CanonicalRunReport)
    (trace : CanonicalLayerTrace) (target : ℕ)
    → OnError Fails (Gates.validated_run_report_binding host source report trace target)
unfolding Gates.validated_run_report_binding
binding-Fails host (role, sha256) report trace target =
    >>=-OnError Fails (Gates.check_hash (role, sha256) report) _
      (check_hash-Fails (role, sha256) report)
      λ _ _.
        >>=-OnError Fails (Gates.trace_set_id role trace.identity target) _
          (trace_set_id-Fails role trace.identity target)
          λ set_id _.
            ground (
              arith,
              report_manifest-Fails host role report.materialize trace.identity set_id target,
            )

pub bindings-Fails :
    (host : Host) (pass2 : Pass2Result) (reference candidate : CanonicalRunReport)
    (reference_trace candidate_trace : CanonicalLayerTrace)
    → OnError Fails (
        Gates.validate_both_source_bindings host pass2 reference candidate reference_trace
          candidate_trace)
unfolding Gates.validate_both_source_bindings Gates.expected_target is_failure
bindings-Fails host pass2 reference candidate reference_trace candidate_trace =
    >>=-OnError Fails (Gates.expected_target pass2.target.expected_runtime_checkpoint_step) _
      (ground arith)
      λ target _.
        >>=-OnError Fails (Gates.selected_source_hashes pass2) _ (selected-Fails pass2) λ sources _.
          ground (
            arith,
            check_hash-Fails sources.0 reference,
            check_hash-Fails sources.1 candidate,
            binding-Fails host sources.0 reference reference_trace target,
            binding-Fails host sources.1 candidate candidate_trace target,
          )
