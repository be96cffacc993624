-- ===== src/Layers/ReportMapping/AllExits.antt =====
-- The report has a reason for every exit of Pass 3 that blocks what follows.
use local_inference_system.Base.{
  String, true, some, List, [], ◌∷◌, ◌≡◌, refl, arith, is_some, Outcome, ok, err, OnError,
}
use local_inference_system.Tokens.Reports.{Host, CanonicalRunReport}
use local_inference_system.Replay.Model.{Pass2Result}
use local_inference_system.Layers.Model.{Pass3Status, Pass3ReasonCode, Pass3Result}
use local_inference_system.Layers.Inputs.{Pass3InputError, CanonicalLayerTrace}
use local_inference_system.Layers.Gates.{typed_pass2_ready}
use local_inference_system.Layers.Exits.{
  no_coverage, blocked_exit, is_coherence_reason, binding_status, normalization_status,
  normalize_both, Exit, not_ready, incoherent, unbound, not_normalized, localized,
}
use local_inference_system.Layers.Exits.Reasons.{Fails, is_failure, normalize-Fails}
use local_inference_system.Layers.Exits.BindingReasons.{bindings-Fails}
use local_inference_system.Layers.ReportMapping.{map_pass3_reason, map_pass3_status}
use local_inference_system.Layers.ReportMapping.Blocked.{
  Explained, all_mapped, blocked-Explained, localize-Explained,
}

is_failure-mapped :
    (reason : Pass3ReasonCode) → is_failure reason ≡ true → all_mapped (reason ∷ []) ≡ true
unfolding is_failure map_pass3_reason
is_failure-mapped reason h = ground (arith, h)

binding_status-mapped :
    (reason : Pass3ReasonCode) → is_some (map_pass3_status (binding_status reason)) ≡ true
unfolding binding_status map_pass3_status
binding_status-mapped reason = ground arith

normalization_status-mapped :
    (reason : Pass3ReasonCode) → is_some (map_pass3_status (normalization_status reason)) ≡ true
unfolding normalization_status map_pass3_status
normalization_status-mapped reason = ground arith

exit-Explained :
    (status : Pass3Status) (reason : Pass3ReasonCode) (warnings : List String)
    → is_some (map_pass3_status status) ≡ true
    → is_failure reason ≡ true
    → Explained (blocked_exit status reason warnings)
unfolding blocked_exit
exit-Explained status reason warnings h k =
    blocked-Explained no_coverage status reason [] warnings h (is_failure-mapped reason k)

ready-failure :
    (pass2 : Pass2Result) (reason : Pass3ReasonCode)
    → typed_pass2_ready pass2 ≡ some reason
    → is_failure reason ≡ true
unfolding typed_pass2_ready is_failure
ready-failure pass2 reason h = ground (arith, h)

coherence-failure :
    (reason : Pass3ReasonCode) → is_coherence_reason reason ≡ true → is_failure reason ≡ true
unfolding is_coherence_reason is_failure
coherence-failure reason h = ground (arith, h)

both-Fails :
    (host : Host) (reference candidate : CanonicalLayerTrace)
    → OnError Fails (normalize_both host reference candidate)
unfolding normalize_both
both-Fails host reference candidate =
    ground (arith, normalize-Fails host reference, normalize-Fails host candidate)

OnError-err :
    {A : Type 0} (m : Outcome Pass3InputError A) (e : Pass3InputError)
    → OnError Fails m
    → m ≡ err e
    → is_failure e.reason ≡ true
OnError-err (ok a) e h raised = absurd (ground (arith, raised))
OnError-err (err f) e h raised = ground (arith, h, raised)

module _ (host : Host) (pass2 : Pass2Result)
    (reference_report candidate_report : CanonicalRunReport)
    (reference_trace candidate_trace : CanonicalLayerTrace) where
  -- Every exit of Pass 3 (the gates on the result of Pass 2, on its artifact and on the bindings, the
  -- reading of the traces, and what follows it) has a reason code, its status has a reason in the
  -- report exactly where what follows is blocked, and there each of its reason codes has one too.
  pub Exit-Explained :
      {r : Pass3Result}
      → Exit host pass2 reference_report candidate_report reference_trace candidate_trace r
      → Explained r
  unfolding map_pass3_status
  Exit-Explained (not_ready reason h) =
      exit-Explained _ reason pass2.warnings refl (ready-failure pass2 reason h)
  Exit-Explained (incoherent reason h k) =
      exit-Explained _ reason pass2.warnings refl (coherence-failure reason k)
  Exit-Explained (unbound error h raised) =
      exit-Explained _ error.reason pass2.warnings (binding_status-mapped error.reason) (
        OnError-err _ error
          (bindings-Fails host pass2 reference_report candidate_report reference_trace
            candidate_trace)
          raised)
  Exit-Explained (not_normalized both error h bound raised) =
      exit-Explained _ error.reason pass2.warnings (normalization_status-mapped error.reason)
        (OnError-err _ error (both-Fails host reference_trace candidate_trace) raised)
  Exit-Explained (localized both reference candidate h bound read found) =
      localize-Explained reference candidate pass2.warnings found
