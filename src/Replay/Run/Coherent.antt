-- ===== src/Replay/Run/Coherent.antt =====
-- tools/lis_verify/pass2_model.py: what `Pass2Result.__post_init__` requires holds of every result.
use local_inference_system.Base.{
  String, Bool, true, false, ◌||◌, Option, none, some, List, [], ◌∷◌, ◌≡◌, ◌↔◌, refl, arith, inl,
  inr, Outcome, ok, err, OnError, >>=-OnError, >>=-eq-ok, Outcome-cases, ◌≢◌, is_some, string_eq,
}
use local_inference_system.Json.Value.{Value}
use local_inference_system.Tokens.Model.{Pass1Result}
use local_inference_system.Replay.Evidence.{original_binding_matches}
use local_inference_system.Tokens.Reports.{Host, CanonicalRunReport}
use local_inference_system.Replay.Model.{
  Pass2Status, Pass2ReasonCode, ReproductionEvidenceTier, Pass3Disposition, Pass2SourceBinding,
  PrefixGateResult, PolicyGateResult, Pass2Result,
}
use local_inference_system.Replay.Results.{early_disposition, initial_binding}
use local_inference_system.Replay.Prefix.{PrefixFault, resolve_expected_prefix}
use local_inference_system.Replay.Originals.{
  Pair, read_pair, or_stop, blocked, malformed, originals_bound, read_originals, original_builds,
  expect, prefix_failure, prefix_status, reproductions, read_reruns,
}
use local_inference_system.Replay.Run.Passed.{reproduce-Passed, run-eq-ok, run-eq-err}
use local_inference_system.Replay.Run.{
  Material, same_prompt, same_prefix, same_builds, same_checkpoint, same_context, reproduce,
  collect, gates, run_prefix_policy_reproduction,
}

unfoldable pub is_verified : Pass2Status → Bool
is_verified Pass2Status.reproduction_verified = true
is_verified _ = false

pub is_ready : Pass3Disposition → Bool
is_ready Pass3Disposition.ready = true
is_ready _ = false

pub is_request : ReproductionEvidenceTier → Bool
is_request ReproductionEvidenceTier.reproduction_request_only = true
is_request _ = false

-- `Pass2Result.__post_init__`, in both directions.
pub record IsCoherent (r : Pass2Result) : Type 0 where
  pub ready :
      r.pass3_disposition ≡ Pass3Disposition.ready ↔ r.status ≡ Pass2Status.reproduction_verified
  pub tier :
      r.reproduction_evidence_tier ≡ ReproductionEvidenceTier.reproduction_request_only
      ↔ r.status ≢ Pass2Status.reproduction_verified

-- A result that stops the run.
pub record Stops (r : Pass2Result) : Type 0 where
  pub status : is_verified r.status ≡ false
  pub disposition : is_ready r.pass3_disposition ≡ false
  pub tier : is_request r.reproduction_evidence_tier ≡ true

Stops-IsCoherent : (r : Pass2Result) → Stops r → IsCoherent r
unfolding is_verified is_ready is_request
Stops-IsCoherent r s = ground arith

module _ (host : Host) (pass1 : Pass1Result) where
  early-Stops :
      (binding : Pass2SourceBinding) → OnError Stops (early_disposition host pass1 binding)
  unfolding early_disposition is_verified is_ready is_request
  early-Stops binding = ground arith

  blocked-Stops :
      (binding : Pass2SourceBinding) (status : Pass2Status) (reason : Pass2ReasonCode)
      (warnings : List String)
      → is_verified status ≡ false
      → Stops (blocked host pass1 binding status reason warnings)
  unfolding blocked is_ready is_request
  blocked-Stops binding status reason warnings h = record {
    status = h;
    disposition = refl;
    tier = refl;
  }

  bound-Stops :
      (initial : Pass2SourceBinding) (matches : Bool × Bool) (reruns : Bool)
      → OnError Stops (originals_bound host pass1 initial matches reruns)
  unfolding originals_bound is_verified is_ready is_request
  bound-Stops initial matches reruns = ground arith

  builds-Stops :
      (binding : Pass2SourceBinding) (originals : Pair)
      → OnError Stops (original_builds host pass1 binding originals)
  unfolding original_builds is_verified is_ready is_request
  builds-Stops binding originals = ground arith

  malformed-Stops :
      (binding : Pass2SourceBinding) (warnings : List String)
      → Stops (malformed host pass1 binding warnings)
  unfolding malformed is_verified is_ready is_request
  malformed-Stops binding warnings = record { status = refl; disposition = refl; tier = refl }

  prefix_status-not_verified :
      (reason : Pass2ReasonCode) → is_verified (prefix_status reason) ≡ false
  unfolding prefix_status is_verified
  prefix_status-not_verified reason = ground arith

  failure-Stops :
      (binding : Pass2SourceBinding) (gate : PolicyGateResult) (warnings : List String)
      (fault : PrefixFault)
      → Stops (prefix_failure host pass1 binding gate warnings fault)
  unfolding prefix_failure is_ready is_request
  failure-Stops binding gate warnings fault = record {
    status = prefix_status-not_verified fault.reason;
    disposition = refl;
    tier = refl;
  }

  reruns-Stops :
      (originals : Pair) (gate : PolicyGateResult) (binding : Pass2SourceBinding)
      (reference candidate : CanonicalRunReport)
      → OnError Stops (read_reruns host pass1 originals gate binding reference candidate)
  unfolding read_reruns is_verified is_ready is_request
  reruns-Stops originals gate binding reference candidate = ground arith

  reproductions-Stops :
      (originals : Pair) (gate : PolicyGateResult) (binding : Pass2SourceBinding)
      (reference candidate : Option CanonicalRunReport)
      → OnError Stops (reproductions host pass1 originals gate binding reference candidate)
  unfolding reproductions is_verified is_ready is_request
  reproductions-Stops originals gate binding none none = tt
  reproductions-Stops originals gate binding (some reference) (some candidate) =
      reruns-Stops originals gate binding reference candidate
  reproductions-Stops originals gate binding none (some candidate) = ground arith
  reproductions-Stops originals gate binding (some reference) none = ground arith

  or_stop-Stops :
      {E A : Type 0} (m : Outcome E A) (stop : E → Pass2Result)
      → ((e : E) → Stops (stop e))
      → OnError Stops (or_stop m stop)
  or_stop-Stops (ok a) stop h = tt
  or_stop-Stops (err e) stop h = h e

  originals-Stops :
      (reference candidate : CanonicalRunReport) (binding : Pass2SourceBinding)
      → OnError Stops (read_originals host pass1 reference candidate binding)
  unfolding read_originals
  originals-Stops reference candidate binding =
      or_stop-Stops (read_pair reference "reference_original" candidate "candidate_original") _
        (λ error. malformed-Stops binding (error ∷ []))

  expect-Stops :
      (source : Option (List Value)) (binding : Pass2SourceBinding) (originals : Pair)
      (gate : PolicyGateResult)
      → OnError Stops (expect host pass1 source binding originals gate)
  unfolding expect
  expect-Stops source binding originals gate =
      or_stop-Stops (resolve_expected_prefix host pass1 source) _ (failure-Stops binding gate _)

  module _ (m : Material) where
    prompt-Stops : OnError Stops (same_prompt host pass1 m)
    unfolding same_prompt is_verified is_ready is_request
    prompt-Stops = ground arith

    prefix-Stops : OnError Stops (same_prefix host pass1 m)
    unfolding same_prefix is_verified is_ready is_request
    prefix-Stops = ground arith

    same_builds-Stops :
        (prefix : PrefixGateResult) → OnError Stops (same_builds host pass1 m prefix)
    unfolding same_builds is_verified is_ready is_request
    same_builds-Stops prefix = ground arith

    checkpoint-Stops :
        (prefix : PrefixGateResult) (gate : PolicyGateResult)
        → OnError Stops (same_checkpoint host pass1 m prefix gate)
    unfolding same_checkpoint is_verified is_ready is_request
    checkpoint-Stops prefix gate = ground arith

    context-Stops :
        (prefix : PrefixGateResult) (gate : PolicyGateResult)
        → OnError Stops (same_context host pass1 m prefix gate)
    unfolding same_context is_verified is_ready is_request
    context-Stops prefix gate = ground arith

    reproduce-Stops : OnError Stops (reproduce host pass1 m)
    unfolding reproduce
    reproduce-Stops = >>=-OnError Stops (same_prompt host pass1 m) _ prompt-Stops λ _ _.
        >>=-OnError Stops (same_prefix host pass1 m) _ prefix-Stops λ prefix _.
          >>=-OnError Stops (same_builds host pass1 m prefix) _ (same_builds-Stops prefix) λ gate _.
            >>=-OnError Stops (same_checkpoint host pass1 m prefix gate) _
              (checkpoint-Stops prefix gate) λ _ _. context-Stops prefix gate

  module _ (reference candidate : CanonicalRunReport) (source : Option (List Value))
      (reference_rerun candidate_rerun : Option CanonicalRunReport) where
    abbrev initial : Pass2SourceBinding
    initial = initial_binding host pass1 reference candidate reference_rerun candidate_rerun

    collect-Stops :
        OnError Stops
          (collect host pass1 reference candidate source reference_rerun candidate_rerun)
    unfolding collect
    collect-Stops =
        >>=-OnError Stops (early_disposition host pass1 initial) _ (early-Stops initial) λ _ _.
          >>=-OnError Stops
            (originals_bound host pass1 initial (original_binding_matches pass1 reference candidate)
              (is_some reference_rerun || is_some candidate_rerun))
            _ (bound-Stops initial _ _)
            λ binding _.
              >>=-OnError Stops (read_originals host pass1 reference candidate binding) _
                (originals-Stops reference candidate binding)
                λ originals _.
                  >>=-OnError Stops (original_builds host pass1 binding originals) _
                    (builds-Stops binding originals)
                    λ gate _.
                      >>=-OnError Stops (expect host pass1 source binding originals gate) _
                        (expect-Stops source binding originals gate)
                        λ expected _.
                          >>=-OnError Stops
                            (reproductions host pass1 originals gate binding reference_rerun
                              candidate_rerun)
                            _
                            (reproductions-Stops originals gate binding reference_rerun
                              candidate_rerun)
                            λ _ _. tt

    pub gates-Stops :
        OnError Stops (gates host pass1 reference candidate source reference_rerun candidate_rerun)
    unfolding gates
    gates-Stops =
        >>=-OnError Stops
          (collect host pass1 reference candidate source reference_rerun candidate_rerun) _
          collect-Stops λ m _. reproduce-Stops m

    context-IsCoherent :
        (m : Material) (prefix : PrefixGateResult) (gate : PolicyGateResult) {r : Pass2Result}
        → same_context host pass1 m prefix gate ≡ ok r
        → IsCoherent r
    unfolding same_context
    context-IsCoherent m prefix gate h = ground arith

    gates-IsCoherent :
        {r : Pass2Result}
        → gates host pass1 reference candidate source reference_rerun candidate_rerun ≡ ok r
        → IsCoherent r
    unfolding gates
    gates-IsCoherent h =
        let (m, _, rest) =
          >>=-eq-ok (collect host pass1 reference candidate source reference_rerun candidate_rerun)
            _ h in
        context-IsCoherent m _ _ (reproduce-Passed host pass1 m rest).context

    -- Every result is ready for Pass 3 exactly if its status is that of a verified reproduction, and
    -- is a mere request exactly if it is not.
    pub run-IsCoherent : IsCoherent (
        run_prefix_policy_reproduction host pass1 reference candidate source reference_rerun
          candidate_rerun)
    run-IsCoherent =
        elim (Outcome-cases
          (gates host pass1 reference candidate source reference_rerun candidate_rerun)) [
            | inl (r, e) ↦
                rw
                  (run-eq-ok host pass1 reference candidate source reference_rerun candidate_rerun
                    e)
                  (gates-IsCoherent e)
            | inr (r, e) ↦
                rw
                  (run-eq-err host pass1 reference candidate source reference_rerun candidate_rerun
                    e)
                  (Stops-IsCoherent r (rw e at gates-Stops))
          ]
