-- ===== src/Tokens/Run/Soundness.antt =====
-- What a result of Pass 1 says of the two reports.
use local_inference_system.Base.{
  ℕ, ◌≤◌, String, some, List, ◌≡◌, ◌≢◌, ◌↔◌, refl, arith, take, length, length-take,
}
use local_inference_system.Calibration.Model.{checkpoint_confirmation_allowed}
use local_inference_system.Calibration.Gate.{Pass0GateDecision}
use local_inference_system.Tokens.Model.{
  Pass0SourceBinding, token_equivalent_on_observed_range, first_mismatch_found, ready, Pass1Result,
  Pass1RunInput, TokenLocalization, PrefixForReproduction, embedded,
}
use local_inference_system.Tokens.Reports.{Host, CanonicalRunReport}
use local_inference_system.Tokens.Locate.{locate_first_selected_token_mismatch}
use local_inference_system.Tokens.Locate.Specification.{IsLocalization, locate-IsLocalization}
use local_inference_system.Tokens.Results.{embedded_prefix_cap, prefix_of}
use local_inference_system.Tokens.Run.{run_token_localization}
use local_inference_system.Tokens.Run.Arrays.{
  locate-equal, arrays-equal, arrays-mismatch, arrays-decide, Reproducible,
}
use local_inference_system.Tokens.Run.Settled.{is_final, Settled-complete, run-Settled}
use local_inference_system.Tokens.Run.Reach.{Reached, input_of, Reached-result, complete-Reached}

-- What a reported first mismatch promises of the two sequences.
pub record FirstMismatch (host : Host) (gate : Pass0GateDecision) (ref cand : List ℕ)
    (result : Pass1Result) : Type 0 where
  pub step : ℕ
  pub localization : TokenLocalization
  pub reported : result.localization ≡ some localization
  pub at_step : localization.generated_token_step ≡ some step
  pub first : IsLocalization ref cand localization
  pub differ : ref ≢ cand
  pub prefix : PrefixForReproduction
  pub kept : result.prefix_for_reproduction ≡ some prefix
  pub from_reference : prefix.exact_token_ids ≡ take step ref
  pub from_candidate : prefix.exact_token_ids ≡ take step cand
  pub count : prefix.token_count ≡ step
  pub within_cap : prefix.availability ≡ embedded ↔ step ≤ embedded_prefix_cap
  pub disposition :
      result.pass2_disposition ≡ ready
      ↔ gate.verdict_strength_limit ≡ checkpoint_confirmation_allowed

prefix_of-availability :
    (host : Host) (ref : List ℕ) (i : ℕ)
    → i ≤ length ref
    → ((prefix_of host ref i).token_count ≡ i)
      × ((prefix_of host ref i).availability ≡ embedded ↔ i ≤ embedded_prefix_cap)
unfolding prefix_of
prefix_of-availability host ref i h = ground (arith, length-take i ref)

module _ (host : Host) (gate : Pass0GateDecision) (binding : Pass0SourceBinding) where
  FirstMismatch-of_Reproducible :
      (config : String) (r c : Pass1RunInput) (ref cand : List ℕ) (i : ℕ) (result : Pass1Result)
      → (locate_first_selected_token_mismatch ref cand).generated_token_step ≡ some i
      → Reproducible host gate binding config r c ref cand i result
      → FirstMismatch host gate ref cand result
  FirstMismatch-of_Reproducible config r c ref cand i result found rep =
      let l = locate_first_selected_token_mismatch ref cand in
      let first = locate-IsLocalization ref cand in
      let matched : i ≡ l.matched_generated_prefix_length = (first.step i found).0 in
      let bound : i ≤ length ref = rw matched first.within_reference in
      let (counted, capped) = prefix_of-availability host ref i bound in
      record {
        step = i;
        localization = l;
        reported = rep.localization;
        at_step = found;
        first = first;
        differ = λ same. ground (arith, rw same at found, locate-equal cand);
        prefix = prefix_of host ref i;
        kept = rep.prefix;
        from_reference = unfold prefix_of in refl;
        from_candidate = unfold prefix_of in rw matched first.prefix;
        count = counted;
        within_cap = capped;
        disposition = rep.disposition;
      }

  module _ (reference candidate : CanonicalRunReport) where
    abbrev outcome : Pass1Result
    outcome = run_token_localization host gate binding reference candidate

    -- Token equivalence is reported only where the gate is coherent and lets the comparison go on,
    -- the reports are the bound ones, their metadata is compatible, the prompts do not diverge, and
    -- both reports were read and hold the same array of selected tokens.
    pub run-equal_sound :
        (run_token_localization host gate binding reference candidate).status
          ≡ token_equivalent_on_observed_range
        → (reached : Reached host gate binding reference candidate) × (ids : List ℕ)
          × (reached.sequences.0.token_ids ≡ some ids)
          × (reached.sequences.1.token_ids ≡ some ids)
    run-equal_sound h =
        let reached = complete-Reached host gate binding reference candidate (
          Settled-complete outcome (run-Settled host gate binding reference candidate)
            (unfold is_final in rw h refl)) in
        let (ids, p, q) =
          arrays-equal host gate binding reached.detail _ _ _ _
            (rw (Reached-result host gate binding reference candidate reached) at h) in
        (reached, ids, p, q)

    -- A reported first mismatch, with the sequences and the step that it is about.
    pub record Mismatch : Type 0 where
      pub reached : Reached host gate binding reference candidate
      pub reference_ids : List ℕ
      pub candidate_ids : List ℕ
      pub step : ℕ
      pub in_reference : reached.sequences.0.token_ids ≡ some reference_ids
      pub in_candidate : reached.sequences.1.token_ids ≡ some candidate_ids
      pub found :
          (locate_first_selected_token_mismatch reference_ids candidate_ids).generated_token_step
          ≡ some step
      pub reproducible :
          Reproducible host gate binding reached.detail
            (input_of host gate binding reference candidate reference reached.metadata.0
              reached.sequences.0)
            (input_of host gate binding reference candidate candidate reached.metadata.1
              reached.sequences.1)
            reference_ids
            candidate_ids
            step
            (run_token_localization host gate binding reference candidate)

    pub run-Mismatch :
        (run_token_localization host gate binding reference candidate).status ≡ first_mismatch_found
        → Mismatch
    run-Mismatch h =
        let reached = complete-Reached host gate binding reference candidate (
          Settled-complete outcome (run-Settled host gate binding reference candidate)
            (unfold is_final in rw h refl)) in
        let (ref, cand, i, p, q, found, rep) =
          arrays-mismatch host gate binding reached.detail _ _ _ _
            (rw (Reached-result host gate binding reference candidate reached) at h) in
        record {
          reached = reached;
          reference_ids = ref;
          candidate_ids = cand;
          step = i;
          in_reference = p;
          in_candidate = q;
          found = found;
          reproducible = rw (Reached-result host gate binding reference candidate reached) rep;
        }

    -- A first mismatch is reported only after the same checks, where both reports hold an array: the
    -- arrays differ, the localization is where they differ first, the prefix to reproduce is what
    -- both have before it, embedded up to 64 tokens, and Pass 2 is ready exactly where the gate
    -- allows checkpoint confirmation.
    pub run-mismatch_sound :
        (run_token_localization host gate binding reference candidate).status ≡ first_mismatch_found
        → (reached : Reached host gate binding reference candidate) × (reference_ids : List ℕ)
          × (candidate_ids : List ℕ) × (reached.sequences.0.token_ids ≡ some reference_ids)
          × (reached.sequences.1.token_ids ≡ some candidate_ids)
          × FirstMismatch host gate reference_ids candidate_ids
              (run_token_localization host gate binding reference candidate)
    run-mismatch_sound h =
        let m = run-Mismatch h in
        (
          m.reached,
          m.reference_ids,
          m.candidate_ids,
          m.in_reference,
          m.in_candidate,
          FirstMismatch-of_Reproducible m.reached.detail _ _ m.reference_ids m.candidate_ids m.step
              outcome m.found m.reproducible,
        )

    -- Past the checks, two arrays are decided: the status is token equivalence exactly where they
    -- are equal, and a first mismatch exactly where they differ.
    pub run-decides :
        (reached : Reached host gate binding reference candidate)
        (reference_ids candidate_ids : List ℕ)
        → reached.sequences.0.token_ids ≡ some reference_ids
        → reached.sequences.1.token_ids ≡ some candidate_ids
        → ((run_token_localization host gate binding reference candidate).status
              ≡ token_equivalent_on_observed_range
            ↔ reference_ids ≡ candidate_ids)
          × ((run_token_localization host gate binding reference candidate).status
                ≡ first_mismatch_found
              ↔ reference_ids ≢ candidate_ids)
    run-decides reached ref cand p q =
        rw (Reached-result host gate binding reference candidate reached) (
          arrays-decide host gate binding reached.detail
            (input_of host gate binding reference candidate reference reached.metadata.0
              reached.sequences.0)
            (input_of host gate binding reference candidate candidate reached.metadata.1
              reached.sequences.1)
            ref cand p q)
