-- ===== src/Tokens/Run/Arrays.antt =====
-- The comparison of two arrays, which ends a run of Pass 1.
use local_inference_system.Base.{
  ℕ, String, Option, none, some, List, ◌≡◌, ◌≢◌, ◌↔◌, inl, inr, refl, ap, sym, arith, Option-cases,
}
use local_inference_system.Calibration.Model.{checkpoint_confirmation_allowed}
use local_inference_system.Calibration.Gate.{Pass0GateDecision}
use local_inference_system.Tokens.Model.{
  Pass0SourceBinding, token_equivalent_on_observed_range, first_mismatch_found, ready, Pass1Result,
  Pass1RunInput, TokenLocalization,
}
use local_inference_system.Tokens.Reports.{Host}
use local_inference_system.Tokens.Locate.{locate_first_selected_token_mismatch}
use local_inference_system.Tokens.Locate.Specification.{locate-IsLocalization}
use local_inference_system.Tokens.Results.{arrays_missing, located, prefix_of, compare_arrays}

pub locate-equal :
    (ids : List ℕ) → (locate_first_selected_token_mismatch ids ids).generated_token_step ≡ none
locate-equal ids =
    let l = locate_first_selected_token_mismatch ids ids in
    let located = locate-IsLocalization ids ids in
    elim (Option-cases l.generated_token_step) [
      | inl e ↦ e
      | inr (i, e) ↦
          absurd (ground (arith, located.step i e, located.reference_id, located.candidate_id))
    ]

module _ (host : Host) (gate : Pass0GateDecision) (binding : Pass0SourceBinding) (config : String)
    (r c : Pass1RunInput) where
  pub located-equal :
      (ids : List ℕ) (l : TokenLocalization) (step : Option ℕ)
      → (located host gate binding config r c ids l step).status
        ≡ token_equivalent_on_observed_range
      → step ≡ none
  unfolding located
  located-equal ids l none h = refl
  located-equal ids l (some step) h = absurd (ground arith)

  pub arrays-equal :
      (ref cand : Option (List ℕ))
      → (compare_arrays host gate binding config r c ref cand).status
        ≡ token_equivalent_on_observed_range
      → (ids : List ℕ) × (ref ≡ some ids) × (cand ≡ some ids)
  unfolding compare_arrays arrays_missing
  arrays-equal (some ref) (some cand) h =
      let l = locate_first_selected_token_mismatch ref cand in
      let same =
        (locate-IsLocalization ref cand).equal.0 (located-equal ref l l.generated_token_step h) in
      (ref, refl, ap some (sym same))
  arrays-equal none cand h = absurd (ground arith)
  arrays-equal (some ref) none h = absurd (ground arith)

  -- The mismatch that the result reports is at `step`, and so is the end of the prefix to reproduce.
  pub record Reproducible (ref cand : List ℕ) (step : ℕ) (result : Pass1Result) : Type 0 where
    pub localization : result.localization ≡ some (locate_first_selected_token_mismatch ref cand)
    pub prefix : result.prefix_for_reproduction ≡ some (prefix_of host ref step)
    pub disposition :
        result.pass2_disposition ≡ ready
        ↔ gate.verdict_strength_limit ≡ checkpoint_confirmation_allowed

  pub located-mismatch :
      (ref cand : List ℕ) (step : Option ℕ)
      → (located host gate binding config r c ref
          (locate_first_selected_token_mismatch ref cand)
          step).status
        ≡ first_mismatch_found
      → (i : ℕ) × (step ≡ some i)
        × Reproducible ref cand i (
            located host gate binding config r c ref
              (locate_first_selected_token_mismatch ref cand)
              step)
  unfolding located
  located-mismatch ref cand none h = absurd (ground arith)
  located-mismatch ref cand (some i) h =
      (i, refl, record { localization = refl; prefix = refl; disposition = ground arith })

  pub arrays-mismatch :
      (ref cand : Option (List ℕ))
      → (compare_arrays host gate binding config r c ref cand).status ≡ first_mismatch_found
      → (reference_ids : List ℕ) × (candidate_ids : List ℕ) × (i : ℕ) × (ref ≡ some reference_ids)
        × (cand ≡ some candidate_ids)
        × ((locate_first_selected_token_mismatch reference_ids candidate_ids).generated_token_step
            ≡ some i)
        × Reproducible reference_ids candidate_ids i
            (compare_arrays host gate binding config r c ref cand)
  unfolding compare_arrays arrays_missing
  arrays-mismatch (some ref) (some cand) h =
      let l = locate_first_selected_token_mismatch ref cand in
      let (i, step, found) = located-mismatch ref cand l.generated_token_step h in
      (ref, cand, i, refl, refl, step, found)
  arrays-mismatch none cand h = absurd (ground arith)
  arrays-mismatch (some ref) none h = absurd (ground arith)

module _ (host : Host) (gate : Pass0GateDecision) (binding : Pass0SourceBinding) (config : String)
    (r c : Pass1RunInput) where
  pub arrays-decide :
      (ref cand : List ℕ) {a b : Option (List ℕ)}
      → a ≡ some ref
      → b ≡ some cand
      → ((compare_arrays host gate binding config r c a b).status
            ≡ token_equivalent_on_observed_range
          ↔ ref ≡ cand)
        × ((compare_arrays host gate binding config r c a b).status ≡ first_mismatch_found
            ↔ ref ≢ cand)
  unfolding compare_arrays located
  arrays-decide ref cand p q =
      let l = locate_first_selected_token_mismatch ref cand in
      elim (Option-cases l.generated_token_step) [
        | inl e ↦
            let same = (locate-IsLocalization ref cand).equal.0 e in
            rw (p, q, e) (ground (arith, same))
        | inr (i, e) ↦
            let differ : ref ≢ cand = λ same. ground (arith, rw same at e, locate-equal cand) in
            rw (p, q, e) (ground (arith, differ))
      ]
