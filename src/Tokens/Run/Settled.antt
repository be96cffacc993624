-- ===== src/Tokens/Run/Settled.antt =====
-- The status of a result of Pass 1 is final exactly where the evidence is complete.
use local_inference_system.Base.{
  ℕ, String, Bool, true, false, Option, none, some, List, ◌≡◌, refl, arith, ok, err,
}
use local_inference_system.Calibration.Gate.{Pass0GateDecision}
use local_inference_system.Tokens.Model.{
  Pass0SourceBinding, Pass1Status, token_equivalent_on_observed_range, first_mismatch_found,
  EvidenceCompleteness, complete, Pass1Result, RunReportMetadata, SelectedTokenSequence,
  Pass1RunInput, TokenLocalization,
}
use local_inference_system.Tokens.Errors.{RunReportInputError, malformed, unsupported, Read}
use local_inference_system.Tokens.Reports.{Host, CanonicalRunReport}
use local_inference_system.Tokens.Gate.{CompatibilityState, compatible}
use local_inference_system.Tokens.Results.{
  metadata_failure, incompatible_result, prompt_divergence, arrays_missing, located, compare_arrays,
}
use local_inference_system.Tokens.Run.{
  compare_sequences, compare_compatible, compare_metadata, read_sequences, read_metadata,
  run_token_localization,
}

-- The status is one that follows a comparison of arrays.
unfoldable pub is_final : Pass1Status → Bool
is_final token_equivalent_on_observed_range = true
is_final first_mismatch_found = true
is_final _ = false

unfoldable pub is_complete : EvidenceCompleteness → Bool
is_complete complete = true
is_complete _ = false

abbrev pub Settled : Pass1Result → Type 0
Settled r = is_final r.status ≡ is_complete r.evidence_completeness

pub Settled-complete :
    (r : Pass1Result) → Settled r → is_final r.status ≡ true → r.evidence_completeness ≡ complete
unfolding is_complete
Settled-complete r settled final = ground arith

module _ (host : Host) (gate : Pass0GateDecision) (binding : Pass0SourceBinding) where
  metadata_failure-Settled :
      (e : RunReportInputError) (role : String)
      → Settled (metadata_failure host gate binding e role)
  unfolding is_final is_complete metadata_failure
  metadata_failure-Settled (malformed text) role = refl
  metadata_failure-Settled (unsupported text code) role = refl

  incompatible-Settled :
      (state : CompatibilityState) (detail : String)
      → Settled (incompatible_result host gate binding state detail)
  unfolding is_final is_complete incompatible_result
  incompatible-Settled compatible detail = refl
  incompatible-Settled _ detail = refl

  module _ (config : String) (r c : Pass1RunInput) where
    located-Settled :
        (ids : List ℕ) (l : TokenLocalization) (step : Option ℕ)
        → Settled (located host gate binding config r c ids l step)
    unfolding is_final is_complete located
    located-Settled ids l none = refl
    located-Settled ids l (some step) = refl

    arrays-Settled :
        (ref cand : Option (List ℕ))
        → Settled (compare_arrays host gate binding config r c ref cand)
    unfolding is_final is_complete compare_arrays arrays_missing
    arrays-Settled (some ref) (some cand) = located-Settled ref _ _
    arrays-Settled none cand = ground arith
    arrays-Settled (some ref) none = ground arith

  module _ (reference candidate : CanonicalRunReport) where
    sequences-Settled :
        (config : String) (metadata : RunReportMetadata × RunReportMetadata)
        (m : Read (SelectedTokenSequence × SelectedTokenSequence))
        → Settled (compare_sequences host gate binding reference candidate config metadata m)
    unfolding compare_sequences
    sequences-Settled config metadata (ok (r, c)) =
        arrays-Settled config _ _ r.token_ids c.token_ids
    sequences-Settled config metadata (err e) = metadata_failure-Settled e _

    compatible-Settled :
        (state : CompatibilityState) (detail : String)
        (metadata : RunReportMetadata × RunReportMetadata)
        → Settled
            (compare_compatible host gate binding reference candidate (state, detail) metadata)
    unfolding compare_compatible is_final is_complete prompt_divergence
    compatible-Settled state detail metadata = ground (
      arith,
      incompatible-Settled state detail,
      sequences-Settled detail metadata (read_sequences host gate binding reference candidate),
    )

    metadata-Settled :
        (m : Read (RunReportMetadata × RunReportMetadata))
        → Settled (compare_metadata host gate binding reference candidate m)
    unfolding compare_metadata
    metadata-Settled (ok (r, c)) = compatible-Settled _ _ (r, c)
    metadata-Settled (err e) = metadata_failure-Settled e _

    pub run-Settled : Settled (run_token_localization host gate binding reference candidate)
    unfolding run_token_localization is_final is_complete
    run-Settled =
        ground (arith, metadata-Settled (read_metadata host gate binding reference candidate))
