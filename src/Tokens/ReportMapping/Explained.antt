-- ===== src/Tokens/ReportMapping/Explained.antt =====
-- A run of Pass 1 ends with a reason for the report, of its own or of Pass 0, or with a mismatch.
use local_inference_system.Base.{
  ℕ, String, Bool, true, false, Option, none, some, List, [], ◌∷◌, ◌≡◌, ◌⊎◌, inl, inr, refl, arith,
  is_some, is_nonempty, contains, ok, err,
}
use local_inference_system.Calibration.Model.{CalibrationReasonCode}
use local_inference_system.Calibration.Equality.{calibration_reason_code_eq}
use local_inference_system.Calibration.Inputs.{PreflightInputs}
use local_inference_system.Calibration.Preflight.{run_calibration_preflight}
use local_inference_system.Calibration.Preflight.Report.{preflight_agrees}
use local_inference_system.Calibration.ReportMapping.{map_block_reason, map_block_reason-blocking}
use local_inference_system.Calibration.Gate.{Pass0GateDecision, build_gate}
use local_inference_system.Tokens.Model.{
  Pass0SourceBinding, Pass1Status, comparison_blocked_by_pass0, first_mismatch_found, Pass1Result,
  RunReportMetadata, SelectedTokenSequence, Pass1RunInput, TokenLocalization,
}
use local_inference_system.Tokens.Errors.{RunReportInputError, malformed, unsupported, Read}
use local_inference_system.Tokens.Reports.{Host, CanonicalRunReport}
use local_inference_system.Tokens.Gate.{CompatibilityState}
use local_inference_system.Tokens.Results.{
  metadata_failure, incompatible_result, prompt_divergence, arrays_missing, located, compare_arrays,
}
use local_inference_system.Tokens.Run.{
  compare_sequences, compare_compatible, compare_metadata, read_sequences, read_metadata,
  run_token_localization,
}
use local_inference_system.Tokens.ReportMapping.{map_pass1_status}

unfoldable is_blocked : Pass1Status → Bool
is_blocked comparison_blocked_by_pass0 = true
is_blocked _ = false

status-cases :
    (s : Pass1Status)
    → (is_some (map_pass1_status s) ≡ true)
      ⊎ (s ≡ first_mismatch_found)
      ⊎ (s ≡ comparison_blocked_by_pass0)
unfolding map_pass1_status
status-cases first_mismatch_found = inr (inl refl)
status-cases comparison_blocked_by_pass0 = inr (inr refl)
status-cases _ = inl refl

-- The status is not that of a block by Pass 0.
abbrev Open : Pass1Result → Type 0
Open r = is_blocked r.status ≡ false

module _ (host : Host) (gate : Pass0GateDecision) (binding : Pass0SourceBinding) where
  metadata_failure-Open :
      (e : RunReportInputError) (role : String) → Open (metadata_failure host gate binding e role)
  unfolding is_blocked metadata_failure
  metadata_failure-Open (malformed text) role = refl
  metadata_failure-Open (unsupported text code) role = refl

  incompatible-Open :
      (state : CompatibilityState) (detail : String)
      → Open (incompatible_result host gate binding state detail)
  unfolding is_blocked incompatible_result
  incompatible-Open state detail = ground arith

  module _ (config : String) (r c : Pass1RunInput) where
    located-Open :
        (ids : List ℕ) (l : TokenLocalization) (step : Option ℕ)
        → Open (located host gate binding config r c ids l step)
    unfolding is_blocked located
    located-Open ids l none = refl
    located-Open ids l (some step) = refl

    arrays-Open :
        (ref cand : Option (List ℕ)) → Open (compare_arrays host gate binding config r c ref cand)
    unfolding is_blocked compare_arrays arrays_missing
    arrays-Open (some ref) (some cand) = located-Open ref _ _
    arrays-Open none cand = ground arith
    arrays-Open (some ref) none = ground arith

  module _ (reference candidate : CanonicalRunReport) where
    sequences-Open :
        (config : String) (metadata : RunReportMetadata × RunReportMetadata)
        (m : Read (SelectedTokenSequence × SelectedTokenSequence))
        → Open (compare_sequences host gate binding reference candidate config metadata m)
    unfolding compare_sequences
    sequences-Open config metadata (ok (r, c)) = arrays-Open config _ _ r.token_ids c.token_ids
    sequences-Open config metadata (err e) = metadata_failure-Open e _

    compatible-Open :
        (state : CompatibilityState) (detail : String)
        (metadata : RunReportMetadata × RunReportMetadata)
        → Open (compare_compatible host gate binding reference candidate (state, detail) metadata)
    unfolding compare_compatible is_blocked prompt_divergence
    compatible-Open state detail metadata = ground (
      arith,
      incompatible-Open state detail,
      sequences-Open detail metadata (read_sequences host gate binding reference candidate),
    )

    metadata-Open :
        (m : Read (RunReportMetadata × RunReportMetadata))
        → Open (compare_metadata host gate binding reference candidate m)
    unfolding compare_metadata
    metadata-Open (ok (r, c)) = compatible-Open _ _ (r, c)
    metadata-Open (err e) = metadata_failure-Open e _

    blocked-by_gate :
        (run_token_localization host gate binding reference candidate).status
          ≡ comparison_blocked_by_pass0
        → gate.proceed ≡ false
    unfolding run_token_localization is_blocked
    blocked-by_gate h =
        ground (arith, metadata-Open (read_metadata host gate binding reference candidate))

-- A preflight that stops the comparison has a blocking reason, and the report has one for it.
stopped-has_reason :
    (inputs : PreflightInputs)
    → (build_gate (run_calibration_preflight inputs)).proceed ≡ false
    → (c : CalibrationReasonCode) × (contains c (run_calibration_preflight inputs).blocking_reasons
        ≡ true)
      × (is_some (map_block_reason c) ≡ true)
unfolding build_gate
stopped-has_reason inputs h =
    let (c, found) =
      first_of (run_calibration_preflight inputs).blocking_reasons
        (ground (arith, preflight_agrees inputs)) in
    (c, found, map_block_reason-blocking inputs c found)
  where
    first_of :
        (codes : List CalibrationReasonCode)
        → is_nonempty codes ≡ true
        → (c : CalibrationReasonCode) × (contains c codes ≡ true)
    first_of [] e = absurd (ground arith)
    first_of (c ∷ cs) e = (c, ground arith)

-- Behind the gate of a preflight, every run of Pass 1 ends with a status that has a reason in the
-- report, with a first mismatch, or blocked by Pass 0, where some blocking reason of the preflight
-- has a reason in the report.
pub run-explained :
    (host : Host) (inputs : PreflightInputs) (binding : Pass0SourceBinding)
    (reference candidate : CanonicalRunReport)
    → let status =
        (run_token_localization host
          (build_gate (run_calibration_preflight inputs))
          binding
          reference
          candidate).status in
      (is_some (map_pass1_status status) ≡ true)
      ⊎ (status ≡ first_mismatch_found)
      ⊎ ((status ≡ comparison_blocked_by_pass0)
          × (c : CalibrationReasonCode) × (contains c
                (run_calibration_preflight inputs).blocking_reasons
              ≡ true)
          × (is_some (map_block_reason c) ≡ true))
run-explained host inputs binding reference candidate =
    let gate = build_gate (run_calibration_preflight inputs) in
    elim (status-cases (run_token_localization host gate binding reference candidate).status) [
      | inl mapped ↦ inl mapped
      | inr (inl found) ↦ inr (inl found)
      | inr (inr blocked) ↦
          let (c, found, mapped) =
            stopped-has_reason inputs
              (blocked-by_gate host gate binding reference candidate blocked) in
          inr (inr (blocked, c, found, mapped))
    ]
