-- ===== src/Tokens/Run/Reach.antt =====
-- A complete result of Pass 1 has passed every check that stands before the comparison of arrays.
use local_inference_system.Base.{String, true, ◌&&◌, ◌≡◌, ◌≢◌, refl, ap, arith, ok, err}
use local_inference_system.Calibration.Model.{divergent}
use local_inference_system.Calibration.Gate.{Pass0GateDecision}
use local_inference_system.Tokens.Model.{
  Pass0SourceBinding, complete, RunReportMetadata, SelectedTokenSequence, Pass1RunInput,
}
use local_inference_system.Tokens.Errors.{Read}
use local_inference_system.Tokens.Reports.{Host, CanonicalRunReport}
use local_inference_system.Tokens.Gate.{
  gate_is_coherent, binding_matches, CompatibilityState, compatible, validate_run_compatibility,
}
use local_inference_system.Tokens.Results.{
  is_compatible, metadata_failure, incompatible_result, prompt_divergence, compare_arrays,
}
use local_inference_system.Tokens.Run.{
  read_sequences, read_metadata, compare_sequences, compare_compatible, compare_metadata,
  run_token_localization,
}

module _ (host : Host) (gate : Pass0GateDecision) (binding : Pass0SourceBinding)
    (reference candidate : CanonicalRunReport) where
  abbrev pub input_of :
      CanonicalRunReport → RunReportMetadata → SelectedTokenSequence → Pass1RunInput
  input_of report metadata sequence = record {
    metadata = metadata;
    identity = report.identity;
    selected_tokens = sequence;
  }

  -- The run has come to the comparison of these two sequences.
  pub record Reached : Type 0 where
    pub coherent : gate_is_coherent gate ≡ true
    pub bound :
        (binding_matches reference binding.reference && binding_matches candidate binding.candidate)
        ≡ true
    pub proceeds : gate.proceed ≡ true
    pub metadata : RunReportMetadata × RunReportMetadata
    pub read_meta : read_metadata host gate binding reference candidate ≡ ok metadata
    pub detail : String
    pub comparable : validate_run_compatibility gate metadata.0 metadata.1 ≡ (compatible, detail)
    pub same_prompt : gate.artifact.tokenizer_boundary.prompt_identity_evidence ≢ divergent
    pub sequences : SelectedTokenSequence × SelectedTokenSequence
    pub read : read_sequences host gate binding reference candidate ≡ ok sequences

  abbrev seq_read : Read (SelectedTokenSequence × SelectedTokenSequence)
  seq_read = read_sequences host gate binding reference candidate

  abbrev meta_read : Read (RunReportMetadata × RunReportMetadata)
  meta_read = read_metadata host gate binding reference candidate

  guards :
      (run_token_localization host gate binding reference candidate).evidence_completeness
        ≡ complete
      → (gate_is_coherent gate ≡ true)
        × ((binding_matches reference binding.reference
              && binding_matches candidate binding.candidate)
            ≡ true)
        × (gate.proceed ≡ true)
        × (run_token_localization host gate binding reference candidate
            ≡ compare_metadata host gate binding reference candidate meta_read)
  unfolding run_token_localization
  guards h = ground arith

  metadata-complete :
      (m : Read (RunReportMetadata × RunReportMetadata))
      → (compare_metadata host gate binding reference candidate m).evidence_completeness ≡ complete
      → (metadata : RunReportMetadata × RunReportMetadata) × (m ≡ ok metadata)
        × (compare_metadata host gate binding reference candidate m
            ≡ compare_compatible host gate binding reference candidate
                (validate_run_compatibility gate metadata.0 metadata.1)
                metadata)
  unfolding compare_metadata metadata_failure
  metadata-complete (ok (r, c)) h = ((r, c), refl, refl)
  metadata-complete (err e) h = absurd (ground arith)

  compatible-complete :
      (state : CompatibilityState) (detail : String)
      (metadata : RunReportMetadata × RunReportMetadata)
      → (compare_compatible host gate binding reference candidate
          (state, detail)
          metadata).evidence_completeness
        ≡ complete
      → (state ≡ compatible)
        × (gate.artifact.tokenizer_boundary.prompt_identity_evidence ≢ divergent)
        × (compare_compatible host gate binding reference candidate (state, detail) metadata
            ≡ compare_sequences host gate binding reference candidate detail metadata seq_read)
  unfolding compare_compatible incompatible_result prompt_divergence is_compatible
  compatible-complete compatible detail metadata h = ground arith
  compatible-complete _ detail metadata h = absurd (ground arith)

  sequences-complete :
      (detail : String) (metadata : RunReportMetadata × RunReportMetadata)
      (m : Read (SelectedTokenSequence × SelectedTokenSequence))
      → (compare_sequences host gate binding reference candidate detail metadata
          m).evidence_completeness
        ≡ complete
      → (sequences : SelectedTokenSequence × SelectedTokenSequence) × (m ≡ ok sequences)
        × (compare_sequences host gate binding reference candidate detail metadata m
            ≡ compare_arrays host gate binding detail
                (input_of reference metadata.0 sequences.0)
                (input_of candidate metadata.1 sequences.1)
                sequences.0.token_ids
                sequences.1.token_ids)
  unfolding compare_sequences metadata_failure
  sequences-complete detail (rm, cm) (ok (r, c)) h = ((r, c), refl, refl)
  sequences-complete detail (rm, cm) (err e) h = absurd (ground arith)

  pub complete-Reached :
      (run_token_localization host gate binding reference candidate).evidence_completeness
        ≡ complete
      → Reached
  complete-Reached h =
      let (coherent, bound, proceeds, e1) = guards h in
      let (metadata, read_meta, e2) = metadata-complete meta_read (rw e1 at h) in
      let state = validate_run_compatibility gate metadata.0 metadata.1 in
      let (comparable, same_prompt, e3) =
        compatible-complete state.0 state.1 metadata (rw (e1, e2) at h) in
      let (sequences, read, e4) =
        sequences-complete state.1 metadata seq_read (rw (e1, e2, e3) at h) in
      record {
        coherent = coherent;
        bound = bound;
        proceeds = proceeds;
        metadata = metadata;
        read_meta = read_meta;
        detail = state.1;
        comparable = ap (λ s. (s, state.1)) comparable;
        same_prompt = same_prompt;
        sequences = sequences;
        read = read;
      }

  -- Where the checks are passed, the result is that of the comparison of the two arrays.
  pub Reached-result :
      (reached : Reached)
      → run_token_localization host gate binding reference candidate
        ≡ compare_arrays host gate binding reached.detail
            (input_of reference reached.metadata.0 reached.sequences.0)
            (input_of candidate reached.metadata.1 reached.sequences.1)
            reached.sequences.0.token_ids
            reached.sequences.1.token_ids
  unfolding run_token_localization compare_metadata compare_compatible compare_sequences
      is_compatible
  Reached-result reached = ground (
    arith, reached.coherent, reached.bound, reached.proceeds, reached.read_meta, reached.comparable,
    reached.same_prompt, reached.read,
  )
