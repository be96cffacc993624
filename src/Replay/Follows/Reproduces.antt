-- ===== src/Replay/Follows/Reproduces.antt =====
-- A first mismatch of Pass 1 is reproduced by Pass 2 on the same two reports.
use local_inference_system.Base.{
  ℕ, String, true, false, not, ◌||◌, none, some, List, [], ◌∷◌, ◌≡◌, ◌≢◌, refl, arith, take,
  length-take, nat_eq, string_eq, ◌==◌, ok, sym, both-eq-ok, All, String_discrete, Option-cases,
  inl, inr,
}
use local_inference_system.Json.Value.{null}
use local_inference_system.Json.Lookup.{get_value}
use local_inference_system.Calibration.Model.{
  PromptIdentityEvidence, divergent, backend_differential, checkpoint_confirmation_allowed,
}
use local_inference_system.Calibration.Names.{prompt_identity_evidence_value}
use local_inference_system.Calibration.Gate.{Pass0GateDecision}
use local_inference_system.Tokens.Model.{
  Pass0SourceBinding, Pass1Result, first_mismatch_found, RunReportMetadata, RunReportIdentity,
  run_report_identity_eq, SelectedTokenSequence,
}
use local_inference_system.Tokens.Reports.{Host, CanonicalRunReport, extract_run_metadata}
use local_inference_system.Tokens.Sequence.{extract_selected_token_sequence}
use local_inference_system.Tokens.Gate.{
  CompatibilityState, compatible, validate_run_compatibility, binding_matches, side_fault,
}
use local_inference_system.Tokens.Locate.{locate_first_selected_token_mismatch}
use local_inference_system.Tokens.Locate.Specification.{IsLocalization, locate-IsLocalization}
use local_inference_system.Tokens.Results.{prefix_of}
use local_inference_system.Tokens.Run.{run_token_localization, read_sequences, read_metadata}
use local_inference_system.Tokens.Run.Reach.{Reached-result}
use local_inference_system.Tokens.Run.Soundness.{Mismatch, run-Mismatch}
use local_inference_system.Replay.Model.{Pass2Status}
use local_inference_system.Replay.Evidence.{
  RunEvidence, extract_run_evidence, selected_tokens, report_sha256, original_binding_matches,
}
use local_inference_system.Replay.Evidence.Sound.{IsEvidence, MetadataAgrees, extract-agrees}
use local_inference_system.Replay.Prefix.{resolve_expected_prefix}
use local_inference_system.Replay.Originals.{Pair, read_pair, needs_common_binary}
use local_inference_system.Replay.Run.{run_prefix_policy_reproduction}
use local_inference_system.Replay.Run.Complete.{MeetsGates, MeetsGates-verified}
use local_inference_system.Replay.Follows.{
  compare_arrays-fields, extract-role, first_diff-take, resolve-prefix_of, Fits,
  compare_prefixes-none, context_gate-verified,
}

same_report :
    (report : CanonicalRunReport) (expected : RunReportIdentity)
    → binding_matches report expected ≡ true
    → report.identity.run_report_sha256 ≢ ""
    → report_sha256 report ≡ some expected.run_report_sha256
unfolding binding_matches report_sha256
same_report report expected h hashed = ground (arith, h, hashed)

originals-bound :
    (pass1 : Pass1Result) (reference candidate : CanonicalRunReport)
    → pass1.source_binding_verified ≡ true
    → report_sha256 reference ≡ some pass1.source_binding.reference.run_report_sha256
    → report_sha256 candidate ≡ some pass1.source_binding.candidate.run_report_sha256
    → original_binding_matches pass1 reference candidate ≡ (true, true)
unfolding original_binding_matches
originals-bound pass1 reference candidate v r c = rw (v, r, c) (ground arith)

prompt-not_divergent :
    (e : PromptIdentityEvidence)
    → e ≢ divergent
    → (prompt_identity_evidence_value e == "divergent") ≡ false
unfolding prompt_identity_evidence_value String_discrete
prompt-not_divergent divergent h = absurd (h refl)
prompt-not_divergent _ h = refl

side_fault-incompatible :
    (m : RunReportMetadata) {fault : CompatibilityState}
    → side_fault m ≡ some fault
    → fault ≢ compatible
unfolding side_fault
side_fault-incompatible m h = ground arith

side_fault-batch : (m : RunReportMetadata) → side_fault m ≡ none → m.batch_size ≡ some 1
unfolding side_fault
side_fault-batch m h = ground arith

-- The runs that Pass 1 compares have batches of one.
compatible-batches :
    (gate : Pass0GateDecision) (r c : RunReportMetadata) (detail : String)
    → validate_run_compatibility gate r c ≡ (compatible, detail)
    → (r.batch_size ≡ some 1) × (c.batch_size ≡ some 1)
unfolding validate_run_compatibility
compatible-batches gate r c detail h = elim (Option-cases (side_fault r)) [
  | inr (fault, e) ↦ absurd (side_fault-incompatible r e (ground (arith, h, e)))
  | inl e ↦ elim (Option-cases (side_fault c)) [
    | inr (fault, d) ↦ absurd (side_fault-incompatible c d (ground (arith, h, e, d)))
    | inl d ↦ (side_fault-batch r e, side_fault-batch c d)
  ]
]

selected-of_sequence :
    (host : Host) (report : CanonicalRunReport) (role : String) (e : RunEvidence)
    {sequence : SelectedTokenSequence} {ids : List ℕ}
    → e.raw ≡ report.materialize
    → extract_selected_token_sequence host report.materialize role ≡ ok sequence
    → sequence.token_ids ≡ some ids
    → selected_tokens host e ≡ ok (some ids)
unfolding selected_tokens
selected-of_sequence host report role e {sequence} {ids} raw read has =
    let (s, again, same) = extract-role host report.materialize role e.role read in
    ground (arith, raw, again, same, has)

module _ (host : Host) (gate : Pass0GateDecision) (binding : Pass0SourceBinding)
    (reference candidate : CanonicalRunReport) where
  abbrev pub pass1 : Pass1Result
  pass1 = run_token_localization host gate binding reference candidate

  -- What Pass 2 needs beside what Pass 1 has checked: hashes, readable evidence that was not forced
  -- to a prefix, prompts of one length and, between backends, one binary.
  pub record Readable : Type 0 where
    pub reference_hash : reference.identity.run_report_sha256 ≢ ""
    pub candidate_hash : candidate.identity.run_report_sha256 ≢ ""
    pub originals : Pair
    pub reference_read : extract_run_evidence reference "reference_original" ≡ ok originals.0
    pub candidate_read : extract_run_evidence candidate "candidate_original" ≡ ok originals.1
    pub reference_unforced : get_value "forced_prefix" reference.materialize ≡ null
    pub candidate_unforced : get_value "forced_prefix" candidate.materialize ≡ null
    pub prompts : originals.0.prompt_token_count ≡ originals.1.prompt_token_count
    pub builds :
        pass1.comparison_mode ≡ backend_differential
        → originals.0.binary_fingerprint ≡ originals.1.binary_fingerprint

  module _ (m : Mismatch host gate binding reference candidate) where
    fields :
        (pass1.source_binding ≡ binding)
        × (pass1.source_binding_verified ≡ true)
        × (pass1.compatibility.prompt_identity_evidence
            ≡ prompt_identity_evidence_value
                gate.artifact.tokenizer_boundary.prompt_identity_evidence)
    fields =
        rw (Reached-result host gate binding reference candidate m.reached)
          (compare_arrays-fields host gate binding m.reached.detail _ _ _ _)

    module _ (x : Readable) where
      reads-agree :
          IsEvidence reference "reference_original" x.originals.0
          × MetadataAgrees reference "reference" x.originals.0
          × IsEvidence candidate "candidate_original" x.originals.1
          × MetadataAgrees candidate "candidate" x.originals.1
      reads-agree =
          let (re, rm) =
            extract-agrees reference "reference_original" "reference" x.reference_read in
          let (ce, cm) =
            extract-agrees candidate "candidate_original" "candidate" x.candidate_read in
          (re, rm, ce, cm)

      both-selected :
          (selected_tokens host x.originals.0 ≡ ok (some m.reference_ids))
          × (selected_tokens host x.originals.1 ≡ ok (some m.candidate_ids))
      unfolding read_sequences
      both-selected =
          let (re, rm, ce, cm) = reads-agree in
          let (r, c) =
            both-eq-ok (extract_selected_token_sequence host reference.materialize "reference")
              (extract_selected_token_sequence host candidate.materialize "candidate")
              m.reached.read in
          (
            selected-of_sequence host reference "reference" x.originals.0 re.raw r m.in_reference,
            selected-of_sequence host candidate "candidate" x.originals.1 ce.raw c m.in_candidate,
          )

      both-batches : (x.originals.0.batch_size ≡ 1) × (x.originals.1.batch_size ≡ 1)
      unfolding read_metadata
      both-batches =
          let (re, rm, ce, cm) = reads-agree in
          let (r, c) =
            both-eq-ok (extract_run_metadata reference.materialize reference.identity "reference")
              (extract_run_metadata candidate.materialize candidate.identity "candidate")
              m.reached.read_meta in
          let (p, q) = compatible-batches gate _ _ m.reached.detail m.reached.comparable in
          (ground (arith, rm.read, rm.batch, r, p), ground (arith, cm.read, cm.batch, c, q))

      located :
          IsLocalization m.reference_ids m.candidate_ids
            (locate_first_selected_token_mismatch m.reference_ids m.candidate_ids)
      located = locate-IsLocalization m.reference_ids m.candidate_ids

      abbrev step_matched :
          m.step
          ≡ (locate_first_selected_token_mismatch m.reference_ids
              m.candidate_ids).matched_generated_prefix_length
      step_matched = (located.step m.step m.found).0

      Fits-both :
          All
            (Fits host (take m.step m.reference_ids) (prefix_of host m.reference_ids m.step).sha256)
            (x.originals.0 ∷ x.originals.1 ∷ [])
      Fits-both =
          let (re, rm, ce, cm) = reads-agree in
          let (r, c) = both-selected in
          let same : take m.step m.reference_ids ≡ take m.step m.candidate_ids =
            rw step_matched located.prefix in
          (
            record {
              unforced = rw re.raw x.reference_unforced;
              values = m.reference_ids;
              read = r;
              reaches = omega (arith, length-take m.step m.reference_ids);
              same = first_diff-take m.step m.reference_ids;
            },
            (
              record {
                unforced = rw ce.raw x.candidate_unforced;
                values = m.candidate_ids;
                read = c;
                reaches = rw same (omega (arith, length-take m.step m.candidate_ids));
                same = rw same (first_diff-take m.step m.candidate_ids);
              },
              tt,
            ),
          )

      both-bound : original_binding_matches pass1 reference candidate ≡ (true, true)
      both-bound =
          let (source, verified, prompt) = fields in
          let bound = m.reached.bound in
          originals-bound pass1 reference candidate verified
            (rw source
              (same_report reference binding.reference (ground (arith, bound)) x.reference_hash))
            (rw source
              (same_report candidate binding.candidate (ground (arith, bound)) x.candidate_hash))

      no_divergence : (pass1.compatibility.prompt_identity_evidence == "divergent") ≡ false
      no_divergence =
          let (source, verified, prompt) = fields in
          rw prompt (
            prompt-not_divergent gate.artifact.tokenizer_boundary.prompt_identity_evidence
              m.reached.same_prompt)

      one_binary :
          (not (needs_common_binary host pass1)
            || x.originals.0.binary_fingerprint == x.originals.1.binary_fingerprint)
          ≡ true
      unfolding needs_common_binary
      one_binary = ground (arith, x.builds)

      both-read :
          read_pair reference "reference_original" candidate "candidate_original" ≡ ok x.originals
      unfolding read_pair
      both-read = rw (x.reference_read, x.candidate_read)

      expected :
          resolve_expected_prefix host pass1 none
          ≡ ok (record {
            values = take m.step m.reference_ids;
            localization = locate_first_selected_token_mismatch m.reference_ids m.candidate_ids;
            step = m.step;
            prefix = prefix_of host m.reference_ids m.step;
          })
      expected =
          resolve-prefix_of host pass1 m.reference_ids m.step _ m.reproducible.localization m.found
            (sym step_matched) (rw step_matched located.within_reference) m.reproducible.prefix

      meets :
          gate.verdict_strength_limit ≡ checkpoint_confirmation_allowed
          → pass1.status ≡ first_mismatch_found
          → MeetsGates host pass1 reference candidate none
      meets allowed found =
          let (prefix, compared) = compare_prefixes-none host _ _ _ Fits-both in
          let (one, other) = both-batches in
          record {
            ready = m.reproducible.disposition.1 allowed;
            mismatch = found;
            bound = both-bound;
            originals = x.originals;
            read = both-read;
            builds = one_binary;
            expected = _;
            resolved = expected;
            prompt = no_divergence;
            prefix = prefix;
            compared = compared;
            checkpoint = ground (arith, (located.step m.step m.found).1);
            matched = sym step_matched;
            context = context_gate-verified x.originals.0 x.originals.1 m.step x.prompts one other;
          }

  -- Where Pass 1 reports a first mismatch and the gate allows checkpoint confirmation, Pass 2 on the
  -- same two reports verifies the reproduction, if the reports have hashes and their evidence can be
  -- read, has prompts of one length and no forced prefix, and, between backends, is of one binary.
  pub run-reproduces :
      Readable
      → gate.verdict_strength_limit ≡ checkpoint_confirmation_allowed
      → (run_token_localization host gate binding reference candidate).status ≡ first_mismatch_found
      → (run_prefix_policy_reproduction host
          (run_token_localization host gate binding reference candidate)
          reference
          candidate
          none
          none
          none).status
        ≡ Pass2Status.reproduction_verified
  run-reproduces x allowed found =
      MeetsGates-verified host pass1 reference candidate none
        (meets (run-Mismatch host gate binding reference candidate found) x allowed found)
