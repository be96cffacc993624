-- ===== src/Replay/Follows.antt =====
-- Pass 2 after Pass 1: what a first mismatch that Pass 1 reports gives Pass 2.
pub mod Reproduces
use local_inference_system.Base.{
  ℕ, zero, suc, ◌+◌, ◌≤◌, String, Bool, true, false, not, ◌&&◌, Option, none, some, List, [], ◌∷◌,
  ◌≡◌, ◌≢◌, refl, arith, take, length, length-take, ltb, leb, nat_eq, string_eq, ◌==◌, ◌!=◌,
  Outcome, ok, err, ◌>>=◌, All, List-cases, map, ◌++◌, >>=-eq-ok, ap, sym, ◌∙◌, Outcome-cases, inl,
  inr,
}
use local_inference_system.Json.Value.{Value, null, Fields}
use local_inference_system.Json.Lookup.{get_value}
use local_inference_system.Calibration.Names.{prompt_identity_evidence_value}
use local_inference_system.Calibration.Gate.{Pass0GateDecision}
use local_inference_system.Tokens.Model.{
  Pass0SourceBinding, Pass1Result, Pass1RunInput, RunReportMetadata, SelectedTokenSequence,
  TokenLocalization, PrefixForReproduction,
}
use local_inference_system.Tokens.Reports.{Host, CanonicalRunReport, token_ids_sha256}
use local_inference_system.Tokens.Sequence.{extract_selected_token_sequence, assemble_sequence}
use local_inference_system.Tokens.Gate.{
  CompatibilityState, compatible, validate_run_compatibility, binding_matches,
}
use local_inference_system.Tokens.Locate.{locate_first_selected_token_mismatch}
use local_inference_system.Tokens.Locate.Specification.{IsLocalization}
use local_inference_system.Tokens.Results.{
  prefix_of, arrays_missing, compatibility_of, located, compare_arrays,
}
use local_inference_system.Replay.Model.{PrefixGateResult}
use local_inference_system.Replay.Evidence.{
  RunEvidence, selected_tokens, report_sha256, original_binding_matches,
}
use local_inference_system.Replay.Results.{prefix_gate}
use local_inference_system.Replay.Prefix.{
  ExpectedPrefix, resolve_expected_prefix, checked_prefix, prefix_values, is_aligned,
}
use local_inference_system.Replay.Compare.{
  first_diff, values_objection, run_objection, compare_runs, compare_prefixes, context_gate,
  context_evidence, same_position, single_batches, first_sequences,
}

module _ (host : Host) (gate : Pass0GateDecision) (binding : Pass0SourceBinding) (config : String)
    (r c : Pass1RunInput) where
  -- What every result of a comparison of arrays takes from its arguments.
  pub compare_arrays-fields :
      (ref cand : Option (List ℕ))
      → let result = compare_arrays host gate binding config r c ref cand in
        (result.source_binding ≡ binding)
        × (result.source_binding_verified ≡ true)
        × (result.compatibility.prompt_identity_evidence
            ≡ prompt_identity_evidence_value
                gate.artifact.tokenizer_boundary.prompt_identity_evidence)
  unfolding compare_arrays located arrays_missing compatibility_of
  compare_arrays-fields (some ref) (some cand) = ground arith
  compare_arrays-fields none cand = ground arith
  compare_arrays-fields (some ref) none = ground arith

-- The role under which a sequence is read does not change its tokens.
pub extract-role :
    (host : Host) (raw : Fields) (role other : String) {sequence : SelectedTokenSequence}
    → extract_selected_token_sequence host raw role ≡ ok sequence
    → (s : SelectedTokenSequence) × (extract_selected_token_sequence host raw other ≡ ok s)
      × (s.token_ids ≡ sequence.token_ids)
unfolding extract_selected_token_sequence assemble_sequence
extract-role host raw role other {sequence} h =
    elim (Outcome-cases (extract_selected_token_sequence host raw other)) [
      | inl (s, e) ↦ (s, e, ground (arith, h, e))
      | inr (x, e) ↦ absurd (ground (arith, h, e))
    ]

pub first_diff-take : (n : ℕ) (xs : List ℕ) → first_diff (take n xs) xs ≡ none
unfolding first_diff
first_diff-take zero xs = refl
first_diff-take (suc n) [] = refl
first_diff-take (suc n) (x ∷ xs) = ground (arith, first_diff-take n xs)

-- The prefix that Pass 1 gives for its localization is the one that Pass 2 expects.
pub resolve-prefix_of :
    (host : Host) (pass1 : Pass1Result) (ref : List ℕ) (step : ℕ) (l : TokenLocalization)
    → pass1.localization ≡ some l
    → l.generated_token_step ≡ some step
    → l.matched_generated_prefix_length ≡ step
    → step ≤ length ref
    → pass1.prefix_for_reproduction ≡ some (prefix_of host ref step)
    → resolve_expected_prefix host pass1 none
      ≡ ok (record {
        values = take step ref;
        localization = l;
        step = step;
        prefix = prefix_of host ref step;
      })
unfolding resolve_expected_prefix prefix_of prefix_values checked_prefix
resolve-prefix_of host pass1 ref step l localized at_step matched bound kept =
    rw (localized, at_step, kept) (ground (arith, length-take step ref))

module _ (host : Host) (expected : List ℕ) (sha256 : String) where
  -- The run was not forced to a prefix, and selected tokens that begin with the expected ones.
  pub record Fits (run : RunEvidence) : Type 0 where
    pub unforced : get_value "forced_prefix" run.raw ≡ null
    pub values : List ℕ
    pub read : selected_tokens host run ≡ ok (some values)
    pub reaches : length expected ≤ length values
    pub same : first_diff expected values ≡ none

  values_objection-none :
      (verified : List String) (run : RunEvidence) (values : List ℕ)
      → length expected ≤ length values
      → first_diff expected values ≡ none
      → values_objection host expected sha256 verified run (some values) ≡ none
  unfolding values_objection
  values_objection-none verified run values reaches same = ground (arith, same)

  run_objection-none :
      (verified : List String) (run : RunEvidence)
      → Fits run
      → run_objection host expected sha256 verified run (get_value "forced_prefix" run.raw)
        ≡ ok none
  unfolding run_objection
  run_objection-none verified run f =
      rw (f.unforced, f.read) (ap ok (values_objection-none verified run f.values f.reaches f.same))

  compare_runs-none :
      (verified : List String) (runs : List RunEvidence)
      → All Fits runs
      → (gate : PrefixGateResult) × (compare_runs host expected sha256 verified runs
          ≡ ok (gate, none))
  unfolding compare_runs
  compare_runs-none verified [] h = (_, refl)
  compare_runs-none verified (run ∷ runs) (fits, h) =
      let (gate, e) = compare_runs-none (verified ++ (run.role ∷ [])) runs h in
      let objection = run_objection-none verified run fits in (gate, ground (arith, objection, e))

  pub compare_prefixes-none :
      (runs : List RunEvidence)
      → All Fits runs
      → (gate : PrefixGateResult) × (compare_prefixes host expected sha256 runs ≡ ok (gate, none))
  unfolding compare_prefixes
  compare_prefixes-none runs h = elim (List-cases expected) [
    | inl e ↦ (
      record (prefix_gate "verified") {
        expected_token_count = some 0;
        expected_sha256 = some sha256;
        verified_sides = map (λ run. run.role) runs;
      },
      rw (e, compare_prefixes),
    )
    | inr (n, ns, e) ↦
        let (gate, compared) = compare_runs-none [] runs h in (gate, ground (arith, e, compared))
  ]

-- Runs with prompts of one length and batches of one have a verified context.
pub context_gate-verified :
    (r c : RunEvidence) (step : ℕ)
    → r.prompt_token_count ≡ c.prompt_token_count
    → r.batch_size ≡ 1
    → c.batch_size ≡ 1
    → (context_gate (r ∷ c ∷ []) step).status ≡ "verified"
unfolding context_gate context_evidence same_position single_batches first_sequences
context_gate-verified r c step prompts p q = ground arith
