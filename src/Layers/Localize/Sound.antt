-- ===== src/Layers/Localize/Sound.antt =====
-- What a result of Pass 3 says of the two traces.
use local_inference_system.Base.{
  String, Bool, true, false, none, some, List, [], ◌≡◌, refl, arith, nat_eq, option_eq, is_nonempty,
  Outcome, Outcome-cases, ok, inl, inr, Bool-cases,
}
use local_inference_system.Layers.Model.{
  CheckpointCoordinate, CheckpointSummaryArtifact, Pass3Status, Pass3DownstreamDisposition, blocked,
  Pass3Result,
}
use local_inference_system.Layers.Coverage.{coverage_of, alignment_failure, summary_map}
use local_inference_system.Layers.Compare.{
  Comparison, unavailable, compared, compare_from, interval,
}
use local_inference_system.Layers.Compare.First.{
  AllEqual, FirstDifference, compare_from-mismatch, compare_from-equal,
}
use local_inference_system.Layers.Localize.{conclude, insufficient, blocked_result, localize}

-- The comparison of the common checkpoints was reached, and this is what it found.
record Reaches (reference candidate : CheckpointSummaryArtifact) (warnings : List String)
    (r : Pass3Result) : Type 0 where
  pub found : Comparison
  pub aligned : alignment_failure reference candidate (coverage_of reference candidate) ≡ ok none
  pub covered : is_nonempty (coverage_of reference candidate).common_comparable ≡ true
  pub loop :
      compare_from
        (summary_map reference)
        (summary_map candidate)
        []
        none
        (coverage_of reference candidate).common_comparable
      ≡ ok found
  pub result : r ≡ conclude (coverage_of reference candidate) warnings found

is_blocked : Pass3DownstreamDisposition → Bool
is_blocked blocked = true
is_blocked _ = false

-- The result claims a place.
is_final : Pass3Status → Bool
is_final Pass3Status.observable_mismatch_found = true
is_final Pass3Status.no_mismatch_in_captured_coverage = true
is_final _ = false

module _ (reference candidate : CheckpointSummaryArtifact) (warnings : List String) where
  localize-Reaches :
      {r : Pass3Result}
      → localize reference candidate warnings ≡ ok r
      → is_final r.status ≡ true
      → Reaches reference candidate warnings r
  unfolding localize is_final
  localize-Reaches {r} h free =
      let coverage = coverage_of reference candidate in
      elim (Bool-cases (is_nonempty coverage.common_captured)) [
        | inl covered ↦ elim (Outcome-cases (alignment_failure reference candidate coverage)) [
          | inl (none, aligned) ↦
              elim (Outcome-cases (
                compare_from (summary_map reference) (summary_map candidate) [] none
                  coverage.common_comparable)) [
                    | inl (found, loop) ↦ record {
                      found = found;
                      aligned = aligned;
                      covered = unfold coverage_of in covered;
                      loop = loop;
                      result = ground (arith, covered, aligned, loop);
                    }
                    | inr (x, loop) ↦ absurd (ground (arith, covered, aligned, loop))
                  ]
          | inl (some fault, aligned) ↦
              absurd (unfold blocked_result in ground (arith, covered, aligned))
          | inr (x, aligned) ↦ absurd (ground (arith, covered, aligned))
        ]
        | inr empty ↦ absurd (unfold insufficient in unfold blocked_result in ground (arith, empty))
      ]

module _ (reference candidate : CheckpointSummaryArtifact) (warnings : List String) where
  abbrev common : List CheckpointCoordinate
  common = (coverage_of reference candidate).common_comparable

  abbrev loop : Outcome String Comparison
  loop = compare_from (summary_map reference) (summary_map candidate) [] none common

  conclude-mismatch :
      (found : Comparison) (r : Pass3Result)
      → loop ≡ ok found
      → r ≡ conclude (coverage_of reference candidate) warnings found
      → r.status ≡ Pass3Status.observable_mismatch_found
      → (mismatch : CheckpointCoordinate) × FirstDifference
          (summary_map reference)
          (summary_map candidate)
          common
          none
          r.last_observed_equivalent_coordinate
          mismatch
        × (r.first_observed_mismatch_coordinate ≡ some mismatch)
        × (r.earliest_observable_suspect_layer ≡ some mismatch.layer_index)
        × (r.suspect_interval ≡ some (interval r.last_observed_equivalent_coordinate mismatch))
  unfolding conclude
  conclude-mismatch (compared out last (some mismatch)) r l e status = rw e (
    mismatch,
    compare_from-mismatch (summary_map reference) (summary_map candidate) [] none common l,
    refl,
    refl,
    refl,
  )
  conclude-mismatch (compared out last none) r l e status = absurd (ground arith)
  conclude-mismatch (unavailable out) r l e status = absurd (unfold blocked_result in ground arith)

  conclude-equal :
      (found : Comparison) (r : Pass3Result)
      → loop ≡ ok found
      → r ≡ conclude (coverage_of reference candidate) warnings found
      → r.status ≡ Pass3Status.no_mismatch_in_captured_coverage
      → AllEqual (summary_map reference) (summary_map candidate) common
  unfolding conclude
  conclude-equal (compared out last none) r l e status =
      (compare_from-equal (summary_map reference) (summary_map candidate) [] none common l).0
  conclude-equal (compared out last (some mismatch)) r l e status = absurd (ground arith)
  conclude-equal (unavailable out) r l e status = absurd (unfold blocked_result in ground arith)

  -- A mismatch is reported only at the first common checkpoint whose digests differ: the digests of
  -- all common checkpoints before it are equal, the last of them is the last equal one, and the
  -- interval and the layer are those of the two.
  pub localize-mismatch :
      {r : Pass3Result}
      → localize reference candidate warnings ≡ ok r
      → r.status ≡ Pass3Status.observable_mismatch_found
      → (mismatch : CheckpointCoordinate) × FirstDifference
          (summary_map reference)
          (summary_map candidate)
          common
          none
          r.last_observed_equivalent_coordinate
          mismatch
        × (r.first_observed_mismatch_coordinate ≡ some mismatch)
        × (r.earliest_observable_suspect_layer ≡ some mismatch.layer_index)
        × (r.suspect_interval ≡ some (interval r.last_observed_equivalent_coordinate mismatch))
  localize-mismatch {r} h status =
      let reached =
        localize-Reaches reference candidate warnings h (unfold is_final in rw status refl) in
      conclude-mismatch reached.found r reached.loop reached.result status

  -- No mismatch is reported only where the common coverage is not empty and all of its checkpoints
  -- have equal digests.
  pub localize-equal :
      {r : Pass3Result}
      → localize reference candidate warnings ≡ ok r
      → r.status ≡ Pass3Status.no_mismatch_in_captured_coverage
      → (is_nonempty common ≡ true)
        × AllEqual (summary_map reference) (summary_map candidate) common
  localize-equal {r} h status =
      let reached =
        localize-Reaches reference candidate warnings h (unfold is_final in rw status refl) in
      (reached.covered, conclude-equal reached.found r reached.loop reached.result status)
