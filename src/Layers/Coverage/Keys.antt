-- ===== src/Layers/Coverage/Keys.antt =====
-- The analysis of the coverage sorts the captured checkpoints by the traces that have them.
use local_inference_system.Base.{
  Bool, not, ◌&&◌, List, [], ◌∷◌, map, ◌≡◌, refl, arith, contains, keep,
}
use local_inference_system.Layers.Model.{
  CheckpointCoordinate, LogicalKey, logical_key, logical_key_eq, CheckpointSummaryArtifact,
}
use local_inference_system.Layers.Coverage.{coverage_of, is_captured}

abbrev pub keys : List CheckpointCoordinate → List LogicalKey
keys cs = map logical_key cs

keys-keep :
    (q : LogicalKey → Bool) (key : LogicalKey) (cs : List CheckpointCoordinate)
    → contains key (keys (keep (λ c. q (logical_key c)) cs)) ≡ (contains key (keys cs) && q key)
keys-keep q key [] = refl
keys-keep q key (c ∷ cs) = ground (arith, keys-keep q key cs)

-- A key is common exactly if both traces captured it, and only in one trace exactly if that one
-- captured it and the other did not.
pub coverage_of-keys :
    (reference candidate : CheckpointSummaryArtifact) (key : LogicalKey)
    → let coverage = coverage_of reference candidate in
      let ref = keys reference.coverage.captured_coordinates in
      let cand = keys candidate.coverage.captured_coordinates in
      (contains key (keys coverage.common_comparable) ≡ (contains key ref && contains key cand))
      × (contains key (keys coverage.reference_only)
          ≡ (contains key ref && not (contains key cand)))
      × (contains key (keys coverage.candidate_only)
          ≡ (contains key cand && not (contains key ref)))
unfolding coverage_of is_captured
coverage_of-keys reference candidate key =
    let ref = reference.coverage.captured_coordinates in
    let cand = candidate.coverage.captured_coordinates in
    (
      keys-keep (λ k. contains k (keys cand)) key ref,
      keys-keep (λ k. not (contains k (keys cand))) key ref,
      keys-keep (λ k. not (contains k (keys ref))) key cand,
    )
