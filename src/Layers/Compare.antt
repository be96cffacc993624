-- ===== src/Layers/Compare.antt =====
-- tools/lis_verify/pass3.py: the loop that compares the digests of the common checkpoints, and the
-- interval in which the first difference lies. The proofs are in the modules below.
pub mod First
use local_inference_system.Base.{
  ℕ, zero, suc, ◌+◌, ◌-◌, String, Bool, true, false, Option, none, some, List, [], ◌∷◌, ◌++◌, ◌==◌,
  string_eq, Outcome, ok, err, ◌>>=◌,
}
use local_inference_system.Base.Text.{concat, decimal}
use local_inference_system.Layers.Model.{
  CheckpointCoordinate, LogicalKey, CheckpointSummary, SummaryComparisonResult, SuspectInterval,
}
use local_inference_system.Layers.Coverage.{summary_pair}

-- The variables behind the loop, or the comparisons where a digest is missing.
pub data Comparison : Type 0 where
  unavailable : List SummaryComparisonResult → Comparison
  compared :
      List SummaryComparisonResult
      → Option CheckpointCoordinate
      → Option CheckpointCoordinate
      → Comparison

-- Whether the two digests are there, and then whether they are equal.
unfoldable pub digests_equal : CheckpointSummary → CheckpointSummary → Option Bool
digests_equal left right = elim left.digest [
  | none ↦ none
  | some l ↦ elim right.digest [ none ↦ none | some r ↦ some (l.value == r.value) ]
]

module _ (ref cand : List (LogicalKey × CheckpointSummary)) where
  -- The two digests of the coordinate.
  unfoldable pub verdict_at : CheckpointCoordinate → Outcome String (Option Bool)
  verdict_at c = do (left, right) ← summary_pair ref cand c; ok (digests_equal left right)

  unfoldable pub compare_from :
      List SummaryComparisonResult
      → Option CheckpointCoordinate
      → List CheckpointCoordinate
      → Outcome String Comparison
  compare_from done last [] = ok (compared done last none)
  compare_from done last (c ∷ cs) =
      let later =
        compare_from (done ++ (record { coordinate = c; equivalent = true } ∷ [])) (some c) cs in
      elim (verdict_at c) [
        | err e ↦ err e
        | ok none ↦ ok (unavailable done)
        | ok (some true) ↦ later
        | ok (some false) ↦
            ok (
              compared (done ++ (record { coordinate = c; equivalent = false } ∷ [])) last (some c))
      ]

-- `range(start, start + count)`
unfoldable pub range_from : ℕ → ℕ → List ℕ
range_from start zero = []
range_from start (suc count) = start ∷ range_from (suc start) count

-- `range(a, b)`
unfoldable pub range : ℕ → ℕ → List ℕ
range a b = range_from a (b - a)

unfoldable pub interval : Option CheckpointCoordinate → CheckpointCoordinate → SuspectInterval
interval none mismatch = record {
  start_boundary = "runtime_entry";
  last_observed_equivalent_coordinate = none;
  first_observed_mismatch_coordinate = mismatch;
  start_exclusive = false;
  end_inclusive = true;
  unobserved_layer_indices = range 0 mismatch.layer_index;
  notation = concat ("[entry, " ∷ decimal mismatch.layer_index ∷ "]" ∷ []);
}
interval (some last) mismatch = record {
  start_boundary = "observed_checkpoint";
  last_observed_equivalent_coordinate = some last;
  first_observed_mismatch_coordinate = mismatch;
  start_exclusive = true;
  end_inclusive = true;
  unobserved_layer_indices = range (last.layer_index + 1) mismatch.layer_index;
  notation =
      concat ("(" ∷ decimal last.layer_index ∷ ", " ∷ decimal mismatch.layer_index ∷ "]" ∷ []);
}
