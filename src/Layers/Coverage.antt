-- ===== src/Layers/Coverage.antt =====
-- tools/lis_verify/pass3.py: the coverage that two traces share, and whether they are aligned on it.
pub mod Keys
use local_inference_system.Base.{
  ℕ, String, Bool, true, false, not, ◌&&◌, ◌||◌, Option, none, some, List, [], ◌∷◌, map, ◌==◌, ◌!=◌,
  nat_eq, string_eq, option_eq, list_eq, if◌then◌else◌, contains, keep, any, Outcome, ok, err,
}
use local_inference_system.Layers.Model.{
  CheckpointCoordinate, LogicalKey, logical_key, logical_key_eq, CheckpointSummary,
  CheckpointSummaryArtifact, CoverageAnalysis,
}

-- `{**table, key: value}`: an entry that is there keeps its place.
unfoldable pub put {ℓ} :
    {A : Type ℓ} → LogicalKey → A → List (LogicalKey × A) → List (LogicalKey × A)
put key value [] = (key, value) ∷ []
put key value ((k, a) ∷ table) =
    let rest = put key value table in if k == key then (k, value) ∷ table else (k, a) ∷ rest

unfoldable pub find {ℓ} : {A : Type ℓ} → LogicalKey → List (LogicalKey × A) → Option A
find key [] = none
find key ((k, a) ∷ table) = let rest = find key table in if k == key then some a else rest

-- The loop of a dict comprehension over the list.
unfoldable pub map_onto {ℓ} :
    {A : Type ℓ} → (A → LogicalKey) → List A → List (LogicalKey × A) → List (LogicalKey × A)
unfolding put
map_onto key [] table = table
map_onto key (a ∷ rest) table = map_onto key rest (put (key a) a table)

unfoldable pub summary_map : CheckpointSummaryArtifact → List (LogicalKey × CheckpointSummary)
unfolding map_onto
summary_map artifact = map_onto (λ s. logical_key s.coordinate) artifact.summaries []

unfoldable pub coordinate_map : List CheckpointCoordinate → List (LogicalKey × CheckpointCoordinate)
unfolding map_onto
coordinate_map coordinates = map_onto logical_key coordinates []

-- `tuple(table.values())`
unfoldable pub values_of : List (LogicalKey × CheckpointCoordinate) → List CheckpointCoordinate
values_of table = map (λ entry. entry.1) table

-- `key in table`, of the keys of captured coordinates
unfoldable pub is_captured : List CheckpointCoordinate → CheckpointCoordinate → Bool
is_captured coordinates c = contains (logical_key c) (map logical_key coordinates)

unfoldable pub coverage_of :
    CheckpointSummaryArtifact → CheckpointSummaryArtifact → CoverageAnalysis
unfolding coordinate_map values_of is_captured
coverage_of reference candidate =
    let ref = reference.coverage.captured_coordinates in
    let cand = candidate.coverage.captured_coordinates in
    let common = keep (is_captured cand) ref in
    record {
      reference_requested = values_of (coordinate_map reference.coverage.requested_coordinates);
      reference_captured = values_of (coordinate_map ref);
      candidate_requested = values_of (coordinate_map candidate.coverage.requested_coordinates);
      candidate_captured = values_of (coordinate_map cand);
      common_captured = common;
      reference_only = keep (λ c. not (is_captured cand c)) ref;
      candidate_only = keep (λ c. not (is_captured ref c)) cand;
      common_comparable = common;
      reference_missing = reference.coverage.missing_coordinates;
      candidate_missing = candidate.coverage.missing_coordinates;
    }

-- The key that a dict of (step, layer) to keys has for this step and layer: that of the last one.
unfoldable pub basis_of : List CheckpointCoordinate → ℕ → ℕ → Option LogicalKey
basis_of [] step layer = none
basis_of (c ∷ cs) step layer = elim (basis_of cs step layer) [
  | some key ↦ some key
  | none ↦
      if c.runtime_checkpoint_step == step && c.layer_index == layer
      then some (logical_key c)
      else none
]

-- Both traces have the step and the layer, under different keys.
unfoldable pub coordinate_basis_conflicts :
    List CheckpointCoordinate → List CheckpointCoordinate → Bool
unfolding basis_of
coordinate_basis_conflicts ref cand =
    any
      (λ c. elim (basis_of cand c.runtime_checkpoint_step c.layer_index) [
        | none ↦ false
        | some key ↦ basis_of ref c.runtime_checkpoint_step c.layer_index != some key
      ])
      ref

-- The fault of one aligned pair of summaries.
unfoldable pub pair_fault : CheckpointSummary → CheckpointSummary → Option String
pair_fault left right =
    if left.shape != right.shape
    then some "shape_mismatch"
    else if left.element_count != right.element_count
    then some "element_count_mismatch"
    else if left.observed_dtype != right.observed_dtype
    then some "dtype_mismatch"
    else if left.precision_path != right.precision_path
    then some "precision_path_mismatch"
    else if left.source_checkpoint_name != right.source_checkpoint_name
    then some "source_name_mismatch"
    else if left.coordinate.execution_ordinal != right.coordinate.execution_ordinal
    then some "execution_ordinal_mismatch"
    else none

-- The lookups `ref[key]` and `cand[key]`: a missing summary raises KeyError.
unfoldable pub summary_pair :
    List (LogicalKey × CheckpointSummary)
    → List (LogicalKey × CheckpointSummary)
    → CheckpointCoordinate
    → Outcome String (CheckpointSummary × CheckpointSummary)
summary_pair ref cand c = elim (find (logical_key c) ref) [
  | none ↦ err "KeyError"
  | some left ↦ elim (find (logical_key c) cand) [
    | none ↦ err "KeyError"
    | some right ↦ ok (left, right)
  ]
]

unfoldable pub pairs_fault :
    List (LogicalKey × CheckpointSummary)
    → List (LogicalKey × CheckpointSummary)
    → List CheckpointCoordinate
    → Outcome String (Option String)
pairs_fault ref cand [] = ok none
pairs_fault ref cand (c ∷ cs) =
    let rest = pairs_fault ref cand cs in
    elim (summary_pair ref cand c) [
      | err e ↦ err e
      | ok (left, right) ↦ elim (pair_fault left right) [
        | some fault ↦ ok (some fault)
        | none ↦ rest
      ]
    ]

unfoldable pub alignment_failure :
    CheckpointSummaryArtifact
    → CheckpointSummaryArtifact
    → CoverageAnalysis
    → Outcome String (Option String)
alignment_failure reference candidate coverage =
    if coordinate_basis_conflicts reference.coverage.captured_coordinates
      candidate.coverage.captured_coordinates
    then ok (some "logical_coordinate_mismatch")
    else if reference.model_family != candidate.model_family
    then ok (some "model_family_mismatch")
    else pairs_fault (summary_map reference) (summary_map candidate) coverage.common_captured
