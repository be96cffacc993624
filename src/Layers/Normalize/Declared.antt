-- ===== src/Layers/Normalize/Declared.antt =====
-- The coverage that a normalized trace declares is in order, at one step, and complete.
use mathlib.Core.Path.{subst, sym}
use local_inference_system.Base.{
  ℕ, String, true, false, Option, none, some, List, [], ◌∷◌, ◌≡◌, refl, arith, nat_eq, string_eq,
  option_eq, list_eq, contains, All, inl, inr, Outcome-cases, ok,
}
use local_inference_system.Json.Value.{Fields}
use local_inference_system.Json.Lookup.{get_value}
use local_inference_system.Tokens.Reports.{Host}
use local_inference_system.Layers.Model.{
  CheckpointCoordinate, checkpoint_coordinate_eq, LogicalKey, logical_key, logical_key_eq,
  CheckpointCoverage, CoverageEntry,
}
use local_inference_system.Layers.Inputs.{
  order_lt, is_behind, order_from, validate_coordinate_order, nonnegative_int, positive_int,
  CanonicalLayerTrace,
}
use local_inference_system.Layers.Layout.{
  keys_of, check_coverage, read_coverage, missing_coordinates_of, coverage_items, coordinates_from,
  missing_from, layout_of, is_partition, in_layout,
}
use local_inference_system.Layers.Normalize.{
  read_declared, Declared, target_step, materialize, semantics_of, entries_of,
}

-- The checkpoint is before the first of the others, in the order of the trace.
abbrev pub Ahead : CheckpointCoordinate → List CheckpointCoordinate → Type 0
Ahead c [] = Unit
Ahead c (d ∷ ds) = order_lt c d ≡ true

abbrev pub Ordered : List CheckpointCoordinate → Type 0
Ordered [] = Unit
Ordered (c ∷ cs) = Ahead c cs × Ordered cs

abbrev pub Distinct : List CheckpointCoordinate → Type 0
Distinct [] = Unit
Distinct (c ∷ cs) = (contains (logical_key c) (keys_of cs) ≡ false) × Distinct cs

abbrev Unseen : List LogicalKey → List CheckpointCoordinate → Type 0
Unseen seen = All (λ c. contains (logical_key c) seen ≡ false)

Unseen-tail :
    (k : LogicalKey) (seen : List LogicalKey) (cs : List CheckpointCoordinate)
    → Unseen (k ∷ seen) cs
    → (contains k (keys_of cs) ≡ false) × Unseen seen cs
unfolding keys_of
Unseen-tail k seen [] h = (refl, tt)
Unseen-tail k seen (c ∷ cs) (first, rest) =
    let (absent, others) = Unseen-tail k seen cs rest in
    (ground (arith, first, absent), (ground (arith, first), others))

order_from-Ahead :
    (label : String) (seen : List LogicalKey) (c : CheckpointCoordinate)
    (cs : List CheckpointCoordinate)
    → order_from label seen (some c) cs ≡ ok tt
    → Ahead c cs
unfolding order_from is_behind
order_from-Ahead label seen c [] h = tt
order_from-Ahead label seen c (d ∷ ds) h = ground (arith, h)

order_from-Ordered :
    (label : String) (seen : List LogicalKey) (previous : Option CheckpointCoordinate)
    (cs : List CheckpointCoordinate)
    → order_from label seen previous cs ≡ ok tt
    → Ordered cs × (Distinct cs × Unseen seen cs)
unfolding order_from is_behind
order_from-Ordered label seen previous [] h = (tt, (tt, tt))
order_from-Ordered label seen previous (c ∷ cs) h =
    let later : order_from label (logical_key c ∷ seen) (some c) cs ≡ ok tt = ground (arith, h) in
    let (ordered, (distinct, unseen)) =
      order_from-Ordered label (logical_key c ∷ seen) (some c) cs later in
    let (absent, others) = Unseen-tail (logical_key c) seen cs unseen in
    (
      (order_from-Ahead label (logical_key c ∷ seen) c cs later, ordered),
      ((absent, distinct), (ground (arith, h), others)),
    )

-- Coverage in the order of the trace, at one step, with every requested checkpoint either captured
-- or missing.
pub record IsCoverage (target : Option ℕ) (coverage : CheckpointCoverage) : Type 0 where
  pub step : ℕ
  pub at_target : target ≡ some step
  pub in_order : Ordered coverage.requested_coordinates
  pub captured_in_order : Ordered coverage.captured_coordinates
  pub distinct : Distinct coverage.captured_coordinates
  pub partition :
      is_partition
        (keys_of coverage.requested_coordinates)
        (keys_of coverage.captured_coordinates)
        (keys_of (missing_coordinates_of coverage.missing_coordinates))
      ≡ true
  pub one_step : in_layout step coverage.requested_coordinates ≡ true

validate-Ordered :
    (cs : List CheckpointCoordinate) (label : String)
    → validate_coordinate_order cs label ≡ ok tt
    → Ordered cs × Distinct cs
unfolding validate_coordinate_order
validate-Ordered cs label h =
    let (ordered, (distinct, unseen)) = order_from-Ordered label [] none cs h in (ordered, distinct)

check_coverage-IsCoverage :
    (target total : ℕ) (requested captured : List CheckpointCoordinate)
    (missing : List CoverageEntry) (coverage : CheckpointCoverage)
    → coverage.requested_coordinates ≡ requested
    → coverage.captured_coordinates ≡ captured
    → coverage.missing_coordinates ≡ missing
    → check_coverage target total requested captured missing ≡ ok tt
    → IsCoverage (some target) coverage
unfolding check_coverage
check_coverage-IsCoverage target total requested captured missing coverage r c m h =
    let asked : Ordered requested × Distinct requested =
      validate-Ordered requested "requested coverage" (ground (arith, h)) in
    let kept : Ordered captured × Distinct captured =
      validate-Ordered captured "captured coverage" (ground (arith, h)) in
    record {
      step = target;
      at_target = refl;
      in_order = subst Ordered (sym r) asked.0;
      captured_in_order = subst Ordered (sym c) kept.0;
      distinct = subst Distinct (sym c) kept.1;
      partition = ground (arith, h, r, c, m);
      one_step = ground (arith, h, r);
    }

read_coverage-IsCoverage :
    (target : ℕ) (layout : Fields) (coverage : CheckpointCoverage)
    → read_coverage target layout ≡ ok coverage
    → IsCoverage (some target) coverage
unfolding read_coverage
read_coverage-IsCoverage target layout coverage h =
    elim (Outcome-cases (positive_int (get_value "total_layer_count" layout) "total_layer_count")) [
      | inr (e, failed) ↦ absurd (ground (arith, h, failed))
      | inl (total, counted) ↦ elim (Outcome-cases (coverage_items layout)) [
        | inr (e, failed) ↦ absurd (ground (arith, h, failed, counted))
        | inl ((rs, (cs, ms)), found) ↦ elim (Outcome-cases (coordinates_from "requested" 0 rs)) [
          | inr (e, failed) ↦ absurd (ground (arith, h, failed, counted, found))
          | inl (requested, r) ↦ elim (Outcome-cases (coordinates_from "captured" 0 cs)) [
            | inr (e, failed) ↦ absurd (ground (arith, h, failed, counted, found, r))
            | inl (captured, c) ↦ elim (Outcome-cases (missing_from 0 ms)) [
              | inr (e, failed) ↦ absurd (ground (arith, h, failed, counted, found, r, c))
              | inl (missing, m) ↦
                  check_coverage-IsCoverage target total requested captured missing coverage
                    (ground (arith, h, counted, found, r, c, m))
                    (ground (arith, h, counted, found, r, c, m))
                    (ground (arith, h, counted, found, r, c, m))
                    (ground (arith, h, counted, found, r, c, m))
            ]
          ]
        ]
      ]
    ]

target_step-eq :
    (trace : CanonicalLayerTrace) (layout : Fields) (target : ℕ)
    → target_step trace layout ≡ ok target
    → trace.identity.runtime_checkpoint_step ≡ some target
unfolding target_step
target_step-eq trace layout target h =
    elim (Outcome-cases
      (nonnegative_int (get_value "runtime_checkpoint_step" layout) "layout target step")) [
        | inr (e, failed) ↦ absurd (ground (arith, h, failed))
        | inl (n, read) ↦ ground (arith, h, read)
      ]

declared-coverage :
    (host : Host) (trace : CanonicalLayerTrace) (raw layout : Fields) (target : ℕ)
    (coverage : CheckpointCoverage) (declared : Declared)
    → materialize host trace ≡ ok raw
    → layout_of (get_value "checkpoint_layout" raw) ≡ ok layout
    → target_step trace layout ≡ ok target
    → read_coverage target layout ≡ ok coverage
    → read_declared host trace ≡ ok declared
    → declared.0 ≡ coverage
unfolding read_declared
declared-coverage host trace raw layout target coverage declared seen found at read h =
    elim (Outcome-cases (semantics_of (get_value "manifest" raw))) [
      | inr (e, failed) ↦ absurd (ground (arith, h, failed, seen, found, at, read))
      | inl (semantics, meant) ↦ elim (Outcome-cases (entries_of (get_value "layer_trace" raw))) [
        | inr (e, failed) ↦ absurd (ground (arith, h, failed, seen, found, at, read, meant))
        | inl (entries, listed) ↦ ground (arith, h, seen, found, at, read, meant, listed)
      ]
    ]

pub read_declared-IsCoverage :
    (host : Host) (trace : CanonicalLayerTrace) (declared : Declared)
    → read_declared host trace ≡ ok declared
    → IsCoverage trace.identity.runtime_checkpoint_step declared.0
unfolding read_declared
read_declared-IsCoverage host trace declared h = elim (Outcome-cases (materialize host trace)) [
  | inr (e, failed) ↦ absurd (ground (arith, h, failed))
  | inl (raw, seen) ↦ elim (Outcome-cases (layout_of (get_value "checkpoint_layout" raw))) [
    | inr (e, failed) ↦ absurd (ground (arith, h, failed, seen))
    | inl (layout, found) ↦ elim (Outcome-cases (target_step trace layout)) [
      | inr (e, failed) ↦ absurd (ground (arith, h, failed, seen, found))
      | inl (target, at) ↦ elim (Outcome-cases (read_coverage target layout)) [
        | inr (e, failed) ↦ absurd (ground (arith, h, failed, seen, found, at))
        | inl (coverage, read) ↦
            let shape : declared.0 ≡ coverage =
              declared-coverage host trace raw layout target coverage declared seen found at read
                h in
            let step : trace.identity.runtime_checkpoint_step ≡ some target =
              target_step-eq trace layout target at in
            let covers = read_coverage-IsCoverage target layout coverage read in
            subst (λ t. IsCoverage t declared.0) (sym step)
              (subst (IsCoverage (some target)) (sym shape) covers)
      ]
    ]
  ]
]
