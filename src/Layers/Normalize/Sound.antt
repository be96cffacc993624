-- ===== src/Layers/Normalize/Sound.antt =====
-- What a normalized trace is: ordered coverage, and a summary with a digest for each captured
-- checkpoint.
use mathlib.Core.Path.{subst, sym}
use local_inference_system.Base.{
  ℕ, suc, String, Option, none, some, List, [], ◌∷◌, ◌≡◌, arith, nat_eq, string_eq, option_eq,
  list_eq, All, inl, inr, Outcome-cases, ok,
}
use local_inference_system.Base.Text.{concat}
use local_inference_system.Json.Value.{Value, dict, Items, nil, cons, Fields}
use local_inference_system.Json.Lookup.{get_value}
use local_inference_system.Tokens.Reports.{Host}
use local_inference_system.Layers.Model.{
  CheckpointCoordinate, checkpoint_coordinate_eq, logical_key_eq, CheckpointDigest,
  CheckpointSummary, CheckpointSummaryArtifact,
}
use local_inference_system.Layers.Inputs.{
  coordinate, shape, prod, digest, envelope, nonnegative_int, CanonicalLayerTrace,
}
use local_inference_system.Layers.Summaries.{
  summary_of, entry_summary, summaries_from, with_entry, indexed, check_aggregates,
}
use local_inference_system.Layers.Normalize.Declared.{IsCoverage, read_declared-IsCoverage}
use local_inference_system.Layers.Normalize.{
  coordinates_of, check_summaries, read_declared, normalize_layer_trace,
}

-- A summary with a digest of the tensor that it counts.
pub record IsSummary (s : CheckpointSummary) : Type 0 where
  pub kept : CheckpointDigest
  pub has_digest : s.digest ≡ some kept
  pub same_shape : kept.shape ≡ s.shape
  pub same_role : kept.tensor_role ≡ s.coordinate.tensor_role
  pub counted : s.element_count ≡ some (prod s.shape)

digest-eq :
    (value : Value) (dims : List ℕ) (role : String) (d : CheckpointDigest)
    → digest value dims role ≡ ok d
    → (d.shape ≡ dims) × (d.tensor_role ≡ role)
unfolding digest
digest-eq (dict raw) dims role d h = elim (Outcome-cases (shape (get_value "shape" raw) "digest")) [
  | inr (e, failed) ↦ absurd (ground (arith, h, failed))
  | inl (dims', read) ↦ elim (Outcome-cases (envelope raw)) [
    | inr (e, failed) ↦ absurd (ground (arith, h, failed, read))
    | inl ((fields, value), found) ↦
        (ground (arith, h, read, found), ground (arith, h, read, found))
  ]
]
digest-eq value dims role d h = absurd (ground (arith, h))

-- The rest of the reading, at what its first steps have read.
summary_of-IsSummary_at :
    (precision_path label : String) (entry : Fields) (c : CheckpointCoordinate) (dims : List ℕ)
    (count : ℕ) (s : CheckpointSummary)
    → coordinate (dict entry) label ≡ ok c
    → shape (get_value "shape" entry) label ≡ ok dims
    → nonnegative_int (get_value "element_count" entry) (concat (label ∷ ".element_count" ∷ []))
      ≡ ok count
    → summary_of precision_path label entry ≡ ok s
    → IsSummary s
unfolding summary_of
summary_of-IsSummary_at precision_path label entry c dims count s at shaped counted h =
    let product : count ≡ prod dims = ground (arith, h, at, shaped, counted) in
    elim (Outcome-cases (check_aggregates entry label)) [
      | inr (e, failed) ↦ absurd (ground (arith, h, at, shaped, counted, failed))
      | inl (u, checked) ↦
          elim (Outcome-cases (digest (get_value "digest" entry) dims c.tensor_role)) [
            | inr (e, failed) ↦ absurd (ground (arith, h, at, shaped, counted, checked, failed))
            | inl (d, read) ↦
                let (same, role) = digest-eq _ dims c.tensor_role d read in
                record {
                  kept = d;
                  has_digest = ground (arith, h, at, shaped, counted, checked, read);
                  same_shape = ground (arith, h, at, shaped, counted, checked, read, same);
                  same_role = ground (arith, h, at, shaped, counted, checked, read, role);
                  counted = ground (arith, h, at, shaped, counted, checked, read, product);
                }
          ]
    ]

summary_of-IsSummary :
    (precision_path label : String) (entry : Fields) (s : CheckpointSummary)
    → summary_of precision_path label entry ≡ ok s
    → IsSummary s
unfolding summary_of
summary_of-IsSummary precision_path label entry s h =
    elim (Outcome-cases (coordinate (dict entry) label)) [
      | inr (e, failed) ↦ absurd (ground (arith, h, failed))
      | inl (c, at) ↦ elim (Outcome-cases (shape (get_value "shape" entry) label)) [
        | inr (e, failed) ↦ absurd (ground (arith, h, failed, at))
        | inl (dims, shaped) ↦
            elim (Outcome-cases (
              nonnegative_int (get_value "element_count" entry)
                (concat (label ∷ ".element_count" ∷ [])))) [
                  | inr (e, failed) ↦ absurd (ground (arith, h, failed, at, shaped))
                  | inl (count, counted) ↦
                      summary_of-IsSummary_at precision_path label entry c dims count s at shaped
                        counted h
                ]
      ]
    ]

entry_summary-All :
    (precision_path label : String) (entry : Value) (first : Option CheckpointSummary)
    (later : List CheckpointSummary)
    → entry_summary precision_path label entry ≡ ok first
    → All IsSummary later
    → All IsSummary (with_entry first later)
unfolding entry_summary with_entry
entry_summary-All precision_path label (dict entry) none later h rest = rest
entry_summary-All precision_path label (dict entry) (some s) later h rest =
    elim (Outcome-cases (summary_of precision_path label entry)) [
      | inr (e, failed) ↦ absurd (ground (arith, h, failed))
      | inl (s', read) ↦
          (summary_of-IsSummary precision_path label entry s (ground (arith, h, read)), rest)
    ]
entry_summary-All precision_path label value first later h rest = absurd (ground (arith, h))

summaries_from-All :
    (precision_path : String) (index : ℕ) (entries : Items) (summaries : List CheckpointSummary)
    → summaries_from precision_path index entries ≡ ok summaries
    → All IsSummary summaries
unfolding summaries_from
summaries_from-All precision_path index nil summaries h =
    let none_left : summaries ≡ [] = ground (arith, h) in subst (All IsSummary) (sym none_left) tt
summaries_from-All precision_path index (cons entry rest) summaries h =
    elim (Outcome-cases (entry_summary precision_path (indexed "layer_trace" index) entry)) [
      | inr (e, failed) ↦ absurd (ground (arith, h, failed))
      | inl (first, read) ↦ elim (Outcome-cases (summaries_from precision_path (suc index) rest)) [
        | inr (e, failed) ↦ absurd (ground (arith, h, failed, read))
        | inl (later, next) ↦
            let done = summaries_from-All precision_path (suc index) rest later next in
            let all_hold = entry_summary-All precision_path _ entry first later read done in
            let shape : summaries ≡ with_entry first later = ground (arith, h, read, next) in
            subst (All IsSummary) (sym shape) all_hold
      ]
    ]

-- A trace that is normalized.
pub record IsNormalized (target : Option ℕ) (artifact : CheckpointSummaryArtifact) : Type 0 where
  pub coverage : IsCoverage target artifact.coverage
  pub summaries : coordinates_of artifact.summaries ≡ artifact.coverage.captured_coordinates
  pub all_summaries : All IsSummary artifact.summaries

-- A trace that is normalized has its declared coverage in strict order at the step of its identity,
-- every requested checkpoint captured or missing and not both, and for each captured one, in order,
-- a summary whose count is the product of its shape, with a digest of the same shape and role.
pub normalize-IsNormalized :
    (host : Host) (trace : CanonicalLayerTrace) (artifact : CheckpointSummaryArtifact)
    → normalize_layer_trace host trace ≡ ok artifact
    → IsNormalized trace.identity.runtime_checkpoint_step artifact
unfolding normalize_layer_trace check_summaries
normalize-IsNormalized host trace artifact h = elim (Outcome-cases (read_declared host trace)) [
  | inr (e, failed) ↦ absurd (ground (arith, h, failed))
  | inl ((coverage, ((family, path), entries)), declared) ↦
      elim (Outcome-cases (summaries_from path 0 entries)) [
        | inr (e, failed) ↦ absurd (ground (arith, h, failed, declared))
        | inl (summaries, read) ↦
            let covers : artifact.coverage ≡ coverage = ground (arith, h, declared, read) in
            let keeps : artifact.summaries ≡ summaries = ground (arith, h, declared, read) in
            let same : coordinates_of summaries ≡ coverage.captured_coordinates =
              ground (arith, h, declared, read) in
            record {
              coverage =
                  subst (IsCoverage trace.identity.runtime_checkpoint_step) (sym covers)
                    (read_declared-IsCoverage host trace _ declared);
              summaries = ground (same, covers, keeps, arith);
              all_summaries =
                  subst (All IsSummary) (sym keeps)
                    (summaries_from-All path 0 entries summaries read);
            }
      ]
]
