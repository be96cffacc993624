-- ===== src/Layers/Normalize/Total.antt =====
-- Two normalized traces always lead to a result of Pass 3: no summary and no digest is missing.
use mathlib.Core.Path.{subst}
use local_inference_system.Base.{
  unique, string_eq, ◌∙◌, ℕ, String, Bool, true, false, is_some, ◌||◌, Option, none, some, List, [],
  ◌∷◌, ◌++◌, map, ◌≡◌, refl, sym, arith, ◌⊎◌, inl, inr, ◌==◌, contains, contains_head, keep, All,
  is_nonempty, Bool-cases, Outcome-cases, Option-cases, ok, if◌then◌else◌,
}
use local_inference_system.Layers.Model.{
  CheckpointCoordinate, LogicalKey, logical_key, logical_key_eq, CheckpointSummary,
  SummaryComparisonResult, CheckpointSummaryArtifact, Pass3Status, Pass3ReasonCode, Pass3Result,
}
use local_inference_system.Layers.Coverage.{
  put, find, map_onto, summary_map, is_captured, coverage_of, summary_pair, pairs_fault,
  alignment_failure,
}
use local_inference_system.Layers.Compare.{compared, compare_from, verdict_at, digests_equal}
use local_inference_system.Layers.Localize.{localize, conclude, insufficient, blocked_result}
use local_inference_system.Tokens.Reports.{Host}
use local_inference_system.Layers.Inputs.{CanonicalLayerTrace}
use local_inference_system.Layers.Layout.{keys_of}
use local_inference_system.Layers.Normalize.{coordinates_of, normalize_layer_trace}
use local_inference_system.Layers.Normalize.Sound.{IsSummary, IsNormalized, normalize-IsNormalized}

abbrev Table : Type 0
Table = List (LogicalKey × CheckpointSummary)

-- A summary that is there, with its digest.
digest_there : Option CheckpointSummary → Bool
digest_there none = false
digest_there (some s) = is_some s.digest

find-put :
    (key k : LogicalKey) (s : CheckpointSummary) (table : Table)
    → find key (put k s table) ≡ (if k == key then some s else find key table)
unfolding find put
find-put key k s [] = refl
find-put key k s ((k', a) ∷ table) = ground (arith, find-put key k s table)

find-map_onto :
    (key : LogicalKey) (ss : List CheckpointSummary) (table : Table)
    → All IsSummary ss
    → (contains key (keys_of (coordinates_of ss)) || digest_there (find key table)) ≡ true
    → digest_there (find key (map_onto (λ s. logical_key s.coordinate) ss table)) ≡ true
unfolding map_onto keys_of coordinates_of digest_there
find-map_onto key [] table all h = h
find-map_onto key (s ∷ ss) table (first, rest) h =
    let k = logical_key s.coordinate in
    let put_there = find-put key k s table in
    find-map_onto key ss (put k s table) rest (ground (arith, h, put_there, first.has_digest))

-- Both summaries of the checkpoint are there, with their digests.
abbrev Pair : Table → Table → CheckpointCoordinate → Type 0
Pair ref cand c =
    (digest_there (find (logical_key c) ref) ≡ true)
    × (digest_there (find (logical_key c) cand) ≡ true)

pairs_fault-ok :
    (ref cand : Table) (cs : List CheckpointCoordinate)
    → All (Pair ref cand) cs
    → (fault : Option String) × (pairs_fault ref cand cs ≡ ok fault)
unfolding pairs_fault summary_pair digest_there
pairs_fault-ok ref cand [] all = (none, refl)
pairs_fault-ok ref cand (c ∷ cs) ((left, right), rest) =
    let (later, passes) = pairs_fault-ok ref cand cs rest in
    elim (Outcome-cases (pairs_fault ref cand (c ∷ cs))) [
      | inl found ↦ found
      | inr (e, failed) ↦ absurd (ground (arith, failed, left, right, passes))
    ]

verdict_at-ok :
    (ref cand : Table) (c : CheckpointCoordinate)
    → Pair ref cand c
    → (same : Bool) × (verdict_at ref cand c ≡ ok (some same))
unfolding verdict_at summary_pair digests_equal digest_there
verdict_at-ok ref cand c (left, right) = elim (Outcome-cases (verdict_at ref cand c)) [
  | inl (some same, found) ↦ (same, found)
  | inl (none, found) ↦ absurd (ground (arith, found, left, right))
  | inr (e, failed) ↦ absurd (ground (arith, failed, left, right))
]

compare_from-ok :
    (ref cand : Table) (done : List SummaryComparisonResult) (last : Option CheckpointCoordinate)
    (cs : List CheckpointCoordinate)
    → All (Pair ref cand) cs
    → (all : List SummaryComparisonResult) × (previous : Option CheckpointCoordinate)
      × (mismatch : Option CheckpointCoordinate) × (compare_from ref cand done last cs
          ≡ ok (compared all previous mismatch))
unfolding compare_from
compare_from-ok ref cand done last [] all = (done, last, none, refl)
compare_from-ok ref cand done last (c ∷ cs) (pair, rest) =
    let (later, previous, mismatch, goes) =
      compare_from-ok ref cand (done ++ (record { coordinate = c; equivalent = true } ∷ []))
        (some c) cs rest in
    let (same, found) = verdict_at-ok ref cand c pair in
    elim (Bool-cases same) [
      | inl equal ↦ (later, previous, mismatch, ground (arith, found, equal, goes))
      | inr differs ↦ (
        done ++ (record { coordinate = c; equivalent = false } ∷ []),
        last,
        some c,
        ground (arith, found, differs),
      )
    ]

-- Each of the checkpoints is among those of the trace.
abbrev Among : List CheckpointCoordinate → List CheckpointCoordinate → Type 0
Among ds = All (λ c. contains (logical_key c) (keys_of ds) ≡ true)

Among-weaken :
    (d : CheckpointCoordinate) (ds cs : List CheckpointCoordinate) → Among ds cs → Among (d ∷ ds) cs
unfolding keys_of
Among-weaken d ds [] h = tt
Among-weaken d ds (c ∷ cs) (first, rest) = (ground (arith, first), Among-weaken d ds cs rest)

Among-itself : (cs : List CheckpointCoordinate) → Among cs cs
unfolding keys_of
Among-itself [] = tt
Among-itself (c ∷ cs) =
    (contains_head (logical_key c) (keys_of cs), Among-weaken c cs cs (Among-itself cs))

contains-keys :
    (k : LogicalKey) (cs : List CheckpointCoordinate)
    → contains k (map logical_key cs) ≡ contains k (keys_of cs)
unfolding keys_of
contains-keys k [] = refl
contains-keys k (c ∷ cs) = ground (arith, contains-keys k cs)

All-keep :
    (P : CheckpointCoordinate → Type 0) (p : CheckpointCoordinate → Bool)
    (cs : List CheckpointCoordinate)
    → All (λ c. p c ≡ true → P c) cs
    → All P (keep p cs)
All-keep P p [] h = tt
All-keep P p (c ∷ cs) (first, rest) = elim (Bool-cases (p c)) [
  | inl taken ↦
      let kept : keep p (c ∷ cs) ≡ (c ∷ keep p cs) = ground (arith, taken) in
      subst (All P) (sym kept) (first taken, All-keep P p cs rest)
  | inr left ↦
      let dropped : keep p (c ∷ cs) ≡ keep p cs = ground (arith, left) in
      subst (All P) (sym dropped) (All-keep P p cs rest)
]

module _ (a b : CheckpointSummaryArtifact) {s t : Option ℕ} (na : IsNormalized s a)
    (nb : IsNormalized t b) where
  -- A captured key has its summary.
  table-digest :
      (artifact : CheckpointSummaryArtifact) {u : Option ℕ} (n : IsNormalized u artifact)
      (k : LogicalKey)
      → contains k (keys_of artifact.coverage.captured_coordinates) ≡ true
      → digest_there (find k (summary_map artifact)) ≡ true
  unfolding summary_map
  table-digest artifact n k h =
      let same = n.summaries in
      find-map_onto k artifact.summaries [] n.all_summaries (ground (arith, h, same))

  pairs-All :
      (cs : List CheckpointCoordinate)
      → Among a.coverage.captured_coordinates cs
      → All
          (λ c.
            is_captured b.coverage.captured_coordinates c ≡ true
            → Pair (summary_map a) (summary_map b) c)
          cs
  unfolding is_captured
  pairs-All [] h = tt
  pairs-All (c ∷ cs) (first, rest) = (
    λ both. (
      table-digest a na (logical_key c) first,
      table-digest b nb (logical_key c)
          (sym (contains-keys (logical_key c) b.coverage.captured_coordinates) ∙ both),
    ),
    pairs-All cs rest,
  )

  common-All : All (Pair (summary_map a) (summary_map b)) (coverage_of a b).common_captured
  unfolding coverage_of
  common-All =
      let captured = a.coverage.captured_coordinates in
      All-keep (Pair (summary_map a) (summary_map b)) (is_captured b.coverage.captured_coordinates)
        captured (pairs-All captured (Among-itself captured))

  alignment-ok : (fault : Option String) × (alignment_failure a b (coverage_of a b) ≡ ok fault)
  unfolding alignment_failure
  alignment-ok =
      let (fault, found) =
        pairs_fault-ok (summary_map a) (summary_map b) (coverage_of a b).common_captured
          common-All in
      elim (Outcome-cases (alignment_failure a b (coverage_of a b))) [
        | inl aligned ↦ aligned
        | inr (e, failed) ↦ absurd (ground (arith, failed, found))
      ]

-- The status is one that Pass 3 gives behind its gates.
abbrev pub IsLocalized : Pass3Status → Type 0
IsLocalized status =
    (status ≡ Pass3Status.observable_mismatch_found)
    ⊎ ((status ≡ Pass3Status.no_mismatch_in_captured_coverage)
        ⊎ ((status ≡ Pass3Status.insufficient_common_coverage)
            ⊎ (status ≡ Pass3Status.checkpoint_alignment_inconsistent)))

conclude-IsLocalized :
    (coverage : _) (warnings : List String) (all : List SummaryComparisonResult)
    (previous mismatch : Option CheckpointCoordinate)
    → IsLocalized (conclude coverage warnings (compared all previous mismatch)).status
unfolding conclude
conclude-IsLocalized coverage warnings all previous none = inr (inl refl)
conclude-IsLocalized coverage warnings all previous (some c) = inl refl

-- Two traces that are normalized always lead to a result: no lookup of a summary fails, no digest is
-- missing, and the status is a mismatch, none, too little common coverage, or traces that are not
-- aligned.
pub normalized-IsLocalized :
    (host : Host) (reference candidate : CanonicalLayerTrace) (warnings : List String)
    (a b : CheckpointSummaryArtifact)
    → normalize_layer_trace host reference ≡ ok a
    → normalize_layer_trace host candidate ≡ ok b
    → (r : Pass3Result) × (localize a b warnings ≡ ok r) × IsLocalized r.status
unfolding localize insufficient coverage_of
normalized-IsLocalized host reference candidate warnings a b left right =
    let na = normalize-IsNormalized host reference a left in
    let nb = normalize-IsNormalized host candidate b right in
    let coverage = coverage_of a b in
    let (fault, aligned) = alignment-ok a b na nb in
    let (all, previous, mismatch, compares) =
      compare_from-ok (summary_map a) (summary_map b) [] none coverage.common_captured
        (common-All a b na nb) in
    elim (Bool-cases (is_nonempty coverage.common_captured)) [
      | inr nothing ↦
          (insufficient coverage warnings, ground (arith, nothing), inr (inr (inl refl)))
      | inl covered ↦ elim (Option-cases fault) [
        | inr (text, faulty) ↦ (
          blocked_result coverage Pass3Status.checkpoint_alignment_inconsistent
              (Pass3ReasonCode.checkpoint_alignment_inconsistent ∷ [])
              (unique (warnings ++ (text ∷ []))),
          ground (arith, covered, aligned, faulty),
          inr (inr (inr refl)),
        )
        | inl clear ↦ (
          conclude coverage warnings (compared all previous mismatch),
          ground (arith, covered, aligned, clear, compares),
          conclude-IsLocalized coverage warnings all previous mismatch,
        )
      ]
    ]
