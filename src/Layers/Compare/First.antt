-- ===== src/Layers/Compare/First.antt =====
-- The loop stops at the first common checkpoint whose digests differ.
use local_inference_system.Base.{
  ℕ, zero, suc, ◌+◌, ◌-◌, ◌≤◌, ◌<◌, true, false, Option, none, some, List, [], ◌∷◌, ◌++◌, ◌≡◌, ◌↔◌,
  arith, ap, nat_eq, contains, Outcome-cases, ok, inl, inr,
}
use local_inference_system.Layers.Model.{
  CheckpointCoordinate, LogicalKey, CheckpointSummary, SummaryComparisonResult,
}
use local_inference_system.Layers.Compare.{
  compared, verdict_at, compare_from, range_from, range, interval,
}

-- The last coordinate of the list, or the given one before it.
unfoldable pub last_of :
    Option CheckpointCoordinate → List CheckpointCoordinate → Option CheckpointCoordinate
last_of last [] = last
last_of last (c ∷ cs) = last_of (some c) cs

module _ (ref cand : List (LogicalKey × CheckpointSummary)) where
  -- The digests of every coordinate of the list are there and equal.
  abbrev pub AllEqual : List CheckpointCoordinate → Type 0
  AllEqual [] = Unit
  AllEqual (c ∷ cs) = (verdict_at ref cand c ≡ ok (some true)) × AllEqual cs

  -- The list has equal digests up to this coordinate, and different ones at it.
  pub record FirstDifference (cs : List CheckpointCoordinate) (last : Option CheckpointCoordinate)
      (found : Option CheckpointCoordinate) (mismatch : CheckpointCoordinate) : Type 0 where
    pub before : List CheckpointCoordinate
    pub after : List CheckpointCoordinate
    pub split : cs ≡ (before ++ (mismatch ∷ after))
    pub equal : AllEqual before
    pub differ : verdict_at ref cand mismatch ≡ ok (some false)
    pub previous : found ≡ last_of last before

  pub compare_from-mismatch :
      (done : List SummaryComparisonResult) (last : Option CheckpointCoordinate)
      (cs : List CheckpointCoordinate) {out : List SummaryComparisonResult}
      {found : Option CheckpointCoordinate} {mismatch : CheckpointCoordinate}
      → compare_from ref cand done last cs ≡ ok (compared out found (some mismatch))
      → FirstDifference cs last found mismatch
  unfolding compare_from last_of
  compare_from-mismatch done last [] h = absurd (ground arith)
  compare_from-mismatch done last (c ∷ cs) {found} {mismatch} h =
      elim (Outcome-cases (verdict_at ref cand c)) [
        | inl (none, e) ↦ absurd (ground (arith, e))
        | inl (some true, e) ↦
            let rest = compare_from-mismatch _ (some c) cs (rw (e, compare_from) at h) in
            record {
              before = c ∷ rest.before;
              after = rest.after;
              split = ap (λ xs. c ∷ xs) rest.split;
              equal = (e, rest.equal);
              differ = rest.differ;
              previous = rest.previous;
            }
        | inl (some false, e) ↦
            let (same, kept) : (c ≡ mismatch) × (found ≡ last) = ground (arith, e) in
            record {
              before = [];
              after = cs;
              split = ap (λ x. x ∷ cs) same;
              equal = tt;
              differ = rw same at e;
              previous = kept;
            }
        | inr (x, e) ↦ absurd (ground (arith, e))
      ]

  pub compare_from-equal :
      (done : List SummaryComparisonResult) (last : Option CheckpointCoordinate)
      (cs : List CheckpointCoordinate) {out : List SummaryComparisonResult}
      {found : Option CheckpointCoordinate}
      → compare_from ref cand done last cs ≡ ok (compared out found none)
      → AllEqual cs × (found ≡ last_of last cs)
  unfolding compare_from last_of
  compare_from-equal done last [] h = (tt, ground arith)
  compare_from-equal done last (c ∷ cs) h = elim (Outcome-cases (verdict_at ref cand c)) [
    | inl (none, e) ↦ absurd (ground (arith, e))
    | inl (some true, e) ↦
        let (equal, previous) = compare_from-equal _ (some c) cs (rw (e, compare_from) at h) in
        ((e, equal), previous)
    | inl (some false, e) ↦ absurd (ground (arith, e))
    | inr (x, e) ↦ absurd (ground (arith, e))
  ]

contains-range_from :
    (count start l : ℕ)
    → contains l (range_from start count) ≡ true ↔ ((start ≤ l) × (l < start + count))
unfolding range_from
contains-range_from zero start l = ground arith
contains-range_from (suc count) start l = ground (arith, contains-range_from count (suc start) l)

-- The layer is behind the checkpoint, if there is one.
abbrev pub IsBehind : Option CheckpointCoordinate → ℕ → Type 0
IsBehind none l = Unit
IsBehind (some c) l = c.layer_index < l

-- The unobserved layers of the interval that ends at a mismatch are those before it and, where an
-- equal checkpoint was observed, behind that one.
pub interval-unobserved :
    (last : Option CheckpointCoordinate) (mismatch : CheckpointCoordinate) (l : ℕ)
    → contains l (interval last mismatch).unobserved_layer_indices ≡ true
      ↔ ((l < mismatch.layer_index) × IsBehind last l)
unfolding interval range
interval-unobserved none mismatch l =
    let (to, from) = contains-range_from (mismatch.layer_index - 0) 0 l in
    (λ h. let (a, b) = to h in (omega arith, tt), λ (a, b). from (omega arith, omega arith))
interval-unobserved (some c) mismatch l =
    let start = c.layer_index + 1 in
    let (to, from) = contains-range_from (mismatch.layer_index - start) start l in
    (
      λ h. let (a, b) = to h in (omega arith, omega arith),
      λ (a, b). from (omega arith, omega arith),
    )
