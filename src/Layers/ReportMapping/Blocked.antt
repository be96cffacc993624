-- ===== src/Layers/ReportMapping/Blocked.antt =====
-- The report has a reason for each result of Pass 3 that blocks what follows, and for no other.
use local_inference_system.Base.{
  String, Bool, true, sym, ◌&&◌, none, some, List, [], ◌∷◌, ◌++◌, ◌≡◌, ◌↔◌, refl, arith, is_some,
  is_nonempty, unique, string_eq, Outcome-cases, ok, inl, inr, Bool-cases,
}
use local_inference_system.Layers.Model.{
  CheckpointSummaryArtifact, CoverageAnalysis, Pass3Status, Pass3ReasonCode, Pass3Result, blocked,
}
use local_inference_system.Layers.Coverage.{coverage_of, alignment_failure, summary_map}
use local_inference_system.Layers.Compare.{Comparison, unavailable, compared, compare_from}
use local_inference_system.Layers.Localize.{
  reason_if, conclude, insufficient, blocked_result, localize,
}
use local_inference_system.Layers.ReportMapping.{map_pass3_reason, map_pass3_status}

abbrev pub all_mapped : List Pass3ReasonCode → Bool
all_mapped [] = true
all_mapped (c ∷ cs) = is_some (map_pass3_reason c) && all_mapped cs

pub record Explained (r : Pass3Result) : Type 0 where
  pub status : r.downstream_disposition ≡ blocked ↔ is_some (map_pass3_status r.status) ≡ true
  pub reasons : r.downstream_disposition ≡ blocked → all_mapped r.reason_codes ≡ true
  pub some_reason : is_nonempty r.reason_codes ≡ true

conclude-Explained :
    (coverage : CoverageAnalysis) (warnings : List String) (found : Comparison)
    → Explained (conclude coverage warnings found)
unfolding conclude blocked_result map_pass3_status map_pass3_reason
conclude-Explained coverage warnings (unavailable out) = record {
  status = ground arith;
  reasons = λ b. refl;
  some_reason = refl;
}
conclude-Explained coverage warnings (compared out last (some mismatch)) = record {
  status = ground arith;
  reasons = λ b. absurd (ground arith);
  some_reason = refl;
}
conclude-Explained coverage warnings (compared out last none) = record {
  status = ground arith;
  reasons = λ b. absurd (ground arith);
  some_reason = refl;
}

-- The codes for insufficient coverage are mapped, whichever of them are given.
all_mapped-insufficient :
    (no_reference no_candidate asymmetric : Bool)
    → all_mapped (
        Pass3ReasonCode.insufficient_common_coverage
          ∷ reason_if no_reference Pass3ReasonCode.reference_checkpoint_missing
        ++ reason_if no_candidate Pass3ReasonCode.candidate_checkpoint_missing
        ++ reason_if asymmetric Pass3ReasonCode.asymmetric_coverage)
      ≡ true
unfolding map_pass3_reason
all_mapped-insufficient no_reference no_candidate asymmetric = ground arith

pub blocked-Explained :
    (coverage : CoverageAnalysis) (status : Pass3Status) (code : Pass3ReasonCode)
    (codes : List Pass3ReasonCode) (warnings : List String)
    → is_some (map_pass3_status status) ≡ true
    → all_mapped (code ∷ codes) ≡ true
    → Explained (blocked_result coverage status (code ∷ codes) warnings)
unfolding blocked_result
blocked-Explained coverage status code codes warnings h k = record {
  status = (λ b. h, λ b. refl);
  reasons = λ b. k;
  some_reason = refl;
}

insufficient-Explained :
    (coverage : CoverageAnalysis) (warnings : List String)
    → Explained (insufficient coverage warnings)
unfolding insufficient map_pass3_status
insufficient-Explained coverage warnings =
    blocked-Explained coverage _ _ _ warnings refl (all_mapped-insufficient _ _ _)

-- A result behind the gates is explained.
pub localize-Explained :
    (reference candidate : CheckpointSummaryArtifact) (warnings : List String) {r : Pass3Result}
    → localize reference candidate warnings ≡ ok r
    → Explained r
unfolding localize
localize-Explained reference candidate warnings {r} h =
    let coverage = coverage_of reference candidate in
    elim (Bool-cases (is_nonempty coverage.common_captured)) [
      | inl covered ↦ elim (Outcome-cases (alignment_failure reference candidate coverage)) [
        | inl (none, aligned) ↦
            elim (Outcome-cases (
              compare_from (summary_map reference) (summary_map candidate) [] none
                coverage.common_comparable)) [
                  | inl (found, loop) ↦
                      let e : conclude coverage warnings found ≡ r =
                        ground (arith, covered, aligned, loop) in
                      rw (sym e) (conclude-Explained coverage warnings found)
                  | inr (x, loop) ↦ absurd (ground (arith, covered, aligned, loop))
                ]
        | inl (some fault, aligned) ↦
            let e : blocked_result coverage Pass3Status.checkpoint_alignment_inconsistent
                  (Pass3ReasonCode.checkpoint_alignment_inconsistent ∷ [])
                  (unique (warnings ++ (fault ∷ [])))
                ≡ r =
              ground (arith, covered, aligned) in
            rw (sym e) (
              blocked-Explained coverage _ _ _ _ (unfold map_pass3_status in refl)
                (unfold map_pass3_reason in refl))
        | inr (x, aligned) ↦ absurd (ground (arith, covered, aligned))
      ]
      | inr empty ↦
          let e : insufficient coverage warnings ≡ r = ground (arith, empty) in
          rw (sym e) (insufficient-Explained coverage warnings)
    ]
