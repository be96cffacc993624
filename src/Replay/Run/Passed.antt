-- ===== src/Replay/Run/Passed.antt =====
-- A run of Pass 2 that is not stopped has passed every gate.
use local_inference_system.Base.{
  ap, sym, ◌∙◌, Bool, true, false, not, ◌||◌, Option, none, some, List, ◌≡◌, arith, Outcome-cases,
  inl, inr, Outcome, ok, err, >>=-eq-ok, is_some, string_eq, ◌==◌,
}
use local_inference_system.Json.Value.{Value}
use local_inference_system.Tokens.Model.{Pass1Result, Pass2Disposition, first_mismatch_found}
use local_inference_system.Tokens.Reports.{Host, CanonicalRunReport}
use local_inference_system.Replay.Model.{
  Pass2SourceBinding, PrefixGateResult, PolicyGateResult, Pass2Result,
}
use local_inference_system.Replay.Evidence.{original_binding_matches, reproduction_identity_matches}
use local_inference_system.Replay.Results.{early_disposition, initial_binding, policy}
use local_inference_system.Replay.Prefix.{resolve_expected_prefix}
use local_inference_system.Replay.Compare.{compare_prefixes}
use local_inference_system.Replay.Originals.{
  Pair, or_stop, read_pair, originals_bound, read_originals, original_builds, expect, reproductions,
  read_reruns,
}
use local_inference_system.Replay.Run.{
  Material, runs, same_prompt, same_prefix, same_builds, builds_verified, step_is_mapped,
  same_checkpoint, same_context, reproduce, collect, gates, run_prefix_policy_reproduction,
}

or_stop-eq-ok :
    {E A : Type 0} (m : Outcome E A) (stop : E → Pass2Result) {a : A}
    → or_stop m stop ≡ ok a
    → m ≡ ok a
or_stop-eq-ok (ok a) stop h = ground arith
or_stop-eq-ok (err e) stop h = absurd (ground arith)

module _ (host : Host) (pass1 : Pass1Result) where
  -- What the gates 6 to 10 have let pass.
  pub record Passed (m : Material) (r : Pass2Result) : Type 0 where
    pub prefix : PrefixGateResult
    pub compared :
        compare_prefixes host m.expected.values m.expected.prefix.sha256 (runs host pass1 m)
        ≡ ok (prefix, none)
    pub prompt : (pass1.compatibility.prompt_identity_evidence == "divergent") ≡ false
    pub builds : builds_verified host pass1 m ≡ true
    pub mapped : step_is_mapped host pass1 m m.expected.localization m.expected.step ≡ true
    pub context :
        same_context host pass1 m prefix (policy host pass1 (runs host pass1 m) true) ≡ ok r

  same_prefix-compared :
      (m : Material) {prefix : PrefixGateResult}
      → same_prefix host pass1 m ≡ ok prefix
      → compare_prefixes host m.expected.values m.expected.prefix.sha256 (runs host pass1 m)
        ≡ ok (prefix, none)
  unfolding same_prefix
  same_prefix-compared m h = ground arith

  pub reproduce-Passed :
      (m : Material) {r : Pass2Result} → reproduce host pass1 m ≡ ok r → Passed m r
  unfolding reproduce same_prompt same_builds same_checkpoint
  reproduce-Passed m {r} h =
      let (_, prompt, h1) = >>=-eq-ok (same_prompt host pass1 m) _ h in
      let (prefix, compared, h2) = >>=-eq-ok (same_prefix host pass1 m) _ h1 in
      let (gate, builds, h3) = >>=-eq-ok (same_builds host pass1 m prefix) _ h2 in
      let (_, mapped, h4) = >>=-eq-ok (same_checkpoint host pass1 m prefix gate) _ h3 in
      record {
        prefix = prefix;
        compared = same_prefix-compared m compared;
        prompt = ground (arith, prompt);
        builds = ground (arith, builds);
        mapped = ground (arith, mapped);
        context = ground (arith, builds, h4);
      }

  -- There are no reruns, or a pair of them that is identified with the originals and was read.
  pub data Reruns (originals : Pair)
      : Option CanonicalRunReport → Option CanonicalRunReport → Option Pair → Type 0 where
    absent : {reruns : Option Pair} → reruns ≡ none → Reruns originals none none reruns
    paired :
        (reference candidate : CanonicalRunReport) {reruns : Option Pair} (pair : Pair)
        → reproduction_identity_matches reference originals.0 ≡ true
        → reproduction_identity_matches candidate originals.1 ≡ true
        → read_pair reference "reference_reproduction" candidate "candidate_reproduction" ≡ ok pair
        → reruns ≡ some pair
        → Reruns originals (some reference) (some candidate) reruns

  reproductions-Reruns :
      (originals : Pair) (gate : PolicyGateResult) (binding : Pass2SourceBinding)
      (reference candidate : Option CanonicalRunReport) {bound : Pass2SourceBinding}
      {reruns : Option Pair}
      → reproductions host pass1 originals gate binding reference candidate ≡ ok (bound, reruns)
      → Reruns originals reference candidate reruns
  unfolding reproductions read_reruns
  reproductions-Reruns originals gate binding none none h = absent (ground arith)
  reproductions-Reruns originals gate binding none (some candidate) h = absurd (ground arith)
  reproductions-Reruns originals gate binding (some reference) none h = absurd (ground arith)
  reproductions-Reruns originals gate binding (some reference) (some candidate) h =
      elim (Outcome-cases
        (read_pair reference "reference_reproduction" candidate "candidate_reproduction")) [
          | inl (pair, read) ↦
              paired reference candidate pair (ground (arith, h)) (ground (arith, h)) read
                (ground (arith, h, read))
          | inr (e, read) ↦ absurd (ground (arith, h, read))
        ]

  -- What the gates 0 to 5 have let pass.
  pub record Collected (reference candidate : CanonicalRunReport) (source : Option (List Value))
      (reference_rerun candidate_rerun : Option CanonicalRunReport) (m : Material) : Type 0 where
    pub ready : pass1.pass2_disposition ≡ Pass2Disposition.ready
    pub mismatch : pass1.status ≡ first_mismatch_found
    pub bound : original_binding_matches pass1 reference candidate ≡ (true, true)
    pub read :
        read_pair reference "reference_original" candidate "candidate_original" ≡ ok m.originals
    pub resolved : resolve_expected_prefix host pass1 source ≡ ok m.expected
    pub verified : m.binding.verified ≡ true
    pub reruns : Reruns m.originals reference_rerun candidate_rerun m.reruns

  early-ready :
      (binding : Pass2SourceBinding) {u : Unit}
      → early_disposition host pass1 binding ≡ ok u
      → (pass1.pass2_disposition ≡ Pass2Disposition.ready) × (pass1.status ≡ first_mismatch_found)
  unfolding early_disposition
  early-ready binding h = ground arith

  bound-verified :
      (initial : Pass2SourceBinding) (matches : Bool × Bool) (reruns : Bool)
      {binding : Pass2SourceBinding}
      → originals_bound host pass1 initial matches reruns ≡ ok binding
      → (matches ≡ (true, true))
        × (binding.reference_original_verified ≡ true)
        × (binding.candidate_original_verified ≡ true)
        × (binding.verified ≡ not reruns)
  unfolding originals_bound
  bound-verified initial matches reruns h = ground arith

  -- The binding is verified in the end, with reruns and without.
  reproductions-verified :
      (originals : Pair) (gate : PolicyGateResult) (binding : Pass2SourceBinding)
      (reference candidate : Option CanonicalRunReport) {bound : Pass2SourceBinding}
      {reruns : Option Pair}
      → binding.reference_original_verified ≡ true
      → binding.candidate_original_verified ≡ true
      → binding.verified ≡ not (is_some reference || is_some candidate)
      → reproductions host pass1 originals gate binding reference candidate ≡ ok (bound, reruns)
      → bound.verified ≡ true
  unfolding reproductions read_reruns
  reproductions-verified originals gate binding none none p q v h = ground arith
  reproductions-verified originals gate binding (some reference) (some candidate) p q v h =
      ground arith
  reproductions-verified originals gate binding none (some candidate) p q v h =
      absurd (ground arith)
  reproductions-verified originals gate binding (some reference) none p q v h =
      absurd (ground arith)

  pub collect-Collected :
      (reference candidate : CanonicalRunReport) (source : Option (List Value))
      (reference_rerun candidate_rerun : Option CanonicalRunReport) {m : Material}
      → collect host pass1 reference candidate source reference_rerun candidate_rerun ≡ ok m
      → Collected reference candidate source reference_rerun candidate_rerun m
  unfolding collect read_originals expect
  collect-Collected reference candidate source reference_rerun candidate_rerun {m} h =
      let initial =
        initial_binding host pass1 reference candidate reference_rerun candidate_rerun in
      let (_, early, h1) = >>=-eq-ok (early_disposition host pass1 initial) _ h in
      let matches = original_binding_matches pass1 reference candidate in
      let has = is_some reference_rerun || is_some candidate_rerun in
      let (binding, bound, h2) = >>=-eq-ok (originals_bound host pass1 initial matches has) _ h1 in
      let (originals, read, h3) =
        >>=-eq-ok (read_originals host pass1 reference candidate binding) _ h2 in
      let (gate, builds, h4) = >>=-eq-ok (original_builds host pass1 binding originals) _ h3 in
      let (expected, resolved, h5) =
        >>=-eq-ok (expect host pass1 source binding originals gate) _ h4 in
      let ((b, reruns), rerun, h6) =
        >>=-eq-ok (reproductions host pass1 originals gate binding reference_rerun candidate_rerun)
          _ h5 in
      let (matched, p, q, v) = bound-verified initial matches has bound in
      let (ready, mismatch) = early-ready initial early in
      let material : Material = record {
        binding = b;
        originals = originals;
        gate = gate;
        expected = expected;
        reruns = reruns;
      } in
      let e_material : material ≡ m = ground (arith, h6) in
      let e_originals : originals ≡ m.originals = ground (arith, h6) in
      let e_expected : expected ≡ m.expected = ground (arith, h6) in
      let e_reruns : reruns ≡ m.reruns = ground (arith, h6) in
      record {
        ready = ready;
        mismatch = mismatch;
        bound = matched;
        read = or_stop-eq-ok _ _ read ∙ ap ok e_originals;
        verified =
            ap (λ (x : Material). x.binding.verified) (sym e_material)
            ∙ reproductions-verified originals gate binding reference_rerun candidate_rerun p q v
                rerun;
        resolved = or_stop-eq-ok _ _ resolved ∙ ap ok e_expected;
        reruns =
            rw (sym e_originals, sym e_reruns)
              (reproductions-Reruns originals gate binding reference_rerun candidate_rerun rerun);
      }

-- The run gives the result of the gates, whether they stop it or not.
pub run-eq-ok :
    (host : Host) (pass1 : Pass1Result) (reference candidate : CanonicalRunReport)
    (source : Option (List Value)) (reference_rerun candidate_rerun : Option CanonicalRunReport)
    {r : Pass2Result}
    → gates host pass1 reference candidate source reference_rerun candidate_rerun ≡ ok r
    → run_prefix_policy_reproduction host pass1 reference candidate source reference_rerun
        candidate_rerun
      ≡ r
unfolding run_prefix_policy_reproduction
run-eq-ok host pass1 reference candidate source reference_rerun candidate_rerun e =
    ground (arith, e)

pub run-eq-err :
    (host : Host) (pass1 : Pass1Result) (reference candidate : CanonicalRunReport)
    (source : Option (List Value)) (reference_rerun candidate_rerun : Option CanonicalRunReport)
    {r : Pass2Result}
    → gates host pass1 reference candidate source reference_rerun candidate_rerun ≡ err r
    → run_prefix_policy_reproduction host pass1 reference candidate source reference_rerun
        candidate_rerun
      ≡ r
unfolding run_prefix_policy_reproduction
run-eq-err host pass1 reference candidate source reference_rerun candidate_rerun e =
    ground (arith, e)
