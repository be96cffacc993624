-- ===== src/Replay/Run/Sound.antt =====
-- What a verified reproduction says of Pass 1 and of the runs.
use local_inference_system.Base.{
  ℕ, suc, String, true, false, Option, none, some, List, [], ◌∷◌, ◌≡◌, ◌⊎◌, ◌≢◌, refl, arith, All,
  length, any, nat_eq, string_eq, option_eq, ◌!=◌, ok, Outcome-cases, Option-cases, inl, inr,
  >>=-eq-ok, ◌∙◌,
}
use local_inference_system.Json.Value.{Value}
use local_inference_system.Calibration.Model.{backend_differential}
use local_inference_system.Tokens.Model.{Pass1Result, PrefixForReproduction}
use local_inference_system.Tokens.Reports.{Host, CanonicalRunReport, token_ids_sha256}
use local_inference_system.Replay.Model.{
  Pass2Status, Pass2Result, PrefixGateResult, PolicyGateResult,
}
use local_inference_system.Replay.Evidence.{RunEvidence}
use local_inference_system.Replay.Prefix.{
  ExpectedPrefix, resolve_expected_prefix, checked_prefix, prefix_values,
}
use local_inference_system.Replay.Compare.{context_gate}
use local_inference_system.Replay.Compare.Sound.{HasPrefix, compare_prefixes-All, context_gate-All}
use local_inference_system.Replay.Originals.{Pair, runs_of}
use local_inference_system.Replay.Run.{
  Material, runs, builds_verified, reruns_keep_binary, step_is_mapped, same_context, gates, collect,
  run_prefix_policy_reproduction,
}
use local_inference_system.Replay.Run.Passed.{
  Collected, reproduce-Passed, collect-Collected, run-eq-ok, run-eq-err,
}
use local_inference_system.Replay.Run.Coherent.{Stops, gates-Stops, is_verified}

-- The expected tokens are those of Pass 1's prefix, by their count and their digest.
pub record IsExpected (host : Host) (pass1 : Pass1Result) (e : ExpectedPrefix) : Type 0 where
  pub localization : pass1.localization ≡ some e.localization
  pub step : e.localization.generated_token_step ≡ some e.step
  pub prefix : pass1.prefix_for_reproduction ≡ some e.prefix
  pub matched : e.localization.matched_generated_prefix_length ≡ e.step
  pub count : length e.values ≡ e.step
  pub digest : token_ids_sha256 host e.values ≡ e.prefix.sha256

checked_prefix-ok :
    (host : Host) (pass1 : Pass1Result) (prefix : PrefixForReproduction)
    (source : Option (List Value)) (found : Option (List ℕ)) {values : List ℕ}
    → checked_prefix host prefix source found ≡ ok values
    → (length values ≡ prefix.token_count) × (token_ids_sha256 host values ≡ prefix.sha256)
unfolding checked_prefix
checked_prefix-ok host pass1 prefix source none h = absurd (ground arith)
checked_prefix-ok host pass1 prefix source (some values) h = ground arith

pub resolve-IsExpected :
    (host : Host) (pass1 : Pass1Result) (source : Option (List Value)) {e : ExpectedPrefix}
    → resolve_expected_prefix host pass1 source ≡ ok e
    → IsExpected host pass1 e
unfolding resolve_expected_prefix
resolve-IsExpected host pass1 source {e} h = elim (Option-cases pass1.localization) [
  | inl p ↦ absurd (ground (arith, p))
  | inr (l, p) ↦ elim (Option-cases l.generated_token_step) [
    | inl q ↦ absurd (ground (arith, p, q))
    | inr (step, q) ↦ elim (Option-cases pass1.prefix_for_reproduction) [
      | inl r ↦ absurd (ground (arith, p, q, r))
      | inr (prefix, r) ↦
          elim (Outcome-cases
            (checked_prefix host prefix source (prefix_values pass1 prefix source))) [
              | inl (values, c) ↦
                  let checked = checked_prefix-ok host pass1 prefix source _ c in
                  ground (arith, p, q, r, c, checked)
              | inr (fault, c) ↦ absurd (ground (arith, p, q, r, c))
            ]
    ]
  ]
]

-- The runs have batches of one, and their prompts the length of the reference's.
pub record SameContext (originals : Pair) (all : List RunEvidence) : Type 0 where
  pub prompts : All (λ run. run.prompt_token_count ≡ originals.0.prompt_token_count) all
  pub batches : All (λ run. run.batch_size ≡ 1) all

runs-SameContext :
    (originals : Pair) (reruns : Option Pair) (step : ℕ)
    → (context_gate (runs_of originals reruns) step).status ≡ "verified"
    → SameContext originals (runs_of originals reruns)
runs-SameContext (r, c) none step h =
    let (prompts, batches) = context_gate-All r (c ∷ []) step h in
    record { prompts = (refl, prompts); batches = batches }
runs-SameContext (r, c) (some (r', c')) step h =
    let (prompts, batches) = context_gate-All r (c ∷ r' ∷ c' ∷ []) step h in
    record { prompts = (refl, prompts); batches = batches }

same_binary-All :
    (binary : String) (all : List RunEvidence)
    → any (λ run. run.binary_fingerprint != binary) all ≡ false
    → All (λ run. run.binary_fingerprint ≡ binary) all
same_binary-All binary [] h = tt
same_binary-All binary (run ∷ all) h = (ground arith, same_binary-All binary all (ground arith))

-- Each rerun was made by the binary of its role.
abbrev pub OwnBinary : Pair → Option Pair → Type 0
OwnBinary originals none = Unit
OwnBinary originals (some reruns) =
    (reruns.0.binary_fingerprint ≡ originals.0.binary_fingerprint)
    × (reruns.1.binary_fingerprint ≡ originals.1.binary_fingerprint)

module _ (host : Host) (pass1 : Pass1Result) (m : Material) where
  builds-common :
      builds_verified host pass1 m ≡ true
      → pass1.comparison_mode ≡ backend_differential
      → All (λ run. run.binary_fingerprint ≡ m.originals.0.binary_fingerprint) (runs host pass1 m)
  unfolding builds_verified
  builds-common h mode =
      same_binary-All m.originals.0.binary_fingerprint (runs host pass1 m) (ground (arith, h, mode))

  keep-OwnBinary :
      (originals : Pair) (reruns : Option Pair)
      → reruns_keep_binary host pass1 m originals reruns ≡ true
      → OwnBinary originals reruns
  unfolding reruns_keep_binary
  keep-OwnBinary originals none h = tt
  keep-OwnBinary originals (some reruns) h = ground arith

  builds-own :
      builds_verified host pass1 m ≡ true
      → pass1.comparison_mode ≢ backend_differential
      → OwnBinary m.originals m.reruns
  unfolding builds_verified
  builds-own h mode = keep-OwnBinary m.originals m.reruns (ground (arith, h, mode))

  context-verified :
      (prefix : PrefixGateResult) (gate : PolicyGateResult) {r : Pass2Result}
      → same_context host pass1 m prefix gate ≡ ok r
      → ((context_gate (runs host pass1 m) m.expected.step).status ≡ "verified")
        × (r.source_binding_verified ≡ m.binding.verified)
  unfolding same_context
  context-verified prefix gate h = ground arith

module _ (host : Host) (pass1 : Pass1Result) (reference candidate : CanonicalRunReport)
    (source : Option (List Value))
    (reference_rerun candidate_rerun : Option CanonicalRunReport) where
  -- What a verified reproduction rests on.
  pub record Reproduced : Type 0 where
    pub m : Material
    pub collected :
        Collected host pass1 reference candidate source reference_rerun candidate_rerun m
    pub expected : IsExpected host pass1 m.expected
    pub prefixes :
        (m.expected.values ≡ [])
        ⊎ All (HasPrefix host m.expected.values m.expected.prefix.sha256) (runs host pass1 m)
    pub mapped : m.expected.localization.runtime_checkpoint_step ≡ some (suc m.expected.step)
    pub context : SameContext m.originals (runs host pass1 m)
    pub common :
        pass1.comparison_mode ≡ backend_differential
        → All (λ run. run.binary_fingerprint ≡ m.originals.0.binary_fingerprint) (runs host pass1 m)
    pub own : pass1.comparison_mode ≢ backend_differential → OwnBinary m.originals m.reruns

  gates-Reproduced :
      {r : Pass2Result}
      → gates host pass1 reference candidate source reference_rerun candidate_rerun ≡ ok r
      → Reproduced × (r.source_binding_verified ≡ true)
  unfolding gates step_is_mapped
  gates-Reproduced h =
      let (m, got, rest) =
        >>=-eq-ok (collect host pass1 reference candidate source reference_rerun candidate_rerun) _
          h in
      let c =
        collect-Collected host pass1 reference candidate source reference_rerun candidate_rerun
          got in
      let p = reproduce-Passed host pass1 m rest in
      let (verified, bound) = context-verified host pass1 m p.prefix _ p.context in
      (
        record {
          m = m;
          collected = c;
          expected = resolve-IsExpected host pass1 source c.resolved;
          prefixes =
              compare_prefixes-All host m.expected.values m.expected.prefix.sha256 _ p.compared;
          mapped = ground (arith, p.mapped);
          context = runs-SameContext m.originals m.reruns m.expected.step verified;
          common = builds-common host pass1 m p.builds;
          own = builds-own host pass1 m p.builds;
        },
        bound ∙ c.verified,
      )

  -- A reproduction is verified only where Pass 1 found a mismatch and is ready, both originals are
  -- the bound reports and were read, and so were the reruns, if any, which have the originals'
  -- identities: the expected prefix has the step, the count and the digest of Pass 1, every run has
  -- it if it is not empty, the checkpoint is that of the step, the runs have batches of one and
  -- prompts of one length, and their binaries are the same in a backend comparison and kept by the
  -- reruns in any other. The source binding is verified.
  pub run-verified_sound :
      (run_prefix_policy_reproduction host pass1 reference candidate source reference_rerun
          candidate_rerun).status
        ≡ Pass2Status.reproduction_verified
      → Reproduced
        × ((run_prefix_policy_reproduction host pass1 reference candidate source reference_rerun
              candidate_rerun).source_binding_verified
            ≡ true)
  unfolding is_verified
  run-verified_sound h =
      elim (Outcome-cases
        (gates host pass1 reference candidate source reference_rerun candidate_rerun)) [
          | inl (r, e) ↦
              let (reproduced, bound) = gates-Reproduced e in
              (
                reproduced,
                rw
                    (run-eq-ok host pass1 reference candidate source reference_rerun candidate_rerun
                      e)
                    bound,
              )
          | inr (r, e) ↦
              let stops : Stops r = rw e at (
                gates-Stops host pass1 reference candidate source reference_rerun
                  candidate_rerun) in
              let same =
                run-eq-err host pass1 reference candidate source reference_rerun candidate_rerun
                  e in
              absurd (ground (arith, h, same, stops))
        ]
