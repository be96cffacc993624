-- ===== src/Replay/Run/Complete.antt =====
-- A run of Pass 2 without reruns that meets the conditions of every gate is verified.
use local_inference_system.Base.{
  suc, Bool, true, false, not, ◌||◌, Option, none, some, List, ◌≡◌, refl, arith, any, string_eq,
  nat_eq, option_eq, ◌==◌, ◌!=◌, ok, err, Outcome-cases, inl, inr, Bool-cases,
}
use local_inference_system.Json.Value.{Value}
use local_inference_system.Tokens.Model.{Pass1Result, Pass2Disposition, first_mismatch_found}
use local_inference_system.Tokens.Reports.{Host, CanonicalRunReport}
use local_inference_system.Replay.Model.{
  Pass2Status, Pass2Result, Pass2SourceBinding, PrefixGateResult, PolicyGateResult,
}
use local_inference_system.Replay.Evidence.{original_binding_matches}
use local_inference_system.Replay.Results.{early_disposition, initial_binding, policy}
use local_inference_system.Replay.Prefix.{ExpectedPrefix, resolve_expected_prefix}
use local_inference_system.Replay.Compare.{compare_prefixes, context_gate}
use local_inference_system.Replay.Originals.{
  Gate, Pair, read_pair, runs_of, originals_bound, read_originals, needs_common_binary,
  original_builds, expect, reproductions,
}
use local_inference_system.Replay.Run.{
  Material, runs, same_prompt, same_prefix, builds_verified, same_builds, step_is_mapped,
  same_checkpoint, same_context, reproduce, collect, gates, run_prefix_policy_reproduction,
}
use local_inference_system.Replay.Run.Passed.{run-eq-ok}

module _ (host : Host) (pass1 : Pass1Result) (reference candidate : CanonicalRunReport)
    (source : Option (List Value)) where
  -- The conditions of the gates, where there are no reruns.
  pub record MeetsGates : Type 0 where
    pub ready : pass1.pass2_disposition ≡ Pass2Disposition.ready
    pub mismatch : pass1.status ≡ first_mismatch_found
    pub bound : original_binding_matches pass1 reference candidate ≡ (true, true)
    pub originals : Pair
    pub read :
        read_pair reference "reference_original" candidate "candidate_original" ≡ ok originals
    pub builds :
        (not (needs_common_binary host pass1)
          || originals.0.binary_fingerprint == originals.1.binary_fingerprint)
        ≡ true
    pub expected : ExpectedPrefix
    pub resolved : resolve_expected_prefix host pass1 source ≡ ok expected
    pub prompt : (pass1.compatibility.prompt_identity_evidence == "divergent") ≡ false
    pub prefix : PrefixGateResult
    pub compared :
        compare_prefixes host expected.values expected.prefix.sha256 (runs_of originals none)
        ≡ ok (prefix, none)
    pub checkpoint : expected.localization.runtime_checkpoint_step ≡ some (suc expected.step)
    pub matched : expected.localization.matched_generated_prefix_length ≡ expected.step
    pub context : (context_gate (runs_of originals none) expected.step).status ≡ "verified"

  module _ (c : MeetsGates) where
    abbrev initial : Pass2SourceBinding
    initial = initial_binding host pass1 reference candidate none none

    -- A gate that raises nothing returns.
    ok-of_no_err :
        {A : Type 0} (m : Gate A) → ((e : Pass2Result) → m ≡ err e → ⊥) → (a : A) × (m ≡ ok a)
    ok-of_no_err m none_raised = elim (Outcome-cases m) [
      | inl returned ↦ returned
      | inr (e, raised) ↦ absurd (none_raised e raised)
    ]

    abbrev matches : Bool × Bool
    matches = original_binding_matches pass1 reference candidate

    bound-ok : (b : Pass2SourceBinding) × (originals_bound host pass1 initial matches false ≡ ok b)
    unfolding originals_bound
    bound-ok = ok-of_no_err _ (λ e h. ground (arith, h, c.bound))

    read-ok :
        (b : Pass2SourceBinding) → read_originals host pass1 reference candidate b ≡ ok c.originals
    unfolding read_originals
    read-ok b = rw c.read

    builds-ok :
        (b : Pass2SourceBinding)
        → (gate : PolicyGateResult) × (original_builds host pass1 b c.originals ≡ ok gate)
    unfolding original_builds
    builds-ok b = ok-of_no_err _ (λ e h. ground (arith, h, c.builds))

    expect-ok :
        (b : Pass2SourceBinding) (gate : PolicyGateResult)
        → expect host pass1 source b c.originals gate ≡ ok c.expected
    unfolding expect
    expect-ok b gate = rw c.resolved

    early-ok : early_disposition host pass1 initial ≡ ok tt
    unfolding early_disposition
    early-ok = ground (arith, c.ready, c.mismatch)

    collect-ok :
        (m : Material) × (collect host pass1 reference candidate source none none ≡ ok m)
        × (m.originals ≡ c.originals)
        × (m.expected ≡ c.expected)
        × (m.reruns ≡ none)
    unfolding collect reproductions
    collect-ok =
        let (b, bound) = bound-ok in
        let (gate, built) = builds-ok b in
        (
          record {
            binding = b;
            originals = c.originals;
            gate = gate;
            expected = c.expected;
            reruns = none;
          },
          rw (early-ok, bound, read-ok b, built, expect-ok b gate),
          refl,
          refl,
          refl,
        )

    module _ (m : Material) (reruns : m.reruns ≡ none) (o : m.originals ≡ c.originals)
        (x : m.expected ≡ c.expected) where
      prompt-ok : same_prompt host pass1 m ≡ ok tt
      unfolding same_prompt
      prompt-ok = ground (arith, c.prompt)

      prefix-ok : same_prefix host pass1 m ≡ ok c.prefix
      unfolding same_prefix
      prefix-ok = ground (arith, c.compared)

      all_same-ok :
          (originals : Pair)
          → (not (needs_common_binary host pass1)
              || originals.0.binary_fingerprint == originals.1.binary_fingerprint)
            ≡ true
          → needs_common_binary host pass1 ≡ true
          → any
              (λ run. run.binary_fingerprint != originals.0.binary_fingerprint)
              (runs_of originals none)
            ≡ false
      all_same-ok (r, t) h common = ground arith

      builds_verified-ok : builds_verified host pass1 m ≡ true
      unfolding builds_verified
      builds_verified-ok =
          rw (o, reruns)
            (elim (Bool-cases (needs_common_binary host pass1)) [
              | inl common ↦ rw common (ground (arith, all_same-ok c.originals c.builds common))
              | inr own ↦ rw own refl
            ])

      same_builds-ok :
          same_builds host pass1 m c.prefix ≡ ok (policy host pass1 (runs host pass1 m) true)
      unfolding same_builds
      same_builds-ok = rw builds_verified-ok

      checkpoint-ok : (gate : PolicyGateResult) → same_checkpoint host pass1 m c.prefix gate ≡ ok tt
      unfolding same_checkpoint step_is_mapped
      checkpoint-ok gate = ground (arith, x, c.checkpoint, c.matched)

      context-ok :
          (gate : PolicyGateResult)
          → (r : Pass2Result) × (same_context host pass1 m c.prefix gate ≡ ok r)
            × (r.status ≡ Pass2Status.reproduction_verified)
      unfolding same_context
      context-ok gate = elim (Outcome-cases (same_context host pass1 m c.prefix gate)) [
        | inl (r, e) ↦ (r, e, ground (arith, e))
        | inr (r, e) ↦ absurd (ground (arith, e, c.context, o, x, reruns))
      ]

      reproduce-ok :
          (r : Pass2Result) × (reproduce host pass1 m ≡ ok r)
          × (r.status ≡ Pass2Status.reproduction_verified)
      unfolding reproduce
      reproduce-ok =
          let gate = policy host pass1 (runs host pass1 m) true in
          let (r, e, status) = context-ok gate in
          (r, rw (prompt-ok, prefix-ok, same_builds-ok, checkpoint-ok gate) e, status)

    -- The conditions of all gates suffice: the reproduction is verified.
    pub MeetsGates-verified :
        (run_prefix_policy_reproduction host pass1 reference candidate source none none).status
        ≡ Pass2Status.reproduction_verified
    unfolding gates
    MeetsGates-verified =
        let (m, collected, o, x, reruns) = collect-ok in
        let (r, e, status) = reproduce-ok m reruns o x in
        let passed : gates host pass1 reference candidate source none none ≡ ok r =
          rw collected e in
        rw (run-eq-ok host pass1 reference candidate source none none passed) status
