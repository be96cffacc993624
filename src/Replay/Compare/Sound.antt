-- ===== src/Replay/Compare/Sound.antt =====
-- Where Pass 2 raises no objection, every run has the expected prefix and the same context.
use local_inference_system.Base.{
  ℕ, ◌+◌, ◌≤◌, String, Bool, true, false, ◌&&◌, Option, none, some, List, [], ◌∷◌, ◌++◌, map, ◌≡◌,
  ◌⊎◌, inl, inr, refl, arith, ap, All, if◌then◌else◌, String_discrete, length, take, nat_eq,
  string_eq, option_eq, ◌==◌, ok, Outcome-cases, List-cases, >>=-eq-ok,
}
use local_inference_system.Json.Value.{Value, null}
use local_inference_system.Json.Lookup.{get_value}
use local_inference_system.Tokens.Reports.{Host}
use local_inference_system.Product.ForcedPrefix.{ForcedPrefix, validate_forced_prefix_metadata}
use local_inference_system.Replay.Model.{PrefixGateResult}
use local_inference_system.Replay.Evidence.{RunEvidence, selected_tokens}
use local_inference_system.Replay.Compare.{
  first_diff, forced_objection, values_objection, run_objection, compare_runs, compare_prefixes,
  context_evidence, positions_are, same_position, single_batches, first_sequences, context_gate,
}

first_diff-none :
    (expected values : List ℕ)
    → length expected ≤ length values
    → first_diff expected values ≡ none
    → take (length expected) values ≡ expected
unfolding first_diff
first_diff-none [] values h e = refl
first_diff-none (x ∷ xs) [] h e = absurd (omega arith)
first_diff-none (x ∷ xs) (v ∷ vs) h e = ground (arith, first_diff-none xs vs)

module _ (host : Host) (expected : List ℕ) (sha256 : String) where
  -- The run was forced to a prefix of this length and digest.
  pub record IsForced (raw : Value) : Type 0 where
    pub forced : ForcedPrefix
    pub valid : validate_forced_prefix_metadata host raw ≡ ok forced
    pub count : forced.token_count ≡ length expected
    pub digest : forced.token_ids_sha256 ≡ some sha256

  -- The tokens that the run selected begin with the prefix.
  pub record Selects (run : RunEvidence) (raw : Value) : Type 0 where
    pub unforced : raw ≡ null
    pub values : List ℕ
    pub read : selected_tokens host run ≡ ok (some values)
    pub prefix : take (length expected) values ≡ expected

  abbrev pub HasPrefix : RunEvidence → Type 0
  HasPrefix run =
      Selects run (get_value "forced_prefix" run.raw) ⊎ IsForced (get_value "forced_prefix" run.raw)

  values-Selects :
      (verified : List String) (run : RunEvidence) (values : Option (List ℕ))
      → selected_tokens host run ≡ ok values
      → values_objection host expected sha256 verified run values ≡ none
      → Selects run null
  unfolding values_objection
  values-Selects verified run none read h = absurd (ground arith)
  values-Selects verified run (some values) read h = record {
    unforced = refl;
    values = values;
    read = read;
    prefix = ground (arith, first_diff-none expected values, h);
  }

  forced_objection-IsForced :
      (verified : List String) (run : RunEvidence) (raw : Value) (forced : ForcedPrefix)
      → validate_forced_prefix_metadata host raw ≡ ok forced
      → forced_objection host expected sha256 verified run forced ≡ none
      → IsForced raw
  unfolding forced_objection
  forced_objection-IsForced verified run raw forced valid h = record {
    forced = forced;
    valid = valid;
    count = ground arith;
    digest = ground arith;
  }

  objection-HasPrefix :
      (verified : List String) (run : RunEvidence) (raw : Value)
      → run_objection host expected sha256 verified run raw ≡ ok none
      → Selects run raw ⊎ IsForced raw
  unfolding run_objection
  objection-HasPrefix verified run null h =
      let (values, read, e) = >>=-eq-ok (selected_tokens host run) _ h in
      inl (values-Selects verified run values read (ground arith))
  objection-HasPrefix verified run raw h =
      elim (Outcome-cases (validate_forced_prefix_metadata host raw)) [
        | inl (forced, valid) ↦
            inr (forced_objection-IsForced verified run raw forced valid (ground (arith, h, valid)))
        | inr (e, invalid) ↦ absurd (ground (arith, h, invalid))
      ]

  compare_runs-All :
      (verified : List String) (runs : List RunEvidence) {gate : PrefixGateResult}
      → compare_runs host expected sha256 verified runs ≡ ok (gate, none)
      → All HasPrefix runs
  unfolding compare_runs
  compare_runs-All verified [] h = tt
  compare_runs-All verified (run ∷ runs) {gate} h =
      elim (Outcome-cases
        (run_objection host expected sha256 verified run (get_value "forced_prefix" run.raw))) [
          | inl (none, e) ↦ (
            objection-HasPrefix verified run _ e,
            compare_runs-All (verified ++ (run.role ∷ [])) runs {gate = gate}
                (rw (e, compare_runs) at h),
          )
          | inl (some (failed, reason), e) ↦ absurd (ground (arith, h, e))
          | inr (error, e) ↦ absurd (ground (arith, h, e))
        ]

  -- Where nothing is objected to a prefix that is not empty, every run has it.
  pub compare_prefixes-All :
      (runs : List RunEvidence) {gate : PrefixGateResult}
      → compare_prefixes host expected sha256 runs ≡ ok (gate, none)
      → (expected ≡ []) ⊎ All HasPrefix runs
  unfolding compare_prefixes
  compare_prefixes-All runs {gate} h = elim (List-cases expected) [
    | inl e ↦ inl e
    | inr (n, ns, e) ↦ inr (compare_runs-All [] runs {gate = gate} (ground (arith, h, e)))
  ]

positions_are-All :
    (step count : ℕ) (runs : List RunEvidence)
    → positions_are (count + step) (map (context_evidence step) runs) ≡ true
    → All (λ other. other.prompt_token_count ≡ count) runs
unfolding positions_are context_evidence
positions_are-All step count [] h = tt
positions_are-All step count (other ∷ runs) h =
    (ground arith, positions_are-All step count runs (ground arith))

single_batches-All :
    (step : ℕ) (runs : List RunEvidence)
    → single_batches (map (context_evidence step) runs) ≡ true
    → All (λ run. run.batch_size ≡ 1) runs
unfolding single_batches context_evidence
single_batches-All step [] h = tt
single_batches-All step (run ∷ runs) h = (ground arith, single_batches-All step runs (ground arith))

status-verified :
    (b : Bool) → ◌≡◌ {A = String} (if b then "verified" else "failed") "verified" → b ≡ true
unfolding String_discrete
status-verified true h = refl
status-verified false h = ap (λ s. s == "verified") h

-- Runs of a verified context have batches of one, and prompts of the length of the first.
pub context_gate-All :
    (run : RunEvidence) (runs : List RunEvidence) (step : ℕ)
    → (context_gate (run ∷ runs) step).status ≡ "verified"
    → All (λ other. other.prompt_token_count ≡ run.prompt_token_count) runs
      × All (λ other. other.batch_size ≡ 1) (run ∷ runs)
unfolding context_gate context_evidence
context_gate-All run runs step h =
    let evidence = map (context_evidence step) (run ∷ runs) in
    let all_hold : (same_position evidence && single_batches evidence && first_sequences evidence)
        ≡ true =
      status-verified _ h in
    let positions : same_position evidence ≡ true = ground (arith, all_hold) in
    let batches : single_batches evidence ≡ true = ground (arith, all_hold) in
    (
      positions_are-All step run.prompt_token_count runs (unfold same_position in positions),
      single_batches-All step (run ∷ runs) batches,
    )
