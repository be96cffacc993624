-- ===== src/Replay/Forced/Sound.antt =====
-- A forced-prefix report that is accepted is a rerun of its original to the target step.
use local_inference_system.Base.{
  ℕ, String, true, false, Option, some, List, [], ◌∷◌, ◌≡◌, ◌≢◌, Outcome-cases, refl, arith, ap,
  String_discrete, inl, inr, Option-cases, nat_eq, string_eq, option_eq, length, get_elem?, ok,
}
use local_inference_system.Base.Text.{concat}
use local_inference_system.Json.Number.{pos}
use local_inference_system.Json.Value.{Value, int, dict, get, value_equal}
use local_inference_system.Json.Lookup.{get_value}
use local_inference_system.Tokens.Model.{Pass1Result, PrefixForReproduction, TokenLocalization}
use local_inference_system.Tokens.Reports.{Host, CanonicalRunReport}
use local_inference_system.Product.ForcedPrefix.{
  selection_policy_sha256, validate_forced_prefix_metadata, ForcedPrefix,
}
use local_inference_system.Replay.Evidence.{
  RunEvidence, extract_run_evidence, selected_tokens, nonempty_text, reproduction_identity_matches,
}
use local_inference_system.Replay.Compare.Sound.{IsForced}
use local_inference_system.Replay.Forced.Metadata.{equal-IsForced}
use local_inference_system.Replay.Forced.{
  forced_fields, bounded_prefix, is_bounded, build_forced_prefix_metadata, well_formed,
  validate_rerun, validate_forced_prefix_reproduction, same_runtime, reuses_artifacts, only_token,
  target_reproduced, target_step, contains_prohibited_key,
}

target-found :
    (selected : Option (List ℕ)) (step : Option ℕ) (observed : Option (List ℕ)) (tokens : List ℕ)
    → only_token observed ≡ ok tokens
    → target_reproduced selected step tokens ≡ true
    → (ids : List ℕ) × (i : ℕ) × (token : ℕ) × (selected ≡ some ids)
      × (step ≡ some i)
      × (observed ≡ some (token ∷ []))
      × (get_elem? ids i ≡ some token)
unfolding only_token target_reproduced
target-found (some ids) (some i) (some (token ∷ [])) tokens only h =
    (ids, i, token, refl, refl, refl, ground (arith, only, h))
target-found selected step observed tokens only h = absurd (ground (arith, only, h))

bounded_prefix-count :
    (pass1 : Pass1Result) (prefix : PrefixForReproduction) (localization : TokenLocalization)
    → bounded_prefix pass1 ≡ ok (prefix, localization)
    → (prefix.token_count ≡ length prefix.exact_token_ids)
      × (target_step pass1.localization ≡ localization.generated_token_step)
unfolding bounded_prefix is_bounded target_step
bounded_prefix-count pass1 prefix localization h =
    elim (Option-cases pass1.prefix_for_reproduction) [
      | inl missing ↦ absurd (ground (arith, h, missing))
      | inr (p, kept) ↦ elim (Option-cases pass1.localization) [
        | inl missing ↦ absurd (ground (arith, h, missing, kept))
        | inr (l, located) ↦ (ground (arith, h, kept, located), ground (arith, h, kept, located))
      ]
    ]

well_formed-eq-ok :
    (host : Host) (raw : Value) (read : ForcedPrefix)
    → well_formed host raw ≡ ok read
    → validate_forced_prefix_metadata host raw ≡ ok read
unfolding well_formed
well_formed-eq-ok host raw read h = ground (arith, h)

module _ (host : Host) (pass1 : Pass1Result) (original reproduction : CanonicalRunReport)
    (role policy : String) where
  -- The rerun was forced to the prefix of Pass 1, in the same setting, and selected the
  -- original's token at the target step.
  pub record Reruns : Type 0 where
    pub prefix : PrefixForReproduction
    pub localization : TokenLocalization
    pub found : bounded_prefix pass1 ≡ ok (prefix, localization)
    pub forced :
        IsForced host prefix.exact_token_ids prefix.sha256
          (get_value "forced_prefix" reproduction.materialize)
    pub original_run : RunEvidence
    pub rerun : RunEvidence
    pub original_read :
        extract_run_evidence original (concat (role ∷ "_original" ∷ [])) ≡ ok original_run
    pub rerun_read :
        extract_run_evidence reproduction (concat (role ∷ "_reproduction" ∷ [])) ≡ ok rerun
    pub same_identity : reproduction_identity_matches reproduction original_run ≡ true
    pub same_binary : rerun.binary_fingerprint ≡ original_run.binary_fingerprint
    pub same_prompt : rerun.prompt_token_count ≡ original_run.prompt_token_count
    pub same_threads : rerun.thread_count ≡ original_run.thread_count
    pub fresh :
        (set : String)
        → nonempty_text (get_value "artifact_set_id" original_run.raw) ≡ some set
        → nonempty_text (get_value "artifact_set_id" rerun.raw) ≢ some set
    pub selected : List ℕ
    pub selected_read : selected_tokens host original_run ≡ ok (some selected)
    pub step : ℕ
    pub at_step : localization.generated_token_step ≡ some step
    pub token : ℕ
    pub in_original : get_elem? selected step ≡ some token
    pub in_rerun : selected_tokens host rerun ≡ ok (some (token ∷ []))
    pub clean :
        contains_prohibited_key
          ("full_forced_prefix_token_ids" ∷ "raw_prompt_text" ∷ "raw_generated_text" ∷ [])
          (dict reproduction.materialize)
        ≡ false

  built-fields :
      (expected : Value)
      → build_forced_prefix_metadata host pass1 original role policy ≡ ok expected
      → (prefix : PrefixForReproduction) × (localization : TokenLocalization) × (run : RunEvidence)
        × (digest : String) × (bounded_prefix pass1 ≡ ok (prefix, localization))
        × (expected
            ≡ dict (forced_fields host pass1 original run prefix localization policy digest))
  unfolding build_forced_prefix_metadata
  built-fields expected h = elim (Outcome-cases (bounded_prefix pass1)) [
    | inr (e, failed) ↦ absurd (ground (arith, h, failed))
    | inl ((prefix, localization), found) ↦
        elim (Outcome-cases (extract_run_evidence original (concat (role ∷ "_original" ∷ [])))) [
          | inr (e, failed) ↦ absurd (ground (arith, h, failed, found))
          | inl (run, read) ↦ elim (Outcome-cases (selection_policy_sha256 host policy)) [
            | inr (e, failed) ↦ absurd (ground (arith, h, failed, found, read))
            | inl (digest, made) ↦
                (prefix, localization, run, digest, found, ground (arith, h, found, read, made))
          ]
        ]
  ]

  built-IsForced :
      (expected : Value)
      → build_forced_prefix_metadata host pass1 original role policy ≡ ok expected
      → (read : ForcedPrefix)
      → validate_forced_prefix_metadata host (get_value "forced_prefix" reproduction.materialize)
        ≡ ok read
      → value_equal (get_value "forced_prefix" reproduction.materialize) expected ≡ true
      → (prefix : PrefixForReproduction) × (localization : TokenLocalization) × (bounded_prefix
            pass1
          ≡ ok (prefix, localization))
        × IsForced host prefix.exact_token_ids prefix.sha256
            (get_value "forced_prefix" reproduction.materialize)
  unfolding forced_fields get String_discrete
  built-IsForced expected built read valid equal =
      let (prefix, localization, run, digest, found, shape) = built-fields expected built in
      let fields = forced_fields host pass1 original run prefix localization policy digest in
      let counted = (bounded_prefix-count pass1 prefix localization found).0 in
      (
        prefix,
        localization,
        found,
        equal-IsForced host prefix.exact_token_ids prefix.sha256
            (get_value "forced_prefix" reproduction.materialize) read fields valid
            (rw shape at equal) (ap (λ n. some (int (pos n))) counted) refl,
      )

  validate_rerun-Reruns :
      (o r : RunEvidence) (prefix : PrefixForReproduction) (localization : TokenLocalization)
      → bounded_prefix pass1 ≡ ok (prefix, localization)
      → IsForced host prefix.exact_token_ids prefix.sha256
          (get_value "forced_prefix" reproduction.materialize)
      → extract_run_evidence original (concat (role ∷ "_original" ∷ [])) ≡ ok o
      → extract_run_evidence reproduction (concat (role ∷ "_reproduction" ∷ [])) ≡ ok r
      → validate_rerun host localization.generated_token_step reproduction o r ≡ ok tt
      → Reruns
  unfolding validate_rerun same_runtime reuses_artifacts
  validate_rerun-Reruns o r prefix localization found forced o_read r_read h =
      elim (Outcome-cases (selected_tokens host o)) [
        | inr (e, failed) ↦ absurd (ground (arith, h, failed))
        | inl (selected, in_o) ↦ elim (Outcome-cases (selected_tokens host r)) [
          | inr (e, failed) ↦ absurd (ground (arith, h, failed, in_o))
          | inl (observed, in_r) ↦ elim (Outcome-cases (only_token observed)) [
            | inr (e, failed) ↦ absurd (ground (arith, h, failed, in_o, in_r))
            | inl (tokens, only) ↦
                let hit : target_reproduced selected localization.generated_token_step tokens
                    ≡ true =
                  ground (arith, h, in_o, in_r, only) in
                let (ids, i, token, selected_is, step_is, observed_is, at) =
                  target-found selected localization.generated_token_step observed tokens only
                    hit in
                record {
                  prefix = prefix;
                  localization = localization;
                  found = found;
                  forced = forced;
                  original_run = o;
                  rerun = r;
                  original_read = o_read;
                  rerun_read = r_read;
                  same_identity = ground (arith, h);
                  same_binary = ground (arith, h);
                  same_prompt = ground (arith, h);
                  same_threads = ground (arith, h);
                  fresh = λ set had has. ground (arith, h, had, has);
                  selected = ids;
                  selected_read = ground (in_o, selected_is, arith);
                  step = i;
                  at_step = step_is;
                  token = token;
                  in_original = at;
                  in_rerun = ground (in_r, observed_is, arith);
                  clean = ground (arith, h, in_o, in_r, only);
                }
          ]
        ]
      ]

  runs-read :
      (expected : Value) (read : ForcedPrefix)
      → validate_forced_prefix_reproduction host pass1 original reproduction role policy ≡ ok tt
      → build_forced_prefix_metadata host pass1 original role policy ≡ ok expected
      → well_formed host (get_value "forced_prefix" reproduction.materialize) ≡ ok read
      → (o : RunEvidence) × (r : RunEvidence) × (extract_run_evidence original
            (concat (role ∷ "_original" ∷ []))
          ≡ ok o)
        × (extract_run_evidence reproduction (concat (role ∷ "_reproduction" ∷ [])) ≡ ok r)
        × (value_equal (get_value "forced_prefix" reproduction.materialize) expected ≡ true)
        × (validate_rerun host (target_step pass1.localization) reproduction o r ≡ ok tt)
  unfolding validate_forced_prefix_reproduction
  runs-read expected read h built well =
      elim (Outcome-cases (extract_run_evidence original (concat (role ∷ "_original" ∷ [])))) [
        | inr (e, failed) ↦ absurd (ground (arith, h, failed, built, well))
        | inl (o, o_read) ↦
            elim (Outcome-cases
              (extract_run_evidence reproduction (concat (role ∷ "_reproduction" ∷ [])))) [
                | inr (e, failed) ↦ absurd (ground (arith, h, failed, built, well, o_read))
                | inl (r, r_read) ↦ (
                  o,
                  r,
                  o_read,
                  r_read,
                  ground (arith, h, built, well),
                  ground (arith, h, built, well, o_read, r_read),
                )
              ]
      ]

  -- A forced-prefix report that is accepted was forced to the prefix of Pass 1, ran with the
  -- identities, binary, prompt and threads of its original, in another artifact set where both name
  -- one, kept one token, the original's at the target step, and carries no prohibited key.
  pub forced_reproduction-Reruns :
      validate_forced_prefix_reproduction host pass1 original reproduction role policy ≡ ok tt
      → Reruns
  unfolding validate_forced_prefix_reproduction target_step
  forced_reproduction-Reruns h =
      let raw = get_value "forced_prefix" reproduction.materialize in
      elim (Outcome-cases (build_forced_prefix_metadata host pass1 original role policy)) [
        | inr (e, failed) ↦ absurd (ground (arith, h, failed))
        | inl (expected, built) ↦ elim (Outcome-cases (well_formed host raw)) [
          | inr (e, failed) ↦ absurd (ground (arith, h, failed, built))
          | inl (read, well) ↦
              let (o, r, o_read, r_read, equal, valid) = runs-read expected read h built well in
              let (prefix, localization, found, forced) =
                built-IsForced expected built read (well_formed-eq-ok host raw read well) equal in
              let step = (bounded_prefix-count pass1 prefix localization found).1 in
              validate_rerun-Reruns o r prefix localization found forced o_read r_read
                (rw step at valid)
        ]
      ]
