-- ===== src/Replay/Forced/Builds.antt =====
-- The forced-prefix metadata of a Pass 1 mismatch: they are built, and read back.
use local_inference_system.Base.{
  suc, ◌≤◌, List-cases, inl, inr, Option-cases, ◌+◌, String, true, some, [], ◌∷◌, ◌≡◌, arith,
  nat_eq, string_eq, option_eq, ◌==◌, contains, length, String_discrete, Option-discrete, ok, leb,
}
use local_inference_system.Base.Text.{concat}
use local_inference_system.Json.Render.{canonical_json}
use local_inference_system.Tokens.Artifact.{serialize}
use local_inference_system.Json.Value.{Value, dict, get}
use local_inference_system.Tokens.Model.{
  run_report_identity_eq, Pass1Result, first_mismatch_found, PrefixForReproduction,
  TokenLocalization,
}
use local_inference_system.Tokens.Reports.{Host, CanonicalRunReport, sha256_text}
use local_inference_system.Product.Contract.{is_sha256, require_sha256}
use local_inference_system.Product.ForcedPrefix.{
  selection_policy_sha256, selection_policy_profile, validate_forced_prefix_metadata, ForcedPrefix,
  forced_steps, forced_policy, require_digests, require_exact_keys, require_int, keys_within,
  has_keys, forced_prefix_digests,
}
use local_inference_system.Replay.Evidence.{RunEvidence, extract_run_evidence}
use local_inference_system.Replay.Results.{localization_reference}
use local_inference_system.Replay.Forced.{
  forced_fields, is_bounded, bounded_prefix, expected_identity, build_forced_prefix_metadata,
  is_first_mismatch,
}

-- The hash library writes 64 lower-case hexadecimal digits.
abbrev pub WritesDigests : Host → Type 0
WritesDigests host = (text : String) → is_sha256 (sha256_text host text) ≡ true

-- What the reader of the metadata returns.
abbrev pub read_back : RunEvidence → PrefixForReproduction → ForcedPrefix
read_back run prefix = record {
  token_count = prefix.token_count;
  token_ids_sha256 = some prefix.sha256;
  target_generated_token_step = prefix.token_count;
  runtime_checkpoint_step = prefix.token_count + 1;
  prompt_token_count = run.prompt_token_count;
  context_position = run.prompt_token_count + prefix.token_count;
}

module _ (host : Host) (pass1 : Pass1Result) (original : CanonicalRunReport) (role policy : String)
    (run : RunEvidence) (prefix : PrefixForReproduction) (localization : TokenLocalization) where
  -- A mismatch after a non-empty bounded prefix, and a report and identities that can be read.
  pub record Forcible : Type 0 where
    pub role_known : contains role ("reference" ∷ "candidate" ∷ []) ≡ true
    pub mismatch : pass1.status ≡ first_mismatch_found
    pub has_prefix : pass1.prefix_for_reproduction ≡ some prefix
    pub has_localization : pass1.localization ≡ some localization
    pub bounded : is_bounded prefix ≡ true
    pub step : localization.generated_token_step ≡ some prefix.token_count
    pub checkpoint : localization.runtime_checkpoint_step ≡ some (prefix.token_count + 1)
    pub bound : (original.identity == expected_identity pass1 role) ≡ true
    pub read : extract_run_evidence original (concat (role ∷ "_original" ∷ [])) ≡ ok run
    pub prefix_digest : is_sha256 prefix.sha256 ≡ true
    pub pass0_digest : is_sha256 pass1.calibration_ref.sha256 ≡ true
    pub report_digest : is_sha256 original.identity.run_report_sha256 ≡ true

  bounded_lem :
      is_bounded prefix ≡ true
      → (leb prefix.token_count 64 ≡ true)
        × ((suc 0 ≤ prefix.token_count) × (prefix.token_count ≡ length prefix.exact_token_ids))
  unfolding is_bounded
  bounded_lem h = elim (List-cases prefix.exact_token_ids) [
    | inl e ↦ absurd (ground (arith, h, e))
    | inr (x, xs, e) ↦ (ground (arith, h), (ground (arith, h, e), ground (arith, h)))
  ]

  value_steps :
      (digest : String)
      → Forcible
      → forced_steps (forced_fields host pass1 original run prefix localization policy digest)
        ≡ ok (read_back run prefix)
  unfolding forced_steps forced_fields require_int get String_discrete
  value_steps digest f =
      let b = bounded_lem f.bounded in ground (arith, b.0, b.1.0, f.step, f.checkpoint)

  value_policy :
      (digest : String)
      → contains policy ("raw_greedy" ∷ "lis_policy_modified_greedy_v1" ∷ []) ≡ true
      → selection_policy_sha256 host policy ≡ ok digest
      → forced_policy host (forced_fields host pass1 original run prefix localization policy digest)
        ≡ ok tt
  unfolding forced_policy forced_fields get String_discrete
  value_policy digest known h = ground (arith, known, h)

  value_digests :
      (digest : String)
      → Forcible
      → WritesDigests host
      → is_sha256 digest ≡ true
      → require_digests
          (forced_fields host pass1 original run prefix localization policy digest)
          forced_prefix_digests
        ≡ ok tt
  unfolding require_digests forced_fields get String_discrete localization_reference require_sha256
  value_digests digest f writes h =
      let made = writes (canonical_json host.float_repr (serialize pass1)) in
      ground (arith, f.prefix_digest, f.pass0_digest, f.report_digest, h, made)

  value_read :
      (digest : String)
      → Forcible
      → WritesDigests host
      → contains policy ("raw_greedy" ∷ "lis_policy_modified_greedy_v1" ∷ []) ≡ true
      → selection_policy_sha256 host policy ≡ ok digest
      → is_sha256 digest ≡ true
      → validate_forced_prefix_metadata host
          (dict (forced_fields host pass1 original run prefix localization policy digest))
        ≡ ok (read_back run prefix)
  unfolding validate_forced_prefix_metadata require_exact_keys keys_within has_keys forced_fields
      get String_discrete Option-discrete
  value_read digest f writes known made valid =
      let steps = value_steps digest f in
      let policy_read = value_policy digest known made in
      let digests = value_digests digest f writes valid in
      ground (arith, steps, policy_read, digests)

  policy_profile_known :
      contains policy ("raw_greedy" ∷ "lis_policy_modified_greedy_v1" ∷ []) ≡ true
      → (profile : Value) × (selection_policy_profile policy ≡ some profile)
  unfolding selection_policy_profile
  policy_profile_known known = elim (Option-cases (selection_policy_profile policy)) [
    | inl e ↦ absurd (ground (arith, known, e))
    | inr found ↦ found
  ]

  -- The profile of a known policy has a digest.
  policy_digest :
      contains policy ("raw_greedy" ∷ "lis_policy_modified_greedy_v1" ∷ []) ≡ true
      → WritesDigests host
      → (digest : String) × (selection_policy_sha256 host policy ≡ ok digest)
        × (is_sha256 digest ≡ true)
  unfolding selection_policy_sha256 sha256_text
  policy_digest known writes =
      let (profile, found) = policy_profile_known known in
      let text = concat (canonical_json host.float_repr profile ∷ "\n" ∷ []) in
      (sha256_text host text, ground (arith, found), writes text)

  bounded_found : Forcible → bounded_prefix pass1 ≡ ok (prefix, localization)
  unfolding bounded_prefix
  bounded_found f = ground (arith, f.has_prefix, f.has_localization, f.bounded)

  -- For a mismatch after a bounded prefix that is not empty, an original report that is bound to a
  -- known role and can be read, well-formed digests of the sources, a known policy and a hash library
  -- that writes digests, the metadata are built, and their reader returns the prefix's length and
  -- digest, the step after it, and the position of the context.
  pub build_forced_prefix_metadata-read_back :
      WritesDigests host
      → contains policy ("raw_greedy" ∷ "lis_policy_modified_greedy_v1" ∷ []) ≡ true
      → Forcible
      → (value : Value) × (build_forced_prefix_metadata host pass1 original role policy ≡ ok value)
        × (validate_forced_prefix_metadata host value ≡ ok (read_back run prefix))
  unfolding build_forced_prefix_metadata is_first_mismatch
  build_forced_prefix_metadata-read_back writes known f =
      let (digest, made, valid) = policy_digest known writes in
      let value = dict (forced_fields host pass1 original run prefix localization policy digest) in
      let read = value_read digest f writes known made valid in
      let prefix_found = bounded_found f in
      (
        value,
        ground (arith, f.role_known, f.mismatch, prefix_found, f.bound, f.read, made, read),
        read,
      )
