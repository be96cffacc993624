-- ===== src/Tokens/Sequence/Coherent.antt =====
-- What a selected-token sequence that was read says is coherent.
use mathlib.Core.Path.{subst}
use text.Mathlib.TextEquality.{eq_iff}
use local_inference_system.Base.{
  ℕ, ◌*◌, String, true, Option, none, some, List, ◌≡◌, ◌≢◌, ◌⊎◌, inl, inr, refl, arith,
  Outcome-cases, ◌>>=◌, ok, err, length, >>=-eq-ok,
}
use local_inference_system.Json.Value.{Fields, dict}
use local_inference_system.Json.Lookup.{collect_locations}
use local_inference_system.Tokens.Model.{
  NormalizedDigest, SelectedTokenSequence, SelectedTokenEvidenceLevel, array_exact,
}
use local_inference_system.Tokens.Errors.{Read}
use local_inference_system.Tokens.Reports.{Host, token_ids_sha256}
use local_inference_system.Tokens.Digests.{
  fnv1a64_token_ids, expected_digest, validate_digest_for_array,
}
use local_inference_system.Tokens.Sequence.{
  checked_evidence, level_without_array, extract_selected_token_sequence, assemble_sequence,
  explicit_array, declared_count, declared_digest, generation_limit_of, selected_paths,
}

-- The computation returns just this text.
abbrev pub Yields : Read String → Option String → Type 0
Yields (ok text) value = value ≡ some text
Yields (err e) value = ⊥

-- A valid digest is of the array: its size is eight bytes for each token, and a digest by an
-- algorithm that Pass 1 computes is what Pass 1 computes.
pub record DigestAgrees (host : Host) (ids : List ℕ) (d : NormalizedDigest) : Type 0 where
  pub size : (d.size_bytes ≡ none) ⊎ (d.size_bytes ≡ some (length ids * 8))
  pub fnv : d.algorithm ≡ some "fnv1a64" → Yields (fnv1a64_token_ids ids) d.value
  pub sha : d.algorithm ≡ some "sha256" → d.value ≡ some (token_ids_sha256 host ids)

sha_ne_fnv : ◌≢◌ {A = String} "sha256" "fnv1a64"
sha_ne_fnv = ground (arith, eq_iff "sha256" "fnv1a64")

Yields-some : (m : Read String) {e : Option String} → (do d ← m; ok (some d)) ≡ ok e → Yields m e
Yields-some (ok text) h = ground arith
Yields-some (err error) h = cc

Yields-agrees :
    (m : Read String) (e value : Option String)
    → Yields m e
    → (e ≡ none) ⊎ (e ≡ value)
    → Yields m value
Yields-agrees (ok text) e value y agrees = ground arith
Yields-agrees (err error) e value y agrees = y

module _ (host : Host) (ids : List ℕ) where
  expected-sha : expected_digest host (some "sha256") ids ≡ ok (some (token_ids_sha256 host ids))
  unfolding expected_digest
  expected-sha = ground (arith, sha_ne_fnv)

  expected-fnv :
      {e : Option String}
      → expected_digest host (some "fnv1a64") ids ≡ ok e
      → Yields (fnv1a64_token_ids ids) e
  unfolding expected_digest
  expected-fnv h = Yields-some (fnv1a64_token_ids ids) (ground arith)

  -- An accepted digest is the expected one, if one is expected.
  validate-expected :
      (digest : NormalizedDigest) {d : NormalizedDigest}
      → validate_digest_for_array host digest ids ≡ ok d
      → d.valid ≡ true
      → (e : Option String) × (expected_digest host d.algorithm ids ≡ ok e)
        × ((e ≡ none) ⊎ (e ≡ d.value))
        × ((d.size_bytes ≡ none) ⊎ (d.size_bytes ≡ some (length ids * 8)))
  unfolding validate_digest_for_array
  validate-expected digest h v = elim (Outcome-cases (expected_digest host digest.algorithm ids)) [
    | inl (e, p) ↦ (e, ground arith, ground arith, ground arith)
    | inr (e, p) ↦ absurd (ground arith)
  ]

  validate-DigestAgrees :
      (digest : NormalizedDigest) {d : NormalizedDigest}
      → validate_digest_for_array host digest ids ≡ ok d
      → d.valid ≡ true
      → DigestAgrees host ids d
  validate-DigestAgrees digest {d} h v =
      let (e, expected, agrees, sized) = validate-expected digest h v in
      record {
        size = sized;
        fnv = λ a.
            Yields-agrees (fnv1a64_token_ids ids) e d.value (expected-fnv (rw a at expected))
              agrees;
        sha = λ a. ground (arith, expected-sha, rw a at expected);
      }

-- What a sequence promises of its evidence: with an array, the count that the report declares and a
-- valid digest agree with it; without one, the level says what else there is.
pub record IsCoherent (host : Host) (s : SelectedTokenSequence) : Type 0 where
  pub exact :
      (ids : List ℕ)
      → s.token_ids ≡ some ids
      → (s.evidence_level ≡ array_exact)
        × ((s.declared_count ≡ none) ⊎ (s.declared_count ≡ some (length ids)))
        × (s.digest.valid ≡ true → DigestAgrees host ids s.digest)
  pub absent : s.token_ids ≡ none → s.evidence_level ≡ level_without_array s.declared_count s.digest

checked_evidence-some :
    (host : Host) (ids : List ℕ) (count : Option ℕ) (digest : NormalizedDigest)
    {d : NormalizedDigest} {level : SelectedTokenEvidenceLevel}
    → checked_evidence host (some ids) count digest ≡ ok (d, level)
    → (level ≡ array_exact)
      × ((count ≡ none) ⊎ (count ≡ some (length ids)))
      × (validate_digest_for_array host digest ids ≡ ok d)
unfolding checked_evidence
checked_evidence-some host ids count digest h = ground arith

assemble-checked :
    (host : Host) (raw : Fields) (role : String) (found : Option (List ℕ) × List String)
    (count : Option ℕ) (digest : NormalizedDigest) (limit : Option ℕ) {s : SelectedTokenSequence}
    → assemble_sequence host raw role found count digest limit ≡ ok s
    → checked_evidence host s.token_ids s.declared_count digest ≡ ok (s.digest, s.evidence_level)
unfolding assemble_sequence
assemble-checked host raw role found count digest limit h = ground arith

-- The evidence of a sequence is the checked evidence of its array and count.
extract-checked :
    (host : Host) (raw : Fields) (role : String) {s : SelectedTokenSequence}
    → extract_selected_token_sequence host raw role ≡ ok s
    → (digest : NormalizedDigest) × (checked_evidence host s.token_ids s.declared_count digest
        ≡ ok (s.digest, s.evidence_level))
unfolding extract_selected_token_sequence
extract-checked host raw role {s} h =
    let (found, p1, h1) =
      >>=-eq-ok
        (explicit_array (collect_locations (dict raw) (selected_paths "selected_token_ids"))) _ h in
    let (count, p2, h2) = >>=-eq-ok (declared_count raw) _ h1 in
    let (digest, p3, h3) = >>=-eq-ok (declared_digest raw) _ h2 in
    let (limit, p4, h4) = >>=-eq-ok (generation_limit_of raw) _ h3 in
    (digest, assemble-checked host raw role found count digest limit h4)

IsCoherent-of_checked :
    (host : Host) (ids : Option (List ℕ)) (digest : NormalizedDigest) (s : SelectedTokenSequence)
    → s.token_ids ≡ ids
    → checked_evidence host ids s.declared_count digest ≡ ok (s.digest, s.evidence_level)
    → IsCoherent host s
IsCoherent-of_checked host none digest s e h = record {
  exact = λ ids p. absurd (ground arith);
  absent = λ _. unfold checked_evidence in ground arith;
}
IsCoherent-of_checked host (some ids) digest s e h =
    let (level, counted, valid) = checked_evidence-some host ids s.declared_count digest h in
    record {
      exact = λ ids' p.
          let same : ids ≡ ids' = ground arith in
          subst
            (λ xs.
              (s.evidence_level ≡ array_exact)
              × ((s.declared_count ≡ none) ⊎ (s.declared_count ≡ some (length xs)))
              × (s.digest.valid ≡ true → DigestAgrees host xs s.digest))
            same (level, counted, λ v. validate-DigestAgrees host ids digest valid v);
      absent = λ p. absurd (ground arith);
    }

-- Every sequence that is read from a report is coherent: with an explicit array the level is exact,
-- a declared count is its length, and a valid digest has its size and, for FNV-1a and SHA-256, its
-- value; without an array the level is the one for the count and the digest that are there.
pub extract-IsCoherent :
    (host : Host) (raw : Fields) (role : String) {s : SelectedTokenSequence}
    → extract_selected_token_sequence host raw role ≡ ok s
    → IsCoherent host s
extract-IsCoherent host raw role {s} h =
    let (digest, checked) = extract-checked host raw role h in
    IsCoherent-of_checked host s.token_ids digest s refl checked
