-- ===== src/Tokens/Locate/Specification.antt =====
-- A localization is the longest common prefix of the two sequences, and what follows it.
use native.Mathlib.Decide.{ℕ_discrete, dec_lt}
use local_inference_system.Base.{
  ℕ, zero, suc, ◌+◌, ◌≤◌, true, false, none, some, List, [], ◌∷◌, ◌≡◌, ◌≢◌, ◌↔◌, ◌⊎◌, ap, inl, inr,
  refl, arith, ◌==◌, nat_eq, length, get_elem?, take, take-length, lt_of_get_elem?, get_elem?-none,
  get_elem?-some, ◌∙◌, sym, Option-cases, Bool-cases,
}
use local_inference_system.Tokens.Model.{
  TokenLocalization, token_id_mismatch, length_mismatch_or_early_termination,
}
use local_inference_system.Tokens.Locate.{
  first_difference, locate_first_selected_token_mismatch, min_length,
  runtime_checkpoint_step_for_generated,
}

-- A reported difference: the lists agree before it, and hold the two tokens, which differ, at it.
first_difference-some :
    (index : ℕ) (ref cand : List ℕ) {i r c : ℕ}
    → first_difference index ref cand ≡ some (i, r, c)
    → (k : ℕ) × (i ≡ index + k)
      × (take k ref ≡ take k cand)
      × (get_elem? ref k ≡ some r)
      × (get_elem? cand k ≡ some c)
      × (r ≢ c)
unfolding first_difference
first_difference-some index [] cand h = cc
first_difference-some index (r ∷ ref) [] h = cc
first_difference-some index (r ∷ ref) (c ∷ cand) {i} {r = x} {c = y} h =
    elim (Bool-cases (r == c)) [
      | inl same ↦
          let (k, e, t, p, q, n) =
            first_difference-some (suc index) ref cand {i = i} {r = x} {c = y} (ground arith) in
          (suc k, ground arith, ground arith, p, q, n)
      | inr differ ↦ (0, ground arith, refl, ground arith, ground arith, ground arith)
    ]

-- Where no difference is reported, the lists agree as far as both go.
first_difference-none :
    (index : ℕ) (ref cand : List ℕ) (k : ℕ)
    → first_difference index ref cand ≡ none
    → k ≤ length ref
    → k ≤ length cand
    → take k ref ≡ take k cand
unfolding first_difference
first_difference-none index ref cand zero h p q = refl
first_difference-none index [] cand (suc k) h p q = absurd (omega arith)
first_difference-none index (r ∷ ref) [] (suc k) h p q = absurd (omega arith)
first_difference-none index (r ∷ ref) (c ∷ cand) (suc k) h p q =
    ground (arith, first_difference-none (suc index) ref cand k)

is_of_eq : {m n : ℕ} → m ≡ n → (m == n) ≡ true
is_of_eq e = ground arith

is_of_ne : {m n : ℕ} → m ≢ n → (m == n) ≡ false
is_of_ne e = ground arith

-- `l` says where `ref` and `cand` differ first.
pub record IsLocalization (ref cand : List ℕ) (l : TokenLocalization) : Type 0 where
  pub within_reference : l.matched_generated_prefix_length ≤ length ref
  pub within_candidate : l.matched_generated_prefix_length ≤ length cand
  pub prefix :
      take l.matched_generated_prefix_length ref ≡ take l.matched_generated_prefix_length cand
  pub reference_id : l.reference_selected_token_id ≡ get_elem? ref l.matched_generated_prefix_length
  pub candidate_id :
      l.candidate_selected_token_id ≡ get_elem? cand l.matched_generated_prefix_length
  pub equal : l.generated_token_step ≡ none ↔ ref ≡ cand
  pub step :
      (i : ℕ)
      → l.generated_token_step ≡ some i
      → (i ≡ l.matched_generated_prefix_length)
        × (l.runtime_checkpoint_step ≡ some (i + 1))
        × (l.reference_selected_token_id ≢ l.candidate_selected_token_id)
  pub no_kind : l.mismatch_kind ≡ none ↔ l.generated_token_step ≡ none
  pub early :
      l.mismatch_kind ≡ some length_mismatch_or_early_termination
      ↔ (ref ≢ cand)
        × ((l.reference_selected_token_id ≡ none) ⊎ (l.candidate_selected_token_id ≡ none))
  pub substituted :
      l.mismatch_kind ≡ some token_id_mismatch
      ↔ (l.reference_selected_token_id ≢ none) × (l.candidate_selected_token_id ≢ none)
  pub lengths :
      (l.observed_reference_generated_length ≡ length ref)
      × (l.observed_candidate_generated_length ≡ length cand)

-- Lists that hold different tokens at an index are different.
differ_at : (ref cand : List ℕ) (k : ℕ) → get_elem? ref k ≢ get_elem? cand k → ref ≢ cand
differ_at ref cand k n e = n (ap (λ xs. get_elem? xs k) e)

locate-difference :
    (ref cand : List ℕ) {i r c : ℕ}
    → first_difference 0 ref cand ≡ some (i, r, c)
    → IsLocalization ref cand (locate_first_selected_token_mismatch ref cand)
unfolding locate_first_selected_token_mismatch runtime_checkpoint_step_for_generated
locate-difference ref cand {i} {r} {c} h =
    let (k, e, agree, p, q, n) = first_difference-some 0 ref cand {i = i} {r = r} {c = c} h in
    let at : k ≡ i = omega arith in
    let apart = differ_at ref cand k (λ same. n (ground (arith, same, p, q))) in
    rw h (record {
      within_reference = omega (arith, lt_of_get_elem? ref k p);
      within_candidate = omega (arith, lt_of_get_elem? cand k q);
      prefix = rw at at agree;
      reference_id = sym (rw at at p);
      candidate_id = sym (rw at at q);
      equal = (λ none_step. cc, λ same. absurd (apart same));
      step = λ j found. ground arith;
      no_kind = (λ kind. cc, λ none_step. cc);
      early = (λ kind. cc, λ ends. ground arith);
      substituted = (λ kind. ground arith, λ both. refl);
      lengths = (refl, refl);
    })

-- At the length of the shorter list, one list has an element and the other has none.
one_ends :
    (ref cand : List ℕ)
    → length ref ≢ length cand
    → let k = min_length (length ref) (length cand) in
      ((get_elem? ref k ≡ none) × (get_elem? cand k ≢ none))
      ⊎ ((get_elem? cand k ≡ none) × (get_elem? ref k ≢ none))
one_ends ref cand n = elim (dec_lt (length cand) (length ref)) [
  | yes less ↦
      let (a, e) = get_elem?-some ref (length cand) less in
      ground (arith, get_elem?-none cand (length cand) (omega arith))
  | no more ↦
      let (a, e) = get_elem?-some cand (length ref) (omega arith) in
      ground (arith, get_elem?-none ref (length ref) (omega arith))
]

module _ (ref cand : List ℕ) (h : first_difference 0 ref cand ≡ none) where
  end_equal :
      length ref ≡ length cand
      → IsLocalization ref cand (locate_first_selected_token_mismatch ref cand)
  unfolding locate_first_selected_token_mismatch
  end_equal e =
      let agree : take (length ref) ref ≡ take (length ref) cand =
        first_difference-none 0 ref cand (length ref) h (omega arith) (omega arith) in
      let same : ref ≡ cand = sym (take-length ref) ∙ agree ∙ rw e (take-length cand) in
      rw (h, is_of_eq e)
        (record {
          within_reference = omega arith;
          within_candidate = omega arith;
          prefix = agree;
          reference_id = sym (get_elem?-none ref (length ref) (omega arith));
          candidate_id = sym (get_elem?-none cand (length ref) (omega arith));
          equal = (λ _. same, λ _. refl);
          step = λ j found. absurd (ground arith);
          no_kind = (λ _. refl, λ _. refl);
          early = (λ kind. absurd (ground arith), λ ends. absurd (ends.0 same));
          substituted = (λ kind. absurd (ground arith), λ both. absurd (both.0 refl));
          lengths = (refl, refl);
        })

  end_differs :
      length ref ≢ length cand
      → IsLocalization ref cand (locate_first_selected_token_mismatch ref cand)
  unfolding locate_first_selected_token_mismatch runtime_checkpoint_step_for_generated
  end_differs n =
      let ends = one_ends ref cand n in
      rw (h, is_of_ne n)
        (record {
          within_reference = ground arith;
          within_candidate = ground arith;
          prefix = first_difference-none 0 ref cand _ h (ground arith) (ground arith);
          reference_id = refl;
          candidate_id = refl;
          equal = (λ none_step. absurd (ground arith), λ same. absurd (n (ap length same)));
          step = λ j found. (ground arith, ground arith, ground arith);
          no_kind = (λ kind. absurd (ground arith), λ none_step. absurd (ground arith));
          early = (λ kind. (λ same. n (ap length same), ground arith), λ _. refl);
          substituted = (λ kind. absurd (ground arith), λ both. absurd (ground arith));
          lengths = (refl, refl);
        })

-- The localization of two sequences matches the longest prefix that they share, gives the tokens
-- behind it and both lengths, has no step exactly where the sequences are equal, and names a kind
-- exactly where it has a step: a token mismatch where both sequences have a token there, and a length
-- mismatch where they differ and one of them has none.
pub locate-IsLocalization :
    (ref cand : List ℕ) → IsLocalization ref cand (locate_first_selected_token_mismatch ref cand)
locate-IsLocalization ref cand = elim (Option-cases (first_difference 0 ref cand)) [
  | inl e ↦ elim (ℕ_discrete (length ref) (length cand)) [
    | yes same ↦ end_equal ref cand e same
    | no differ ↦ end_differs ref cand e differ
  ]
  | inr ((i, r, c), e) ↦ locate-difference ref cand e
]
