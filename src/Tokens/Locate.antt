-- ===== src/Tokens/Locate.antt =====
-- tools/lis_verify/pass1.py: the first selected token at which two sequences differ. The proofs are
-- in the modules below.
pub mod Specification
use local_inference_system.Base.{
  ℕ, suc, ◌+◌, Bool, true, false, Option, none, some, List, [], ◌∷◌, ◌==◌, nat_eq, if◌then◌else◌,
  length, get_elem?, ltb,
}
use local_inference_system.Tokens.Model.{
  TokenLocalization, token_id_mismatch, length_mismatch_or_early_termination,
}

unfoldable pub runtime_checkpoint_step_for_generated : ℕ → ℕ
runtime_checkpoint_step_for_generated step = step + 1

-- The loop over `range(min_len)`: the first index, from the given one, at which both lists have a
-- token and the tokens differ.
unfoldable pub first_difference : ℕ → List ℕ → List ℕ → Option (ℕ × ℕ × ℕ)
first_difference index [] cand = none
first_difference index (r ∷ ref) [] = none
first_difference index (r ∷ ref) (c ∷ cand) =
    let later = first_difference (suc index) ref cand in
    if r == c then later else some (index, r, c)

abbrev pub min_length : ℕ → ℕ → ℕ
min_length m n = if ltb n m then n else m

-- What follows the loop where no token differs; the test is whether the lengths are equal.
unfoldable pub end_localization : List ℕ → List ℕ → Bool → TokenLocalization
end_localization ref cand true = record {
  generated_token_step = none;
  runtime_checkpoint_step = none;
  reference_selected_token_id = none;
  candidate_selected_token_id = none;
  matched_generated_prefix_length = length ref;
  observed_reference_generated_length = length ref;
  observed_candidate_generated_length = length cand;
  mismatch_kind = none;
}
end_localization ref cand false =
    let index = min_length (length ref) (length cand) in
    record {
      generated_token_step = some index;
      runtime_checkpoint_step = some (runtime_checkpoint_step_for_generated index);
      reference_selected_token_id = get_elem? ref index;
      candidate_selected_token_id = get_elem? cand index;
      matched_generated_prefix_length = index;
      observed_reference_generated_length = length ref;
      observed_candidate_generated_length = length cand;
      mismatch_kind = some length_mismatch_or_early_termination;
    }

unfoldable pub localization_of : List ℕ → List ℕ → Option (ℕ × ℕ × ℕ) → TokenLocalization
unfolding end_localization
localization_of ref cand (some (index, r, c)) = record {
  generated_token_step = some index;
  runtime_checkpoint_step = some (runtime_checkpoint_step_for_generated index);
  reference_selected_token_id = some r;
  candidate_selected_token_id = some c;
  matched_generated_prefix_length = index;
  observed_reference_generated_length = length ref;
  observed_candidate_generated_length = length cand;
  mismatch_kind = some token_id_mismatch;
}
localization_of ref cand none = end_localization ref cand (length ref == length cand)

unfoldable pub locate_first_selected_token_mismatch : List ℕ → List ℕ → TokenLocalization
unfolding localization_of
locate_first_selected_token_mismatch ref cand =
    localization_of ref cand (first_difference 0 ref cand)
