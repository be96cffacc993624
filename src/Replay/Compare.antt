-- ===== src/Replay/Compare.antt =====
-- tools/lis_verify/pass2.py: the runs against the expected prefix, and the context of the runs.
pub mod Sound
use local_inference_system.Base.{
  ℕ, zero, suc, ◌+◌, String, Bool, true, false, not, ◌&&◌, ◌||◌, Option, none, some, List, [], ◌∷◌,
  ◌++◌, map, length, leb, ltb, take, ◌==◌, ◌!=◌, nat_eq, string_eq, option_eq, any, if◌then◌else◌,
  Outcome, ok, err, ◌>>=◌,
}
use local_inference_system.Base.Text.{concat}
use local_inference_system.Json.Number.{pos}
use local_inference_system.Json.Value.{Value, null, int}
use local_inference_system.Json.Lookup.{get_value}
use local_inference_system.Tokens.Model
use local_inference_system.Tokens.Model.{
  TokenLocalization, PrefixForReproduction, PrefixAvailability, Pass1Result, exact_source_required,
}
use local_inference_system.Tokens.Reports.{Host, token_ids_sha256}
use local_inference_system.Product.ForcedPrefix.{ForcedPrefix, validate_forced_prefix_metadata}
use local_inference_system.Replay.Model.{
  Pass2ReasonCode, PrefixGateResult, ContextGateResult, RunContextEvidence,
}
use local_inference_system.Replay.Evidence.{RunEvidence, selected_tokens}
use local_inference_system.Replay.Results.{prefix_gate}

-- The first index at which the values differ from what is expected; the values reach as far.
unfoldable pub first_diff : List ℕ → List ℕ → Option ℕ
first_diff [] values = none
first_diff (e ∷ es) [] = none
first_diff (e ∷ es) (v ∷ vs) =
    let later = first_diff es vs in
    if v != e then some 0 else elim later [ none ↦ none | some i ↦ some (suc i) ]

module _ (host : Host) (expected : List ℕ) (sha256 : String) where
  abbrev gate : String → List String → PrefixGateResult
  gate status verified = record (prefix_gate status) {
    expected_token_count = some (length expected);
    expected_sha256 = some sha256;
    verified_sides = verified;
  }

  abbrev failed_gate : String → List String → RunEvidence → Option ℕ → String → PrefixGateResult
  failed_gate status verified run index kind = record (gate status verified) {
    failed_side = some run.role;
    first_diff_index = index;
    mismatch_kind = some kind;
  }

  -- What one run says against the prefix.
  abbrev pub Objection : Type 0
  Objection = Option (PrefixGateResult × Pass2ReasonCode)

  unfoldable pub forced_objection : List String → RunEvidence → ForcedPrefix → Objection
  forced_objection verified run forced =
      if forced.token_count != length expected
      then some (
        failed_gate "failed" verified run none "length_mismatch",
        Pass2ReasonCode.prefix_token_mismatch,
      )
      else if forced.token_ids_sha256 != some sha256
      then some (
        failed_gate "failed" verified run none "digest_mismatch",
        Pass2ReasonCode.prefix_digest_mismatch,
      )
      else none

  unfoldable pub values_objection : List String → RunEvidence → Option (List ℕ) → Objection
  unfolding first_diff
  values_objection verified run none = some (
    failed_gate "unavailable" verified run none "exact_array_missing",
    Pass2ReasonCode.prefix_material_unavailable,
  )
  values_objection verified run (some values) =
      if ltb (length values) (length expected)
      then some (
        failed_gate "failed" verified run (some (length values)) "length_mismatch",
        Pass2ReasonCode.prefix_token_mismatch,
      )
      else elim (first_diff expected values) [
        | none ↦ none
        | some index ↦ some (
          failed_gate "failed" verified run (some index) "token_mismatch",
          Pass2ReasonCode.prefix_token_mismatch,
        )
      ]

  -- A forced prefix is compared by its metadata, any other run by its tokens.
  unfoldable pub run_objection : List String → RunEvidence → Value → Outcome String Objection
  run_objection verified run null = do
    values ← selected_tokens host run
    ok (values_objection verified run values)
  run_objection verified run raw = elim (validate_forced_prefix_metadata host raw) [
    | err error ↦ err (concat (run.role ∷ ": malformed forced-prefix metadata" ∷ []))
    | ok forced ↦ ok (forced_objection verified run forced)
  ]

  unfoldable pub compare_runs :
      List String → List RunEvidence → Outcome String (PrefixGateResult × Option Pass2ReasonCode)
  compare_runs verified [] = ok (gate "verified" verified, none)
  compare_runs verified (run ∷ runs) =
      let later = compare_runs (verified ++ (run.role ∷ [])) runs in
      elim (run_objection verified run (get_value "forced_prefix" run.raw)) [
        | err error ↦ err error
        | ok (some (failed, reason)) ↦ ok (failed, some reason)
        | ok none ↦ later
      ]

  -- `_compare_prefixes`: the empty prefix is compared with no run.
  unfoldable pub compare_prefixes :
      List RunEvidence → Outcome String (PrefixGateResult × Option Pass2ReasonCode)
  compare_prefixes runs = elim expected [
    | [] ↦ ok (
      record (prefix_gate "verified") {
        expected_token_count = some 0;
        expected_sha256 = some sha256;
        verified_sides = map (λ run. run.role) runs;
      },
      none,
    )
    | n ∷ ns ↦ compare_runs [] runs
  ]

-- `_context_gate`: one position for all runs, and batches of one. A sequence index is 0 by
-- construction.
unfoldable pub context_evidence : ℕ → RunEvidence → RunContextEvidence
context_evidence step run = record {
  role = run.role;
  prompt_token_count = run.prompt_token_count;
  context_position = run.prompt_token_count + step;
  batch_size = run.batch_size;
  sequence_index = 0;
  thread_count = run.thread_count;
}

unfoldable pub positions_are : ℕ → List RunContextEvidence → Bool
positions_are position [] = true
positions_are position (item ∷ items) =
    item.context_position == position && positions_are position items

-- `len({item.context_position for item in evidence}) == 1`
unfoldable pub same_position : List RunContextEvidence → Bool
unfolding positions_are
same_position [] = false
same_position (item ∷ items) = positions_are item.context_position items

-- `all(item.batch_size == 1 for item in evidence)`
unfoldable pub single_batches : List RunContextEvidence → Bool
single_batches [] = true
single_batches (item ∷ items) = item.batch_size == 1 && single_batches items

-- `all(item.sequence_index == 0 for item in evidence)`
unfoldable pub first_sequences : List RunContextEvidence → Bool
first_sequences [] = true
first_sequences (item ∷ items) = item.sequence_index == 0 && first_sequences items

unfoldable pub context_gate : List RunEvidence → ℕ → ContextGateResult
context_gate runs step =
    let evidence = map (context_evidence step) runs in
    record {
      status =
          if same_position evidence && single_batches evidence && first_sequences evidence
          then "verified"
          else "failed";
      runs = evidence;
    }
