-- ===== src/Replay/Prefix.antt =====
-- tools/lis_verify/pass2.py: the prefix that a reproduction is expected to have.
use local_inference_system.Base.{
  ℕ, String, Bool, not, ◌&&◌, Option, none, some, List, [], ◌∷◌, length, leb, take, ◌==◌, ◌!=◌,
  nat_eq, string_eq, option_eq, if◌then◌else◌, Outcome, ok, err, ◌>>=◌,
}
use local_inference_system.Json.Number.{pos}
use local_inference_system.Json.Value.{Value, int}
use local_inference_system.Tokens.Model.{
  TokenLocalization, PrefixForReproduction, PrefixAvailability, Pass1Result, exact_source_required,
}
use local_inference_system.Tokens.Reports.{Host, token_ids_sha256}
use local_inference_system.Replay.Model.{Pass2ReasonCode}

-- `_normalize_prefix_source` of a sequence of values.
unfoldable pub normalize_prefix_source : List Value → Option (List ℕ)
normalize_prefix_source [] = some []
normalize_prefix_source (int (pos n) ∷ values) = elim (normalize_prefix_source values) [
  | none ↦ none
  | some ns ↦ some (n ∷ ns)
]
normalize_prefix_source (value ∷ values) = none

-- Why there is no expected prefix: the reason, and the kind of the mismatch.
pub record PrefixFault : Type 0 where
  pub reason : Pass2ReasonCode
  pub mismatch_kind : Option String

abbrev pub no_prefix : {A : Type 0} → Pass2ReasonCode → Option String → Outcome PrefixFault A
no_prefix reason kind = err (record { reason = reason; mismatch_kind = kind })

-- The selected tokens that Pass 1 kept of the reference, where they reach to the count.
unfoldable pub reference_prefix : Pass1Result → ℕ → Option (List ℕ)
reference_prefix pass1 count = elim pass1.reference [
  | none ↦ none
  | some input ↦ elim input.selected_tokens.token_ids [
    | none ↦ none
    | some ids ↦ if leb count (length ids) then some (take count ids) else none
  ]
]

-- The tokens of the source that is given, else those that Pass 1 kept.
unfoldable pub prefix_values :
    Pass1Result → PrefixForReproduction → Option (List Value) → Option (List ℕ)
unfolding normalize_prefix_source reference_prefix
prefix_values pass1 prefix (some source) = normalize_prefix_source source
prefix_values pass1 prefix none =
    if length prefix.exact_token_ids == prefix.token_count
    then some prefix.exact_token_ids
    else reference_prefix pass1 prefix.token_count

unfoldable pub missing_prefix : PrefixAvailability → Option (List Value) → PrefixFault
missing_prefix exact_source_required none = record {
  reason = Pass2ReasonCode.prefix_material_unavailable;
  mismatch_kind = none;
}
missing_prefix availability source = record {
  reason = Pass2ReasonCode.prefix_token_mismatch;
  mismatch_kind = some "malformed_token_array";
}

-- The checks of the tokens against what Pass 1 says of the prefix.
unfoldable pub checked_prefix :
    Host
    → PrefixForReproduction
    → Option (List Value)
    → Option (List ℕ)
    → Outcome PrefixFault (List ℕ)
unfolding missing_prefix
checked_prefix host prefix source none = err (missing_prefix prefix.availability source)
checked_prefix host prefix source (some values) =
    if length values != prefix.token_count
    then no_prefix Pass2ReasonCode.prefix_token_mismatch (some "length_mismatch")
    else if token_ids_sha256 host values != prefix.sha256
    then no_prefix Pass2ReasonCode.prefix_digest_mismatch (some "digest_mismatch")
    else ok values

-- The step and the prefix agree.
unfoldable pub is_aligned : TokenLocalization → PrefixForReproduction → ℕ → Bool
is_aligned localization prefix step =
    localization.matched_generated_prefix_length == step
    && prefix.prefix_start_generated_step == 0
    && prefix.prefix_end_generated_step_exclusive == step
    && prefix.token_count == step

-- The expected tokens, and what the code reads again of Pass 1 once it has them.
pub record ExpectedPrefix : Type 0 where
  pub values : List ℕ
  pub localization : TokenLocalization
  pub step : ℕ
  pub prefix : PrefixForReproduction

-- `_resolve_expected_prefix`
unfoldable pub resolve_expected_prefix :
    Host → Pass1Result → Option (List Value) → Outcome PrefixFault ExpectedPrefix
unfolding is_aligned
resolve_expected_prefix host pass1 source = elim pass1.localization [
  | none ↦ no_prefix Pass2ReasonCode.pass1_status_not_reproducible none
  | some localization ↦ elim localization.generated_token_step [
    | none ↦ no_prefix Pass2ReasonCode.pass1_status_not_reproducible none
    | some step ↦ elim pass1.prefix_for_reproduction [
      | none ↦ no_prefix Pass2ReasonCode.pass1_status_not_reproducible none
      | some prefix ↦
          if not (is_aligned localization prefix step)
          then no_prefix Pass2ReasonCode.prefix_token_mismatch (some "length_mismatch")
          else do
            values ← checked_prefix host prefix source (prefix_values pass1 prefix source)
            ok (record {
              values = values;
              localization = localization;
              step = step;
              prefix = prefix;
            })
    ]
  ]
]
