-- ===== src/Product/ForcedPrefix.antt =====
-- tools/lis_verify/product_contract.py: the selection policies and
-- `validate_forced_prefix_metadata`. The validation returns the values that it has read.
use local_inference_system.Base.{
  ℕ, ◌+◌, String, Bool, true, false, ◌&&◌, Option, none, some, List, [], ◌∷◌, ◌==◌, ◌!=◌,
  if◌then◌else◌, string_eq, nat_eq, option_eq, contains, is_some, leb, Outcome, ok, err, ◌>>=◌,
  ◌>>◌, require,
}
use local_inference_system.Base.Text.{concat}
use local_inference_system.Json.Number.{pos}
use local_inference_system.Json.Value.{Value, bool, int, str, dict, Fields, end, field, get}
use local_inference_system.Json.Lookup.{get_value, as_text}
use local_inference_system.Json.Render.{canonical_json}
use local_inference_system.Tokens.Reports.{Host}
use local_inference_system.Product.Contract.{require_sha256}

-- `MAX_TOKEN_ID_PREVIEW`
abbrev pub max_token_id_preview : ℕ
max_token_id_preview = 64

-- `SELECTION_POLICY_PROFILES`, with the name of the mode, the penalty and the suppression.
policy_profile : String → String → Bool → Value
policy_profile mode penalty suppression = dict (
    field "domain" (str "lis.selection_policy/v1") (
      field "selection_mode" (str mode) (
        field "repetition_penalty_decimal" (str penalty)
          (field "structural_token_suppression" (bool suppression) end))))

unfoldable pub selection_policy_profile : String → Option Value
unfolding policy_profile
selection_policy_profile name =
    if name == "raw_greedy"
    then some (policy_profile "raw_greedy" "1.0" false)
    else if name == "lis_policy_modified_greedy_v1"
    then some (policy_profile "policy_modified_greedy" "1.2" true)
    else none

unfoldable pub selection_policy_sha256 : Host → String → Outcome String String
selection_policy_sha256 host name = elim (selection_policy_profile name) [
  | none ↦ err "selection policy is unsupported"
  | some profile ↦ ok (
      concat (
        "sha256:"
        ∷ host.sha256_hex (concat (canonical_json host.float_repr profile ∷ "\n" ∷ []))
        ∷ []))
]

-- `FORCED_PREFIX_FIELDS`
abbrev pub forced_prefix_fields : List String
forced_prefix_fields =
    "mode" ∷ "applied" ∷ "token_count" ∷ "token_ids_sha256" ∷ "prefix_start_generated_step"
    ∷ "prefix_end_generated_step_exclusive" ∷ "target_generated_token_step"
    ∷ "runtime_checkpoint_step" ∷ "prompt_token_count" ∷ "context_position" ∷ "selection_policy"
    ∷ "selection_policy_sha256" ∷ "source_pass0_artifact_sha256"
    ∷ "source_original_run_report_sha256" ∷ "source_pass1_artifact_sha256"
    ∷ "source_localization_ref_sha256" ∷ []

unfoldable pub keys_within : Fields → List String → Bool
keys_within end keys = true
keys_within (field k v rest) keys = contains k keys && keys_within rest keys

unfoldable pub has_keys : List String → Fields → Bool
has_keys [] fields = true
has_keys (k ∷ ks) fields = is_some (get k fields) && has_keys ks fields

-- `_require_exact_keys`
unfoldable pub require_exact_keys : Value → List String → String → Outcome String Fields
unfolding keys_within has_keys
require_exact_keys (dict fields) expected label =
    require (keys_within fields expected && has_keys expected fields)
      (concat (label ∷ " must contain exactly the frozen fields" ∷ []))
    >> ok fields
require_exact_keys value expected label =
    err (concat (label ∷ " must contain exactly the frozen fields" ∷ []))

-- `_require_int`
unfoldable pub require_int : Value → String → Option ℕ → Outcome String ℕ
require_int (int (pos n)) label none = ok n
require_int (int (pos n)) label (some maximum) =
    require (leb n maximum) (concat (label ∷ " exceeds its bound" ∷ [])) >> ok n
require_int value label maximum = err (concat (label ∷ " must be a non-negative integer" ∷ []))

abbrev is_true : Value → Bool
is_true (bool b) = b
is_true _ = false

-- The values that the validation has read.
pub record ForcedPrefix : Type 0 where
  pub token_count : ℕ
  pub token_ids_sha256 : Option String
  pub target_generated_token_step : ℕ
  pub runtime_checkpoint_step : ℕ
  pub prompt_token_count : ℕ
  pub context_position : ℕ

-- The range of steps, the checkpoint and the position of the context.
unfoldable pub forced_steps : Fields → Outcome String ForcedPrefix
unfolding require_int
forced_steps value = do
  count ←
      require_int (get_value "token_count" value) "forced_prefix.token_count"
        (some max_token_id_preview)
  require (count != 0) "forced prefix report requires a non-empty prefix"
  start ←
      require_int (get_value "prefix_start_generated_step" value) "prefix_start_generated_step" none
  stop ←
      require_int (get_value "prefix_end_generated_step_exclusive" value)
        "prefix_end_generated_step_exclusive" none
  target ←
      require_int (get_value "target_generated_token_step" value) "target_generated_token_step" none
  runtime_step ←
      require_int (get_value "runtime_checkpoint_step" value) "runtime_checkpoint_step" none
  prompt_count ← require_int (get_value "prompt_token_count" value) "prompt_token_count" none
  context_position ← require_int (get_value "context_position" value) "context_position" none
  require (start == 0 && stop == count && target == count)
      "forced prefix generated-step range is incoherent"
  require (runtime_step == target + 1) "decode runtime checkpoint step must be N + 1"
  require (context_position == prompt_count + count) "forced prefix context position is incoherent"
  ok (record {
    token_count = count;
    token_ids_sha256 = as_text (get_value "token_ids_sha256" value);
    target_generated_token_step = target;
    runtime_checkpoint_step = runtime_step;
    prompt_token_count = prompt_count;
    context_position = context_position;
  })

-- The selection policy, with the digest that belongs to it.
unfoldable pub forced_policy : Host → Fields → Outcome String Unit
forced_policy host value = elim (as_text (get_value "selection_policy" value)) [
  | none ↦ err "forced prefix selection policy is unsupported"
  | some policy ↦ do
    require (contains policy ("raw_greedy" ∷ "lis_policy_modified_greedy_v1" ∷ []))
        "forced prefix selection policy is unsupported"
    digest ← selection_policy_sha256 host policy
    require (as_text (get_value "selection_policy_sha256" value) == some digest)
        "forced prefix selection policy digest is inconsistent"
    ok tt
]

abbrev pub forced_prefix_digests : List String
forced_prefix_digests =
    "token_ids_sha256" ∷ "selection_policy_sha256" ∷ "source_pass0_artifact_sha256"
    ∷ "source_original_run_report_sha256" ∷ "source_pass1_artifact_sha256"
    ∷ "source_localization_ref_sha256" ∷ []

unfoldable pub require_digests : Fields → List String → Outcome String Unit
require_digests value [] = ok tt
require_digests value (name ∷ names) =
    let rest = require_digests value names in
    require_sha256 (as_text (get_value name value)) (concat ("forced_prefix." ∷ name ∷ [])) >> rest

unfoldable pub validate_forced_prefix_metadata : Host → Value → Outcome String ForcedPrefix
validate_forced_prefix_metadata host raw = do
  value ← require_exact_keys raw forced_prefix_fields "forced_prefix"
  require (as_text (get_value "mode" value) == some "injected_selected_token_prefix_v1")
      "forced_prefix.mode is unsupported"
  require (is_true (get_value "applied" value)) "forced prefix report requires an applied prefix"
  steps ← forced_steps value
  forced_policy host value
  require_digests value forced_prefix_digests
  ok steps
