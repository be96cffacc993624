-- ===== src/Product/Aggregation.antt =====
-- tools/lis_verify/aggregation.py: what a status of a pass means for the product, and the exit code
-- of a verdict.
pub mod Totality
use local_inference_system.Base.{
  ℕ, String, Bool, true, false, Option, none, some, List, [], ◌∷◌, ◌==◌, string_eq, nat_eq,
  if◌then◌else◌, Outcome, ok, err, ◌>>=◌,
}
use local_inference_system.Product.Model.{
  CustomerVerdict, unsupported, harness_error, inconclusive, ExecutionPolicy, default,
  require_supported, AggregationAction, continue, stop, inherit, retain_proven_regression,
  not_applicable,
}
use local_inference_system.Product.Contract.{expected_exit_code}
use local_inference_system.Product.Actions.{Entries, pass_status_actions}

pub record AggregationDecision : Type 0 where
  pub action : AggregationAction
  pub target : String

-- `table[key]`, none for the KeyError
unfoldable pub lookup {ℓ} : {A : Type ℓ} → List (String × A) → String → Option A
lookup [] key = none
lookup ((k, a) ∷ rest) key = let later = lookup rest key in if k == key then some a else later

-- `AggregationAction(text)`
unfoldable pub action_of : String → Option AggregationAction
action_of text =
    lookup
      (("continue", continue)
        ∷ ("stop", stop)
        ∷ ("inherit", inherit)
        ∷ ("retain_proven_regression_and_block_localization", retain_proven_regression)
        ∷ ("not_applicable", not_applicable)
        ∷ [])
      text

-- The decision, or the text of a ValueError.
unfoldable pub decide : Option (String × String) → Outcome String AggregationDecision
decide none = err "unknown Pass-local status; contract amendment required"
decide (some (action, target)) = elim (action_of action) [
  | none ↦ err "not a valid AggregationAction"
  | some known ↦ ok (record { action = known; target = target })
]

unfoldable pub resolve_pass_status : String → String → Outcome String AggregationDecision
resolve_pass_status pass_name status = elim (lookup pass_status_actions pass_name) [
  | none ↦ decide none
  | some entries ↦ decide (lookup entries status)
]

-- `PASS0_BLOCK_REASON_VERDICTS`
abbrev pub pass0_block_reason_verdicts : List (String × CustomerVerdict)
pass0_block_reason_verdicts =
    ("incompatible_decode_policy", unsupported)
    ∷ ("input_token_divergence", harness_error)
    ∷ ("incompatible_model_family", unsupported)
    ∷ ("config_fingerprint_mismatch", harness_error)
    ∷ ("external_oracle_ineligible", unsupported)
    ∷ ("prompt_token_array_missing", inconclusive)
    ∷ ("prompt_token_identity_unverified", inconclusive)
    ∷ []

unfoldable pub resolve_pass0_block_reason : String → Outcome String CustomerVerdict
resolve_pass0_block_reason reason = elim (lookup pass0_block_reason_verdicts reason) [
  | none ↦ err "unknown Pass 0 blocking reason"
  | some verdict ↦ ok verdict
]

-- `policy.value`
unfoldable pub policy_value : ExecutionPolicy → String
policy_value default = "default"
policy_value require_supported = "require_supported"

pub record PolicyResult : Type 0 where
  pub policy : String
  pub satisfied : Bool
  pub exit_code : ℕ
  pub reason : String

unfoldable pub policy_result_for : CustomerVerdict → Bool → String → PolicyResult
policy_result_for verdict supported reason =
    let policy = if supported then require_supported else default in
    let exit_code = expected_exit_code verdict policy in
    record {
      policy = policy_value policy;
      satisfied = exit_code == 0;
      exit_code = exit_code;
      reason = reason;
    }
