-- ===== src/Product/Contract.antt =====
-- tools/lis_verify/product_contract.py: the frozen stage graph, the exit codes, and the validation
-- of the stages of a report.

use Prim.Native.Char.{code}
use local_inference_system.Base.{
  ℕ, zero, suc, ◌+◌, String, Bool, true, false, not, ◌&&◌, ◌||◌, Option, none, some, List, [], ◌∷◌,
  map, ◌==◌, ◌!=◌, nat_eq, string_eq, option_eq, list_eq, if◌then◌else◌, contains, length, leb,
  is_some, Outcome, ok, err, ◌>>◌, require,
}
use local_inference_system.Base.Text.{concat}
use local_inference_system.Product.Model.{
  CustomerVerdict, pass, unsupported, harness_error, inconclusive, regression, ExecutionPolicy,
  default, require_supported, StageState, executed, not_applicable, blocked, failed, StageResult,
  stage_state_eq,
}

abbrev pub canonical_stages : List String
canonical_stages =
    "preflight" ∷ "reference_original_execution" ∷ "candidate_original_execution"
    ∷ "pass0_calibration" ∷ "pass1_token_localization" ∷ "pass2_prefix_policy_reproduction"
    ∷ "pass3a_discovery" ∷ "bounded_recapture" ∷ "pass3b_authoritative_localization"
    ∷ "pass4_intra_layer_localization" ∷ "aggregation" ∷ "cleanup" ∷ []

-- `STAGE_DEPENDENCIES`, the items in order
abbrev pub stage_dependencies : List (String × List String)
stage_dependencies =
    ("preflight", [])
    ∷ ("reference_original_execution", "preflight" ∷ [])
    ∷ ("candidate_original_execution", "preflight" ∷ [])
    ∷ ("pass0_calibration", "reference_original_execution" ∷ "candidate_original_execution" ∷ [])
    ∷ ("pass1_token_localization", "pass0_calibration" ∷ [])
    ∷ ("pass2_prefix_policy_reproduction", "pass1_token_localization" ∷ [])
    ∷ ("pass3a_discovery", "pass2_prefix_policy_reproduction" ∷ [])
    ∷ ("bounded_recapture", "pass3a_discovery" ∷ [])
    ∷ ("pass3b_authoritative_localization", "bounded_recapture" ∷ [])
    ∷ ("pass4_intra_layer_localization", "pass3b_authoritative_localization" ∷ [])
    ∷ (
      "aggregation",
      "preflight" ∷ "reference_original_execution" ∷ "candidate_original_execution"
          ∷ "pass0_calibration" ∷ "pass1_token_localization" ∷ [],
    )
    ∷ ("cleanup", "aggregation" ∷ [])
    ∷ []

-- `table[key]`; every stage is a key, and the empty list stands for the KeyError of another text.
unfoldable pub dependencies_of : List (String × List String) → String → List String
dependencies_of [] stage = []
dependencies_of ((name, needed) ∷ rest) stage =
    let later = dependencies_of rest stage in if name == stage then needed else later

unfoldable pub default_exit_code : CustomerVerdict → ℕ
default_exit_code pass = 0
default_exit_code unsupported = 0
default_exit_code harness_error = 2
default_exit_code inconclusive = 3
default_exit_code regression = 4

unfoldable pub require_supported_exit_code : CustomerVerdict → ℕ
unfolding default_exit_code
require_supported_exit_code unsupported = 6
require_supported_exit_code verdict = default_exit_code verdict

unfoldable pub expected_exit_code : CustomerVerdict → ExecutionPolicy → ℕ
unfolding default_exit_code require_supported_exit_code
expected_exit_code verdict default = default_exit_code verdict
expected_exit_code verdict require_supported = require_supported_exit_code verdict

-- The state that a dict of names to states has for a name, where a later entry wins.
unfoldable pub state_of : List StageResult → String → Option StageState
state_of [] name = none
state_of (r ∷ rs) name = elim (state_of rs name) [
  | some state ↦ some state
  | none ↦ if r.name == name then some r.state else none
]

-- Every dependency is an executed stage.
unfoldable pub all_executed : List StageResult → List String → Bool
all_executed rs [] = true
all_executed rs (d ∷ ds) = state_of rs d == some executed && all_executed rs ds

-- The bytes of the UTF-8 form.
unfoldable pub utf8_length : String → ℕ
utf8_length String.[] = 0
utf8_length (String.◌∷◌ c s) =
    let n = code c in
    (if leb n 0x7f then 1 else if leb n 0x7ff then 2 else if leb n 0xffff then 3 else 4)
    + utf8_length s

-- `count` lower-case hexadecimal digits and nothing else
unfoldable pub hex_digits : ℕ → String → Bool
hex_digits zero String.[] = true
hex_digits (suc count) (String.◌∷◌ c s) =
    let n = code c in (leb 48 n && leb n 57 || leb 97 n && leb n 102) && hex_digits count s
hex_digits _ _ = false

-- What follows the prefix, if the text begins with it.
unfoldable pub after_prefix : String → String → Option String
after_prefix String.[] value = some value
after_prefix (String.◌∷◌ p ps) (String.◌∷◌ c s) =
    let rest = after_prefix ps s in if code p == code c then rest else none
after_prefix _ _ = none

-- `SHA256_RE.fullmatch(value)`
unfoldable pub is_sha256 : String → Bool
unfolding after_prefix hex_digits
is_sha256 value = elim (after_prefix "sha256:" value) [
  | none ↦ false
  | some digits ↦ hex_digits 64 digits
]

abbrev pub Checked : Type 0
Checked = Outcome String Unit

-- `_require_string`
unfoldable pub require_string : Option String → String → ℕ → Checked
require_string none label maximum = err (concat (label ∷ " must be a non-empty string" ∷ []))
require_string (some value) label maximum =
    require (value != "") (concat (label ∷ " must be a non-empty string" ∷ []))
    >> require (leb (utf8_length value) maximum)
        (concat (label ∷ " exceeds its UTF-8 byte bound" ∷ []))

-- `_require_sha256`
unfoldable pub require_sha256 : Option String → String → Checked
require_sha256 none label = err (concat (label ∷ " must be a canonical sha256 identity" ∷ []))
require_sha256 (some value) label =
    require (is_sha256 value) (concat (label ∷ " must be a canonical sha256 identity" ∷ []))

abbrev pub max_identifier_bytes : ℕ
max_identifier_bytes = 128

abbrev pub max_detail_bytes : ℕ
max_detail_bytes = 256

abbrev pub in_canonical_stages : Option String → Bool
in_canonical_stages none = false
in_canonical_stages (some stage) = contains stage canonical_stages

-- What `_validate_stages` checks of one stage.
unfoldable pub validate_stage : StageResult → Checked
validate_stage r = elim r.state [
  | executed ↦
      require_sha256 r.result_ref "stage.result_ref"
      >> require_string r.evidence_tier "stage.evidence_tier" max_identifier_bytes
      >> require (not (is_some r.reason || is_some r.blocker))
          "executed stage cannot carry reason or blocker"
      >> require (not (is_some r.failure_class)) "executed stage cannot carry a failure class"
  | not_applicable ↦
      require_string r.reason "stage.reason" max_detail_bytes
      >> require
          (not (
            is_some r.result_ref
            || is_some r.evidence_tier
            || is_some r.failure_class
            || is_some r.blocker))
          "not_applicable stage fields are incoherent"
  | blocked ↦
      require_string r.reason "stage.reason" max_detail_bytes
      >> require (in_canonical_stages r.blocker) "blocked stage requires a canonical blocker"
      >> require (not (is_some r.result_ref || is_some r.evidence_tier || is_some r.failure_class))
          "blocked stage cannot carry a result"
  | failed ↦
      require_string r.failure_class "stage.failure_class" max_identifier_bytes
      >> require_string r.reason "stage.reason" max_detail_bytes
      >> require (not (is_some r.result_ref || is_some r.evidence_tier || is_some r.blocker))
          "failed stage fields are incoherent"
]

unfoldable pub validate_each : List StageResult → Checked
validate_each [] = ok tt
validate_each (r ∷ rs) = let rest = validate_each rs in validate_stage r >> rest

-- The loop over `STAGE_DEPENDENCIES.items()`.
unfoldable pub validate_dependencies : List StageResult → List (String × List String) → Checked
validate_dependencies rs [] = ok tt
validate_dependencies rs ((stage, needed) ∷ table) =
    let rest = validate_dependencies rs table in
    require (state_of rs stage != some executed || stage == "aggregation" || all_executed rs needed)
      "executed stage has a failed or blocked dependency"
    >> rest

-- `_validate_stages`, of stages that are read as `StageResult`s.
unfoldable pub validate_stages : List StageResult → Checked
validate_stages rs =
    require (length rs == length canonical_stages)
      "stages must contain the exact canonical stage count"
    >> require (map (λ r. r.name) rs == canonical_stages)
        "stages must use the exact canonical order"
    >> validate_each rs
    >> validate_dependencies rs stage_dependencies
