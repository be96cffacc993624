-- ===== src/Product/Events.antt =====
-- tools/lis_verify/product_contract.py: the entries of an attempt's ledger and their validation. An
-- entry is read with the types of its fields, so the checks of keys and enums hold of it.
use Prim.Native.Char.{code}
use local_inference_system.Base.{
  ℕ, suc, String, Bool, true, false, not, ◌&&◌, ◌||◌, none, some, List, [], ◌∷◌, ◌==◌, nat_eq,
  string_eq, option_eq, if◌then◌else◌, contains, leb, ltb, ok, ◌>>◌, require, Eq,
}
use local_inference_system.Base.Text.{concat}
use local_inference_system.Json.Number.{pos}
use local_inference_system.Json.Value.{
  Value, int, str, list, dict, Items, nil, cons, Fields, end, field,
}
use local_inference_system.Json.Render.{canonical_json}
use local_inference_system.Tokens.Reports.{Host}
use local_inference_system.Product.Model.{
  CustomerVerdict, pass, regression, inconclusive, unsupported, harness_error, StageState, executed,
  not_applicable, blocked, failed,
}
use local_inference_system.Product.Contract.{Checked, utf8_length, after_prefix, hex_digits}

pub data WorkflowClassification : Type 0 where
  development_debugging verification_acceptance : WorkflowClassification

pub data ResidueStatus : Type 0 where
  none_observed present unknown retained_debug : ResidueStatus

-- An event with its payload.
pub data LedgerEvent : Type 0 where
  attempt_started : String → LedgerEvent
  stage_started : String → LedgerEvent
  stage_finished : String → StageState → LedgerEvent
  cleanup_observed : ResidueStatus → LedgerEvent
  attempt_finished : CustomerVerdict → LedgerEvent

pub record Entry : Type 0 where
  pub sequence : ℕ
  pub attempt_id : String
  pub workflow_classification : WorkflowClassification
  pub event : LedgerEvent
  pub timestamp_utc : String

unfoldable pub WorkflowClassification-discrete : Discrete WorkflowClassification
WorkflowClassification-discrete = hlevel

instance abbrev pub workflow_classification_eq : Eq WorkflowClassification
workflow_classification_eq = record { same = WorkflowClassification-discrete }

unfoldable pub workflow_value : WorkflowClassification → String
workflow_value development_debugging = "development_debugging"
workflow_value verification_acceptance = "verification_acceptance"

unfoldable pub residue_value : ResidueStatus → String
residue_value none_observed = "none_observed"
residue_value present = "present"
residue_value unknown = "unknown"
residue_value retained_debug = "retained_debug"

unfoldable pub stage_state_value : StageState → String
stage_state_value executed = "executed"
stage_state_value not_applicable = "not_applicable"
stage_state_value blocked = "blocked"
stage_state_value failed = "failed"

unfoldable pub verdict_value : CustomerVerdict → String
verdict_value pass = "PASS"
verdict_value regression = "REGRESSION"
verdict_value inconclusive = "INCONCLUSIVE"
verdict_value unsupported = "UNSUPPORTED"
verdict_value harness_error = "HARNESS_ERROR"

unfoldable pub event_value : LedgerEvent → String
event_value (attempt_started mode) = "attempt_started"
event_value (stage_started stage) = "stage_started"
event_value (stage_finished stage state) = "stage_finished"
event_value (cleanup_observed residue) = "cleanup_observed"
event_value (attempt_finished verdict) = "attempt_finished"

unfoldable pub payload_of : LedgerEvent → Fields
unfolding stage_state_value residue_value verdict_value
payload_of (attempt_started mode) = field "mode" (str mode) end
payload_of (stage_started stage) = field "stage" (str stage) end
payload_of (stage_finished stage state) =
    field "stage" (str stage) (field "state" (str (stage_state_value state)) end)
payload_of (cleanup_observed residue) = field "residue_status" (str (residue_value residue)) end
payload_of (attempt_finished verdict) = field "verdict" (str (verdict_value verdict)) end

unfoldable pub entry_value : Entry → Value
unfolding event_value payload_of workflow_value
entry_value e = dict (
    field "sequence" (int (pos e.sequence)) (
      field "attempt_id" (str e.attempt_id) (
        field "workflow_classification" (str (workflow_value e.workflow_classification)) (
          field "event" (str (event_value e.event)) (
            field "timestamp_utc" (str e.timestamp_utc)
              (field "payload" (dict (payload_of e.event)) end))))))

-- `len(canonical_json_bytes(entry))`, which ends with a newline
unfoldable pub entry_bytes : Host → Entry → ℕ
unfolding entry_value
entry_bytes host e = suc (utf8_length (canonical_json host.float_repr (entry_value e)))

abbrev pub max_ledger_event_bytes : ℕ
max_ledger_event_bytes = 65536

abbrev pub cli_modes : List String
cli_modes = "demo" ∷ "backend" ∷ "runtime" ∷ []

abbrev pub prohibited_report_keys : List String
prohibited_report_keys =
    "raw_tensor_values" ∷ "raw_prompt_text" ∷ "raw_generated_text" ∷ "model_path"
    ∷ "temporary_artifact_path" ∷ "absolute_temporary_path" ∷ "full_forced_prefix_token_ids" ∷ []

-- `[A-Za-z]`
letter : ℕ → Bool
letter n = leb 65 n && leb n 90 || leb 97 n && leb n 122

-- Text that starts with `/`, or with a drive letter, a colon and a slash of either kind.
unfoldable pub is_absolute_path : String → Bool
unfolding letter
is_absolute_path String.[] = false
is_absolute_path (String.◌∷◌ c String.[]) = code c == 47
is_absolute_path (String.◌∷◌ c (String.◌∷◌ d String.[])) = code c == 47
is_absolute_path (String.◌∷◌ c (String.◌∷◌ d (String.◌∷◌ e s))) =
    code c == 47 || letter (code c) && code d == 58 && (code e == 92 || code e == 47)

-- `_scan_privacy`; every float is finite.
unfoldable mutual
  unfolding is_absolute_path

  pub scan_privacy : Value → Checked
  scan_privacy (dict fields) = scan_fields fields
  scan_privacy (list items) = scan_items items
  scan_privacy (str s) =
      require (not (is_absolute_path s)) "absolute paths are prohibited in the canonical report"
  scan_privacy _ = ok tt

  pub scan_items : Items → Checked
  scan_items nil = ok tt
  scan_items (cons value items) = let rest = scan_items items in scan_privacy value >> rest

  pub scan_fields : Fields → Checked
  scan_fields end = ok tt
  scan_fields (field key value fields) =
      let rest = scan_fields fields in
      let child = scan_privacy value in
      require (not (contains key prohibited_report_keys))
        (concat ("prohibited report field: " ∷ key ∷ []))
      >> child
      >> rest

-- `ATTEMPT_ID_RE.fullmatch(value)`
unfoldable pub is_attempt_id : String → Bool
is_attempt_id value = elim (after_prefix "lisa1:" value) [
  | none ↦ false
  | some digits ↦ hex_digits 32 digits
]

-- The text has the form of the pattern, where `0` stands for any digit.
unfoldable pub fits_pattern : String → String → Bool
fits_pattern String.[] String.[] = true
fits_pattern (String.◌∷◌ p ps) (String.◌∷◌ c s) =
    let rest = fits_pattern ps s in
    (if code p == 48 then leb 48 (code c) && leb (code c) 57 else code p == code c) && rest
fits_pattern _ _ = false

-- `UTC_TIMESTAMP_RE.fullmatch(value)`
unfoldable pub is_timestamp : String → Bool
is_timestamp value = fits_pattern "0000-00-00T00:00:00Z" value

-- `s < t`, by code points
unfoldable pub text_lt : String → String → Bool
text_lt String.[] String.[] = false
text_lt String.[] (String.◌∷◌ d t) = true
text_lt (String.◌∷◌ c s) String.[] = false
text_lt (String.◌∷◌ c s) (String.◌∷◌ d t) =
    let rest = text_lt s t in
    if ltb (code c) (code d) then true else if code c == code d then rest else false
