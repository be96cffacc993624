-- ===== src/Product/Validation.antt =====
-- tools/lis_verify/product_contract.py: `validate_ledger_events`.
use local_inference_system.Base.{
  ℕ, suc, String, Bool, true, false, not, ◌&&◌, Option, none, some, List, [], ◌∷◌, ◌==◌, ◌!=◌,
  nat_eq, string_eq, if◌then◌else◌, contains, length, leb, Outcome, ok, err, ◌>>=◌, ◌>>◌, require,
}
use local_inference_system.Json.Value.{dict}
use local_inference_system.Tokens.Reports.{Host}
use local_inference_system.Product.Contract.{canonical_stages, Checked}
use local_inference_system.Product.Events.{
  WorkflowClassification, workflow_classification_eq, LedgerEvent, attempt_started, stage_started,
  stage_finished, cleanup_observed, attempt_finished, Entry, payload_of, entry_bytes,
  max_ledger_event_bytes, cli_modes, scan_privacy, is_attempt_id, is_timestamp, text_lt,
}

-- The local variables of the loop; the three counts are those that are read after it.
pub record Scan : Type 0 where
  pub expected_sequence : ℕ
  pub identity : Option (String × WorkflowClassification)
  pub previous_timestamp : Option String
  pub started_stages : List String
  pub finished_stages : List String
  pub starts : ℕ
  pub cleanups : ℕ
  pub finishes : ℕ

abbrev pub empty_scan : Scan
empty_scan = record {
  expected_sequence = 0;
  identity = none;
  previous_timestamp = none;
  started_stages = [];
  finished_stages = [];
  starts = 0;
  cleanups = 0;
  finishes = 0;
}

-- The timestamp is not before the previous one.
unfoldable pub is_monotonic : Option String → String → Bool
is_monotonic none timestamp = true
is_monotonic (some previous) timestamp = not (text_lt timestamp previous)

unfoldable pub same_identity : Option (String × WorkflowClassification) → Entry → Bool
same_identity none e = true
same_identity (some (attempt, workflow)) e =
    e.attempt_id == attempt && e.workflow_classification == workflow

-- The checks and the bookkeeping for one kind of event.
unfoldable pub scan_event : Scan → LedgerEvent → Outcome String Scan
scan_event s (attempt_started mode) =
    if contains mode cli_modes
    then ok (record s { starts = suc s.starts })
    else err "ledger attempt mode is unknown"
scan_event s (stage_started stage) =
    if not (contains stage canonical_stages)
    then err "ledger stage is unknown"
    else if contains stage s.started_stages
    then err "ledger stage retry requires a new attempt identity"
    else ok (record s { started_stages = stage ∷ s.started_stages })
scan_event s (stage_finished stage state) =
    if not (contains stage s.started_stages)
    then err "ledger stage finished before it started"
    else if contains stage s.finished_stages
    then err "ledger stage finished more than once"
    else ok (record s { finished_stages = stage ∷ s.finished_stages })
scan_event s (cleanup_observed residue) = ok (record s { cleanups = suc s.cleanups })
scan_event s (attempt_finished verdict) = ok (record s { finishes = suc s.finishes })

-- What is remembered of an entry that passed.
unfoldable pub advance : Scan → Entry → Scan
advance s e = record s {
  expected_sequence = suc s.expected_sequence;
  identity = some (e.attempt_id, e.workflow_classification);
  previous_timestamp = some e.timestamp_utc;
}

unfoldable pub scan_entry : Host → Scan → Entry → Outcome String Scan
scan_entry host s e =
    if e.sequence != s.expected_sequence
    then err "ledger sequence must be contiguous from zero"
    else if not (is_attempt_id e.attempt_id)
    then err "ledger attempt identity is not canonical"
    else if not (is_timestamp e.timestamp_utc)
    then err "ledger timestamp must be RFC3339 UTC seconds"
    else if not (is_monotonic s.previous_timestamp e.timestamp_utc)
    then err "ledger timestamps must be monotonic"
    else do
      counted ← scan_event s e.event
      private ← scan_privacy (dict (payload_of e.event))
      if not (leb (entry_bytes host e) max_ledger_event_bytes)
          then err "ledger event exceeds its byte bound"
          else if not (same_identity s.identity e)
          then err "ledger identity changed within one attempt"
          else ok (advance counted e)

unfoldable pub scan_entries : Host → Scan → List Entry → Outcome String Scan
scan_entries host s [] = ok s
scan_entries host s (e ∷ es) = do next ← scan_entry host s e; scan_entries host next es

unfoldable pub is_start : Option Entry → Bool
is_start none = false
is_start (some e) = elim e.event [ attempt_started mode ↦ true | _ ↦ false ]

unfoldable pub is_finish : Option Entry → Bool
is_finish none = false
is_finish (some e) = elim e.event [ attempt_finished verdict ↦ true | _ ↦ false ]

unfoldable pub first_entry : List Entry → Option Entry
first_entry [] = none
first_entry (e ∷ es) = some e

unfoldable pub last_entry : List Entry → Option Entry
last_entry [] = none
last_entry (e ∷ []) = some e
last_entry (e ∷ es) = last_entry es

unfoldable pub within : List String → List String → Bool
within [] ys = true
within (x ∷ xs) ys = contains x ys && within xs ys

-- `==` of two sets
unfoldable pub same_set : List String → List String → Bool
unfolding within
same_set xs ys = within xs ys && within ys xs

-- The checks that follow the loop.
unfoldable pub validate_scan : List Entry → Scan → Checked
validate_scan raw s =
    require (is_start (first_entry raw)) "ledger must start with attempt_started"
    >> require (is_finish (last_entry raw)) "ledger must end with attempt_finished"
    >> require (s.starts == 1) "ledger must contain exactly one attempt_started"
    >> require (s.finishes == 1) "ledger must contain exactly one attempt_finished"
    >> require (s.cleanups == 1) "ledger must contain exactly one cleanup observation"
    >> require (same_set s.started_stages s.finished_stages)
        "every started ledger stage must finish in the same attempt"

unfoldable pub validate_ledger_events : Host → List Entry → Checked
validate_ledger_events host raw =
    if not (leb 2 (length raw))
    then err "ledger requires at least start and finish events"
    else do s ← scan_entries host empty_scan raw; validate_scan raw s
