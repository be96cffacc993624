-- ===== src/Product/LedgerTests.antt =====
-- A small attempt's ledger, and its theorems there.
use local_inference_system.Base.{
  ℕ, String, true, false, [], ◌∷◌, ◌≡◌, refl, ok, String_discrete, Nat_discrete,
}
use local_inference_system.Json.Render.{canonical_json}
use local_inference_system.Tokens.Tests.{host}
use local_inference_system.Product.Model.{inconclusive}
use local_inference_system.Product.Contract.{utf8_length, after_prefix, hex_digits}
use local_inference_system.Product.Events.{
  scan_privacy, payload_of, is_absolute_path, WorkflowClassification-discrete,
  development_debugging, LedgerEvent, attempt_started, cleanup_observed, attempt_finished,
  none_observed, Entry, entry_bytes, is_attempt_id, is_timestamp, fits_pattern, text_lt,
}
use local_inference_system.Product.Validation.{
  scan_entries, scan_entry, scan_event, same_identity, advance, validate_scan, is_start,
  first_entry, is_finish, is_monotonic, same_set, within, last_entry, validate_ledger_events,
}
use local_inference_system.Product.Ledger.{
  AppendOnlyLedger, Tick, open_ledger, entry_of, last_timestamp, append, start_attempt,
  observe_cleanup, finish_attempt,
}
use local_inference_system.Product.Ledger.Valid.{finish_attempt-valid}
use local_inference_system.Product.Ledger.Attempt.{
  Kept, began, cleaned, Fits, finish_attempt-returns,
}

abbrev identity : String
identity = "lisa1:0123456789abcdef0123456789abcdef"

abbrev entry : ℕ → LedgerEvent → String → Entry
entry sequence event timestamp = record {
  sequence = sequence;
  attempt_id = identity;
  workflow_classification = development_debugging;
  event = event;
  timestamp_utc = timestamp;
}

abbrev tick : String → Tick
tick timestamp = record { authority = true; timestamp = timestamp; written = true }

abbrev started : AppendOnlyLedger
started = record {
  attempt_id = identity;
  workflow = development_debugging;
  events = entry 0 (attempt_started "demo") "2026-01-01T00:00:00Z" ∷ [];
  started_stages = [];
  finished_stages = [];
  cleanup_written = false;
  finished = false;
}

abbrev clean : AppendOnlyLedger
clean = record started {
  events =
      entry 0 (attempt_started "demo") "2026-01-01T00:00:00Z"
      ∷ entry 1 (cleanup_observed none_observed) "2026-01-01T00:00:05Z"
      ∷ [];
  cleanup_written = true;
}

start_test :
    start_attempt host
      (open_ledger identity development_debugging)
      "demo"
      (tick "2026-01-01T00:00:00Z")
    ≡ ok started
unfolding start_attempt open_ledger String_discrete append is_monotonic last_timestamp last_entry
    entry_bytes utf8_length canonical_json entry_of
start_test = refl

cleanup_test : observe_cleanup host started none_observed (tick "2026-01-01T00:00:05Z") ≡ ok clean
unfolding observe_cleanup append is_monotonic last_timestamp last_entry text_lt Nat_discrete
    entry_bytes utf8_length canonical_json entry_of
cleanup_test = refl

identity_test : is_attempt_id identity ≡ true
unfolding is_attempt_id after_prefix hex_digits Nat_discrete
identity_test = refl

timestamp_test : is_timestamp "2026-01-01T00:00:05Z" ≡ true
unfolding is_timestamp fits_pattern Nat_discrete
timestamp_test = refl

Fits-test : Fits host clean (attempt_finished inconclusive) "2026-01-01T00:00:05Z"
unfolding is_monotonic last_timestamp last_entry text_lt Nat_discrete entry_bytes utf8_length
    canonical_json entry_of
Fits-test = (timestamp_test, refl, refl)

closed_test : same_set clean.started_stages clean.finished_stages ≡ true
unfolding same_set within
closed_test = refl

first_test : is_timestamp "2026-01-01T00:00:00Z" ≡ true
unfolding is_timestamp fits_pattern Nat_discrete
first_test = refl

kept : Kept host clean
kept =
    cleaned none_observed (tick "2026-01-01T00:00:05Z")
      (began identity development_debugging "demo" (tick "2026-01-01T00:00:00Z") identity_test
        first_test start_test)
      timestamp_test cleanup_test

finish_attempt-returns_example :
    (n : AppendOnlyLedger) × (finish_attempt host clean inconclusive "2026-01-01T00:00:05Z"
        (tick "2026-01-01T00:00:05Z")
      ≡ ok n)
    × (n.finished ≡ true)
    × (validate_ledger_events host n.events ≡ ok tt)
finish_attempt-returns_example =
    finish_attempt-returns host clean inconclusive "2026-01-01T00:00:05Z"
      (tick "2026-01-01T00:00:05Z") kept refl closed_test Fits-test Fits-test refl refl

abbrev complete : AppendOnlyLedger
complete = record clean {
  events =
      entry 0 (attempt_started "demo") "2026-01-01T00:00:00Z"
      ∷ entry 1 (cleanup_observed none_observed) "2026-01-01T00:00:05Z"
      ∷ entry 2 (attempt_finished inconclusive) "2026-01-01T00:00:05Z"
      ∷ [];
  finished = true;
}

finish_test :
    finish_attempt host clean inconclusive "2026-01-01T00:00:05Z" (tick "2026-01-01T00:00:05Z")
    ≡ ok complete
unfolding finish_attempt same_set validate_ledger_events scan_entries scan_entry Nat_discrete
    is_attempt_id after_prefix hex_digits is_timestamp fits_pattern is_monotonic scan_event
    String_discrete scan_privacy payload_of is_absolute_path same_identity advance validate_scan
    is_start first_entry is_finish last_entry within WorkflowClassification-discrete entry_bytes
    utf8_length canonical_json text_lt entry_of append last_timestamp
finish_test = refl

finish_attempt-valid_example : validate_ledger_events host complete.events ≡ ok tt
finish_attempt-valid_example =
    finish_attempt-valid host clean inconclusive "2026-01-01T00:00:05Z"
      (tick "2026-01-01T00:00:05Z") {n = complete} timestamp_test finish_test
