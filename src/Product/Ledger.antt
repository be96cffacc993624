-- ===== src/Product/Ledger.antt =====
-- tools/lis_verify/ledger.py: the append-only ledger of an attempt. The proofs are in the modules
-- below.
pub mod Valid
pub mod Privacy
pub mod Recording
pub mod Methods
pub mod Attempt
use local_inference_system.Base.{
  ℕ, zero, suc, ◌+◌, String, Bool, true, false, not, ◌&&◌, ◌||◌, Option, none, some, List, [], ◌∷◌,
  ◌++◌, ◌==◌, nat_eq, string_eq, if◌then◌else◌, contains, is_nonempty, length, leb, Outcome, ok,
  err, ◌>>=◌, ◌>>◌,
}
use local_inference_system.Tokens.Reports.{Host}
use local_inference_system.Product.Model.{CustomerVerdict, StageState}
use local_inference_system.Product.Contract.{canonical_stages}
use local_inference_system.Product.Events.{
  WorkflowClassification, ResidueStatus, LedgerEvent, attempt_started, stage_started,
  stage_finished, cleanup_observed, attempt_finished, Entry, entry_bytes, max_ledger_event_bytes,
  cli_modes, text_lt,
}
use local_inference_system.Product.Validation.{
  is_monotonic, last_entry, same_set, validate_ledger_events,
}

-- The file's descriptor, device, inode and expected size are the file system's part, and are seen
-- only through `Tick`.
pub record AppendOnlyLedger : Type 0 where
  pub attempt_id : String
  pub workflow : WorkflowClassification
  pub events : List Entry
  pub started_stages : List String
  pub finished_stages : List String
  pub cleanup_written : Bool
  pub finished : Bool

-- What an append meets outside: whether the file is still this ledger's, the clock, and whether the
-- whole entry is written and synchronized.
pub record Tick : Type 0 where
  pub authority : Bool
  pub timestamp : String
  pub written : Bool

-- What a method leaves, or the text of its error.
abbrev pub Attempt : Type 0
Attempt = Outcome String AppendOnlyLedger

-- `__init__`, once the file is created.
unfoldable pub open_ledger : String → WorkflowClassification → AppendOnlyLedger
open_ledger attempt_id workflow = record {
  attempt_id = attempt_id;
  workflow = workflow;
  events = [];
  started_stages = [];
  finished_stages = [];
  cleanup_written = false;
  finished = false;
}

unfoldable pub entry_of : AppendOnlyLedger → LedgerEvent → String → Entry
entry_of l event timestamp = record {
  sequence = length l.events;
  attempt_id = l.attempt_id;
  workflow_classification = l.workflow;
  event = event;
  timestamp_utc = timestamp;
}

-- The timestamp of the last event.
unfoldable pub last_timestamp : List Entry → Option String
last_timestamp events = elim (last_entry events) [ none ↦ none | some e ↦ some e.timestamp_utc ]

module _ (host : Host) where
  -- `_append`
  unfoldable pub append : AppendOnlyLedger → LedgerEvent → Tick → Attempt
  append l event tick =
      if l.finished
      then err "attempt ledger is already finished"
      else if not tick.authority
      then err "attempt ledger changed outside append-only authority"
      else if not (is_monotonic (last_timestamp l.events) tick.timestamp)
      then err "attempt ledger clock moved backwards"
      else if not (leb (entry_bytes host (entry_of l event tick.timestamp)) max_ledger_event_bytes)
      then err "attempt ledger event exceeds its byte bound"
      else if not tick.written
      then err "attempt ledger append made no progress"
      else ok (record l { events = l.events ++ (entry_of l event tick.timestamp ∷ []) })

  unfoldable pub start_attempt : AppendOnlyLedger → String → Tick → Attempt
  start_attempt l mode tick =
      if is_nonempty l.events
      then err "attempt already started"
      else if not (contains mode cli_modes)
      then err "attempt mode is unknown"
      else append l (attempt_started mode) tick

  unfoldable pub start_stage : AppendOnlyLedger → String → Tick → Attempt
  start_stage l stage tick =
      if not (is_nonempty l.events)
      then err "attempt has not started"
      else if not (contains stage canonical_stages) || contains stage l.started_stages
      then err "invalid or repeated stage start"
      else do
        next ← append l (stage_started stage) tick
        ok (record next { started_stages = stage ∷ next.started_stages })

  unfoldable pub finish_stage : AppendOnlyLedger → String → StageState → Tick → Attempt
  finish_stage l stage state tick =
      if not (contains stage l.started_stages) || contains stage l.finished_stages
      then err "stage finish does not match one active start"
      else do
        next ← append l (stage_finished stage state) tick
        ok (record next { finished_stages = stage ∷ next.finished_stages })

  unfoldable pub observe_cleanup : AppendOnlyLedger → ResidueStatus → Tick → Attempt
  observe_cleanup l residue tick =
      if l.cleanup_written then err "cleanup observation is already recorded" else do
        next ← append l (cleanup_observed residue) tick
        ok (record next { cleanup_written = true })

  -- The clock is read for the candidate that is validated, and again for the entry.
  unfoldable pub finish_attempt : AppendOnlyLedger → CustomerVerdict → String → Tick → Attempt
  finish_attempt l verdict timestamp tick =
      if not l.cleanup_written
      then err "cleanup must be observed before attempt finish"
      else if not (same_set l.started_stages l.finished_stages)
      then err "all started stages must finish"
      else do
        valid ←
            validate_ledger_events host
              (l.events ++ (entry_of l (attempt_finished verdict) timestamp ∷ []))
        next ← append l (attempt_finished verdict) tick
        ok (record next { finished = true })

-- `abort`
unfoldable pub abort : AppendOnlyLedger → AppendOnlyLedger
abort l = record l { finished = true }
