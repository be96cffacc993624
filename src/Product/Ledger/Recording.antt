-- ===== src/Product/Ledger/Recording.antt =====
-- The validation at the end of an attempt never fails on a ledger that was kept by the methods.
use local_inference_system.Base.{
  ℕ, String, Bool, true, false, some, List, [], ◌∷◌, ◌++◌, ◌≡◌, refl, arith, nat_eq, string_eq,
  length, leb, ok, ◌∙◌, sym,
}
use local_inference_system.Json.Value.{dict}
use local_inference_system.Tokens.Reports.{Host}
use local_inference_system.Product.Events.{
  workflow_classification_eq, LedgerEvent, Entry, payload_of, entry_bytes, max_ledger_event_bytes,
  scan_privacy, is_attempt_id, is_timestamp,
}
use local_inference_system.Product.Validation.{
  Scan, empty_scan, is_monotonic, same_identity, scan_event, advance, scan_entry, scan_entries,
  is_start, first_entry,
}
use local_inference_system.Product.Ledger.{AppendOnlyLedger, Tick, entry_of, last_timestamp, append}
use local_inference_system.Product.Ledger.Privacy.{is_private, every}
use local_inference_system.Product.Ledger.Valid.{
  scan_entries-append, scan_entry-accepts, empty_scan-previous, append-ok, length-append,
}

abbrev pub count : Bool → ℕ
count true = 1
count false = 0

-- What the validation knows after the events so far is what the ledger keeps.
pub record IsRecorded (host : Host) (l : AppendOnlyLedger) : Type 0 where
  pub scan : Scan
  pub scanned : scan_entries host empty_scan l.events ≡ ok scan
  pub sequence : scan.expected_sequence ≡ length l.events
  pub identity : scan.identity ≡ some (l.attempt_id, l.workflow)
  pub canonical_id : is_attempt_id l.attempt_id ≡ true
  pub started : scan.started_stages ≡ l.started_stages
  pub ended : scan.finished_stages ≡ l.finished_stages
  pub starts : scan.starts ≡ 1
  pub finishes : scan.finishes ≡ 0
  pub cleanups : scan.cleanups ≡ count l.cleanup_written
  pub first : is_start (first_entry l.events) ≡ true
  pub private : every is_private l.started_stages ≡ true
  pub unfinished : l.finished ≡ false

same_identity-own :
    (l : AppendOnlyLedger) (event : LedgerEvent) (t : String)
    → same_identity (some (l.attempt_id, l.workflow)) (entry_of l event t) ≡ true
unfolding same_identity entry_of
same_identity-own l event t = ground arith

module _ (host : Host) where
  -- The entry of an event that the scan accepts is accepted.
  pub entry-accepted :
      (l : AppendOnlyLedger) (w : IsRecorded host l) (event : LedgerEvent) (timestamp : String)
      (counted : Scan)
      → scan_event w.scan event ≡ ok counted
      → scan_privacy (dict (payload_of event)) ≡ ok tt
      → is_timestamp timestamp ≡ true
      → is_monotonic (last_timestamp l.events) timestamp ≡ true
      → leb (entry_bytes host (entry_of l event timestamp)) max_ledger_event_bytes ≡ true
      → scan_entry host w.scan (entry_of l event timestamp)
        ≡ ok (advance counted (entry_of l event timestamp))
  unfolding entry_of
  entry-accepted l w event timestamp counted c private clock monotonic bounded =
      scan_entry-accepts host w.scan (entry_of l event timestamp) counted c (sym w.sequence)
        w.canonical_id private (rw w.identity (same_identity-own l event timestamp)) clock
        (rw (empty_scan-previous host l.events w.scanned) monotonic) bounded

  -- What an append adds to the scan.
  append-scanned :
      (l : AppendOnlyLedger) (w : IsRecorded host l) (event : LedgerEvent) (tick : Tick)
      {n : AppendOnlyLedger} (counted : Scan)
      → append host l event tick ≡ ok n
      → scan_event w.scan event ≡ ok counted
      → scan_privacy (dict (payload_of event)) ≡ ok tt
      → is_timestamp tick.timestamp ≡ true
      → scan_entries host empty_scan n.events
        ≡ ok (advance counted (entry_of l event tick.timestamp))
  append-scanned l w event tick {n} counted h c private clock =
      let (kept, monotonic, bounded) = append-ok host l event tick h in
      let e = entry_of l event tick.timestamp in
      let accepted =
        entry-accepted l w event tick.timestamp counted c private clock monotonic bounded in
      rw kept (scan_entries-append host empty_scan l.events e ∙ rw w.scanned accepted)

  pub is_start-kept :
      (es : List Entry) (e : Entry)
      → is_start (first_entry es) ≡ true
      → is_start (first_entry (es ++ (e ∷ []))) ≡ true
  unfolding first_entry is_start
  is_start-kept [] e h = cc
  is_start-kept (x ∷ es) e h = h

  -- What a method that appends leaves is recorded, if its own fields follow the scan.
  pub append-IsRecorded :
      (l : AppendOnlyLedger) (w : IsRecorded host l) (event : LedgerEvent) (tick : Tick)
      {next : AppendOnlyLedger} (counted : Scan)
      → append host l event tick ≡ ok next
      → scan_event w.scan event ≡ ok counted
      → scan_privacy (dict (payload_of event)) ≡ ok tt
      → is_timestamp tick.timestamp ≡ true
      → (started finished : List String) (cleaned : Bool)
      → (counted.expected_sequence ≡ w.scan.expected_sequence)
        × (counted.started_stages ≡ started)
        × (counted.finished_stages ≡ finished)
        × (counted.starts ≡ 1)
        × (counted.finishes ≡ 0)
        × (counted.cleanups ≡ count cleaned)
      → every is_private started ≡ true
      → IsRecorded host (record l {
        events = l.events ++ (entry_of l event tick.timestamp ∷ []);
        started_stages = started;
        finished_stages = finished;
        cleanup_written = cleaned;
      })
  append-IsRecorded l w event tick {next} counted h c private clock started finished cleaned
        (sequence, s, f, one, zero', cleanups) started_private =
      let (kept, monotonic, bounded) = append-ok host l event tick h in
      let e = entry_of l event tick.timestamp in
      record {
        scan = advance counted e;
        scanned = rw kept at (append-scanned l w event tick counted h c private clock);
        sequence = unfold advance in ground (arith, w.sequence, length-append l.events e);
        identity = unfold advance in unfold entry_of in refl;
        canonical_id = w.canonical_id;
        started = unfold advance in s;
        ended = unfold advance in f;
        starts = unfold advance in one;
        finishes = unfold advance in zero';
        cleanups = unfold advance in cleanups;
        first = is_start-kept l.events e w.first;
        private = started_private;
        unfinished = w.unfinished;
      }
