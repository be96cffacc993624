-- ===== src/Product/Ledger/Attempt.antt =====
-- The ledgers that the methods lead to, and the end of an attempt on them.
use local_inference_system.Base.{
  suc, String, true, List, [], ◌∷◌, ◌++◌, ◌≡◌, refl, arith, nat_eq, string_eq, length, leb, ok,
}
use local_inference_system.Tokens.Reports.{Host}
use local_inference_system.Product.Model.{CustomerVerdict, StageState}
use local_inference_system.Product.Events.{
  WorkflowClassification, LedgerEvent, attempt_finished, ResidueStatus, Entry, entry_bytes,
  max_ledger_event_bytes, is_attempt_id, is_timestamp,
}
use local_inference_system.Product.Validation.{
  Scan, is_monotonic, scan_event, advance, is_start, is_finish, first_entry, same_set,
  validate_scan, validate_ledger_events,
}
use local_inference_system.Product.Ledger.{
  AppendOnlyLedger, Tick, open_ledger, entry_of, last_timestamp, append, start_attempt, start_stage,
  finish_stage, observe_cleanup, finish_attempt,
}
use local_inference_system.Product.Ledger.Privacy.{verdict-private}
use local_inference_system.Product.Ledger.Valid.{validate-accepts, last_entry-append}
use local_inference_system.Product.Ledger.Methods.{
  start_attempt-IsRecorded, start_stage-IsRecorded, finish_stage-IsRecorded,
  observe_cleanup-IsRecorded,
}
use local_inference_system.Product.Ledger.Recording.{IsRecorded, entry-accepted, is_start-kept}

-- The ledgers of an attempt that was started under a canonical identity, and then kept by the other
-- methods, with a clock that gives canonical timestamps.
pub data Kept (host : Host) : AppendOnlyLedger → Type 0 where
  began :
      {n : AppendOnlyLedger} (attempt_id : String) (workflow : WorkflowClassification)
      (mode : String) (tick : Tick)
      → is_attempt_id attempt_id ≡ true
      → is_timestamp tick.timestamp ≡ true
      → start_attempt host (open_ledger attempt_id workflow) mode tick ≡ ok n
      → Kept host n
  stage_began :
      {l n : AppendOnlyLedger} (stage : String) (tick : Tick)
      → Kept host l
      → is_timestamp tick.timestamp ≡ true
      → start_stage host l stage tick ≡ ok n
      → Kept host n
  stage_ended :
      {l n : AppendOnlyLedger} (stage : String) (state : StageState) (tick : Tick)
      → Kept host l
      → is_timestamp tick.timestamp ≡ true
      → finish_stage host l stage state tick ≡ ok n
      → Kept host n
  cleaned :
      {l n : AppendOnlyLedger} (residue : ResidueStatus) (tick : Tick)
      → Kept host l
      → is_timestamp tick.timestamp ≡ true
      → observe_cleanup host l residue tick ≡ ok n
      → Kept host n

module _ (host : Host) where
  Kept-IsRecorded : {l : AppendOnlyLedger} → Kept host l → IsRecorded host l
  Kept-IsRecorded (began attempt_id workflow mode tick canonical clock h) =
      start_attempt-IsRecorded host attempt_id workflow mode tick canonical clock h
  Kept-IsRecorded (stage_began {l} stage tick kept clock h) =
      start_stage-IsRecorded host l (Kept-IsRecorded kept) stage tick clock h
  Kept-IsRecorded (stage_ended {l} stage state tick kept clock h) =
      finish_stage-IsRecorded host l (Kept-IsRecorded kept) stage state tick clock h
  Kept-IsRecorded (cleaned {l} residue tick kept clock h) =
      observe_cleanup-IsRecorded host l (Kept-IsRecorded kept) residue tick clock h

  -- An entry at this time goes into the ledger.
  abbrev pub Fits : AppendOnlyLedger → LedgerEvent → String → Type 0
  Fits l event timestamp =
      (is_timestamp timestamp ≡ true)
      × (is_monotonic (last_timestamp l.events) timestamp ≡ true)
      × (leb (entry_bytes host (entry_of l event timestamp)) max_ledger_event_bytes ≡ true)

  length-first :
      (es : List Entry) → is_start (first_entry es) ≡ true → leb 2 (suc (length es)) ≡ true
  unfolding first_entry is_start
  length-first [] h = cc
  length-first (e ∷ es) h = ground arith

  candidate_complete :
      (l : AppendOnlyLedger) (w : IsRecorded host l) (verdict : CustomerVerdict)
      (timestamp : String)
      → l.cleanup_written ≡ true
      → same_set l.started_stages l.finished_stages ≡ true
      → let e = entry_of l (attempt_finished verdict) timestamp in
        validate_scan
          (l.events ++ (e ∷ []))
          (advance (record w.scan { finishes = suc w.scan.finishes }) e)
        ≡ ok tt
  unfolding validate_scan advance is_finish entry_of
  candidate_complete l w verdict timestamp cleanup closed =
      let e = entry_of l (attempt_finished verdict) timestamp in
      let same : same_set w.scan.started_stages w.scan.finished_stages ≡ true =
        rw (w.started, w.ended) closed in
      ground (
        arith,
        is_start-kept host l.events e w.first,
        last_entry-append l.events e,
        w.starts,
        w.finishes,
        w.cleanups,
        cleanup,
        same,
      )

  candidate-valid :
      (l : AppendOnlyLedger) (verdict : CustomerVerdict) (timestamp : String)
      → IsRecorded host l
      → l.cleanup_written ≡ true
      → same_set l.started_stages l.finished_stages ≡ true
      → Fits l (attempt_finished verdict) timestamp
      → validate_ledger_events host
          (l.events ++ (entry_of l (attempt_finished verdict) timestamp ∷ []))
        ≡ ok tt
  candidate-valid l verdict timestamp w cleanup closed (clock, monotonic, bounded) =
      let event = attempt_finished verdict in
      let e = entry_of l event timestamp in
      let counted : Scan = record w.scan { finishes = suc w.scan.finishes } in
      let accepted =
        entry-accepted host l w event timestamp counted (unfold scan_event in refl)
          (verdict-private verdict) clock monotonic bounded in
      validate-accepts host l.events e w.scan (advance counted e) w.scanned accepted
        (candidate_complete l w verdict timestamp cleanup closed) (length-first l.events w.first)

  -- The end of an attempt does not fail on a ledger that was kept by the methods: once the cleanup is
  -- observed and the started stages are the finished ones, an entry that fits at both readings of the
  -- clock, and that the file takes, finishes the ledger.
  pub finish_attempt-returns :
      (l : AppendOnlyLedger) (verdict : CustomerVerdict) (timestamp : String) (tick : Tick)
      → Kept host l
      → l.cleanup_written ≡ true
      → same_set l.started_stages l.finished_stages ≡ true
      → Fits l (attempt_finished verdict) timestamp
      → Fits l (attempt_finished verdict) tick.timestamp
      → tick.authority ≡ true
      → tick.written ≡ true
      → (n : AppendOnlyLedger) × (finish_attempt host l verdict timestamp tick ≡ ok n)
        × (n.finished ≡ true)
        × (validate_ledger_events host n.events ≡ ok tt)
  unfolding finish_attempt append
  finish_attempt-returns l verdict timestamp tick kept cleanup closed first second authority
        written =
      let w = Kept-IsRecorded kept in
      let valid = candidate-valid l verdict timestamp w cleanup closed first in
      let final = candidate-valid l verdict tick.timestamp w cleanup closed second in
      (
        record l {
          events = l.events ++ (entry_of l (attempt_finished verdict) tick.timestamp ∷ []);
          finished = true;
        },
        ground (arith, valid, w.unfinished, second, cleanup, closed, authority, written),
        refl,
        final,
      )
