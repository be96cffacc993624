-- ===== src/Product/Ledger/Methods.antt =====
-- Each method leaves a ledger that is recorded.
use local_inference_system.Base.{
  suc, String, true, false, ◌∷◌, ◌≡◌, refl, arith, nat_eq, string_eq, Outcome-cases, ok, inl, inr,
  contains,
}
use local_inference_system.Tokens.Reports.{Host}
use local_inference_system.Product.Model.{StageState}
use local_inference_system.Product.Contract.{canonical_stages}
use local_inference_system.Product.Events.{
  WorkflowClassification, attempt_started, stage_started, stage_finished, cleanup_observed,
  ResidueStatus, is_attempt_id, is_timestamp, cli_modes,
}
use local_inference_system.Product.Validation.{
  Scan, empty_scan, is_monotonic, same_identity, scan_event, advance, scan_entry, scan_entries,
  is_start, first_entry,
}
use local_inference_system.Product.Ledger.{
  AppendOnlyLedger, Tick, open_ledger, entry_of, append, start_attempt, start_stage, finish_stage,
  observe_cleanup,
}
use local_inference_system.Product.Ledger.Privacy.{
  is_private, every-contains, canonical_stages-private, cli_modes-private, started-private,
  mode-private, finished-private, cleanup-private,
}
use local_inference_system.Product.Ledger.Valid.{scan_entry-accepts, append-ok}
use local_inference_system.Product.Ledger.Recording.{IsRecorded, append-IsRecorded}

module _ (host : Host) where
  pub start_attempt-IsRecorded :
      (attempt_id : String) (workflow : WorkflowClassification) (mode : String) (tick : Tick)
      {n : AppendOnlyLedger}
      → is_attempt_id attempt_id ≡ true
      → is_timestamp tick.timestamp ≡ true
      → start_attempt host (open_ledger attempt_id workflow) mode tick ≡ ok n
      → IsRecorded host n
  unfolding start_attempt open_ledger
  start_attempt-IsRecorded attempt_id workflow mode tick {n} canonical clock h =
      let l = open_ledger attempt_id workflow in
      let (known, p) : (contains mode cli_modes ≡ true)
          × (append host l (attempt_started mode) tick ≡ ok n) =
        ground arith in
      let (kept, monotonic, bounded) = append-ok host l (attempt_started mode) tick p in
      let e = entry_of l (attempt_started mode) tick.timestamp in
      let counted : Scan = record empty_scan { starts = 1 } in
      let private = every-contains is_private cli_modes mode cli_modes-private known in
      let accepted : scan_entry host empty_scan e ≡ ok (advance counted e) =
        scan_entry-accepts host empty_scan e counted
          (unfold scan_event in unfold entry_of in ground (arith, known)) (unfold entry_of in refl)
          (unfold entry_of in canonical) (unfold entry_of in mode-private mode private)
          (unfold same_identity in refl) (unfold entry_of in clock) (unfold is_monotonic in refl)
          bounded in
      rw kept (record {
        scan = advance counted e;
        scanned = unfold scan_entries in rw accepted refl;
        sequence = unfold advance in refl;
        identity = unfold advance in unfold entry_of in refl;
        canonical_id = canonical;
        started = unfold advance in refl;
        ended = unfold advance in refl;
        starts = unfold advance in refl;
        finishes = unfold advance in refl;
        cleanups = unfold advance in refl;
        first = unfold is_start in unfold first_entry in unfold entry_of in refl;
        private = refl;
        unfinished = refl;
      })

  pub start_stage-IsRecorded :
      (l : AppendOnlyLedger) (w : IsRecorded host l) (stage : String) (tick : Tick)
      {n : AppendOnlyLedger}
      → is_timestamp tick.timestamp ≡ true
      → start_stage host l stage tick ≡ ok n
      → IsRecorded host n
  unfolding start_stage
  start_stage-IsRecorded l w stage tick {n} clock h =
      elim (Outcome-cases (append host l (stage_started stage) tick)) [
        | inl (next, p) ↦
            let (kept, monotonic, bounded) = append-ok host l (stage_started stage) tick p in
            let (known, fresh, result) : (contains stage canonical_stages ≡ true)
                × (contains stage l.started_stages ≡ false)
                × (n ≡ record next { started_stages = stage ∷ next.started_stages }) =
              ground (arith, p) in
            let private =
              every-contains is_private canonical_stages stage canonical_stages-private known in
            let counted : Scan = record w.scan { started_stages = stage ∷ w.scan.started_stages } in
            let state : scan_event w.scan (stage_started stage) ≡ ok counted =
              unfold scan_event in ground (arith, known, fresh, w.started) in
            rw (result, kept)
              (append-IsRecorded host l w (stage_started stage) tick counted p state
                (started-private stage private) clock (stage ∷ l.started_stages) l.finished_stages
                l.cleanup_written
                (refl, rw w.started refl, w.ended, w.starts, w.finishes, w.cleanups)
                (ground (arith, private, w.private)))
        | inr (x, p) ↦ absurd (ground (arith, p))
      ]

  pub finish_stage-IsRecorded :
      (l : AppendOnlyLedger) (w : IsRecorded host l) (stage : String) (state : StageState)
      (tick : Tick) {n : AppendOnlyLedger}
      → is_timestamp tick.timestamp ≡ true
      → finish_stage host l stage state tick ≡ ok n
      → IsRecorded host n
  unfolding finish_stage
  finish_stage-IsRecorded l w stage state tick {n} clock h =
      elim (Outcome-cases (append host l (stage_finished stage state) tick)) [
        | inl (next, p) ↦
            let (kept, monotonic, bounded) = append-ok host l (stage_finished stage state) tick p in
            let (started, fresh, result) : (contains stage l.started_stages ≡ true)
                × (contains stage l.finished_stages ≡ false)
                × (n ≡ record next { finished_stages = stage ∷ next.finished_stages }) =
              ground (arith, p) in
            let private = every-contains is_private l.started_stages stage w.private started in
            let counted : Scan = record w.scan {
              finished_stages = stage ∷ w.scan.finished_stages;
            } in
            let seen : scan_event w.scan (stage_finished stage state) ≡ ok counted =
              unfold scan_event in ground (arith, started, fresh, w.started, w.ended) in
            rw (result, kept)
              (append-IsRecorded host l w (stage_finished stage state) tick counted p seen
                (finished-private stage state private) clock l.started_stages
                (stage ∷ l.finished_stages) l.cleanup_written
                (refl, w.started, rw w.ended refl, w.starts, w.finishes, w.cleanups) w.private)
        | inr (x, p) ↦ absurd (ground (arith, p))
      ]

  pub observe_cleanup-IsRecorded :
      (l : AppendOnlyLedger) (w : IsRecorded host l) (residue : ResidueStatus) (tick : Tick)
      {n : AppendOnlyLedger}
      → is_timestamp tick.timestamp ≡ true
      → observe_cleanup host l residue tick ≡ ok n
      → IsRecorded host n
  unfolding observe_cleanup
  observe_cleanup-IsRecorded l w residue tick {n} clock h =
      elim (Outcome-cases (append host l (cleanup_observed residue) tick)) [
        | inl (next, p) ↦
            let (kept, monotonic, bounded) = append-ok host l (cleanup_observed residue) tick p in
            let (first, result) : (l.cleanup_written ≡ false)
                × (n ≡ record next { cleanup_written = true }) =
              ground (arith, p) in
            let counted : Scan = record w.scan { cleanups = suc w.scan.cleanups } in
            rw (result, kept)
              (append-IsRecorded host l w (cleanup_observed residue) tick counted p
                (unfold scan_event in refl) (cleanup-private residue) clock l.started_stages
                l.finished_stages true
                (refl, w.started, w.ended, w.starts, w.finishes, ground (arith, w.cleanups, first))
                w.private)
        | inr (x, p) ↦ absurd (ground (arith, p))
      ]
