-- ===== src/Product/Ledger/Valid.antt =====
-- A ledger that is finished passes the validation of its events.
use local_inference_system.Base.{
  suc, String, true, Option, none, some, List, [], ◌∷◌, ◌++◌, ◌≡◌, refl, arith, nat_eq, string_eq,
  is_nonempty, length, leb, Outcome-cases, ok, ◌>>=◌, >>=-eq-ok, ◌∙◌, sym, inl, inr,
}
use local_inference_system.Json.Value.{dict}
use local_inference_system.Tokens.Reports.{Host}
use local_inference_system.Product.Model.{CustomerVerdict}
use local_inference_system.Product.Events.{
  WorkflowClassification, LedgerEvent, attempt_finished, Entry, payload_of, entry_bytes,
  max_ledger_event_bytes, scan_privacy, is_attempt_id, is_timestamp,
}
use local_inference_system.Product.Validation.{
  Scan, empty_scan, is_monotonic, same_identity, scan_event, advance, scan_entry, scan_entries,
  is_start, is_finish, first_entry, last_entry, validate_scan, validate_ledger_events,
}
use local_inference_system.Product.Ledger.{
  AppendOnlyLedger, Tick, entry_of, last_timestamp, append, finish_attempt,
}

module _ (host : Host) where
  pub scan_entries-append :
      (s : Scan) (es : List Entry) (e : Entry)
      → scan_entries host s (es ++ (e ∷ [])) ≡ (scan_entries host s es >>= λ t. scan_entry host t e)
  unfolding scan_entries
  scan_entries-append s [] e = elim (Outcome-cases (scan_entry host s e)) [
    | inl (t, h) ↦ rw h refl
    | inr (x, h) ↦ rw h refl
  ]
  scan_entries-append s (d ∷ es) e = elim (Outcome-cases (scan_entry host s d)) [
    | inl (t, h) ↦ rw h (scan_entries-append t es e)
    | inr (x, h) ↦ rw h refl
  ]

  -- What an accepted entry has passed.
  pub scan_entry-passed :
      (s : Scan) (e : Entry) {t : Scan}
      → scan_entry host s e ≡ ok t
      → (counted : Scan) × (scan_event s e.event ≡ ok counted)
        × (t ≡ advance counted e)
        × (e.sequence ≡ s.expected_sequence)
        × (is_attempt_id e.attempt_id ≡ true)
        × (scan_privacy (dict (payload_of e.event)) ≡ ok tt)
        × (same_identity s.identity e ≡ true)
  unfolding scan_entry
  scan_entry-passed s e h = elim (Outcome-cases (scan_event s e.event)) [
    | inl (counted, c) ↦ elim (Outcome-cases (scan_privacy (dict (payload_of e.event)))) [
      | inl (unit, p) ↦ (counted, c, ground arith, ground arith, ground arith, p, ground arith)
      | inr (x, p) ↦ absurd (ground arith)
    ]
    | inr (x, c) ↦ absurd (ground arith)
  ]

  pub scan_entry-accepts :
      (s : Scan) (e : Entry) (counted : Scan)
      → scan_event s e.event ≡ ok counted
      → e.sequence ≡ s.expected_sequence
      → is_attempt_id e.attempt_id ≡ true
      → scan_privacy (dict (payload_of e.event)) ≡ ok tt
      → same_identity s.identity e ≡ true
      → is_timestamp e.timestamp_utc ≡ true
      → is_monotonic s.previous_timestamp e.timestamp_utc ≡ true
      → leb (entry_bytes host e) max_ledger_event_bytes ≡ true
      → scan_entry host s e ≡ ok (advance counted e)
  unfolding scan_entry
  scan_entry-accepts s e counted a b c d f g h i = ground arith

  scan_entry-previous :
      (s : Scan) (e : Entry) {t : Scan}
      → scan_entry host s e ≡ ok t
      → t.previous_timestamp ≡ some e.timestamp_utc
  unfolding advance
  scan_entry-previous s e h = let passed = scan_entry-passed s e h in ground (arith, passed)

  -- The timestamp that is remembered is that of the last entry.
  scan_entries-previous :
      (s : Scan) (es : List Entry) {t : Scan}
      → scan_entries host s es ≡ ok t
      → is_nonempty es ≡ true
      → t.previous_timestamp ≡ last_timestamp es
  unfolding scan_entries last_timestamp last_entry
  scan_entries-previous s [] h n = cc
  scan_entries-previous s (e ∷ []) h n =
      let (t, p, q) = >>=-eq-ok (scan_entry host s e) _ h in
      ground (arith, scan_entry-previous s e p)
  scan_entries-previous s (e ∷ d ∷ es) h n =
      let (t, p, q) = >>=-eq-ok (scan_entry host s e) _ h in scan_entries-previous t (d ∷ es) q refl

  pub empty_scan-previous :
      (es : List Entry) {t : Scan}
      → scan_entries host empty_scan es ≡ ok t
      → t.previous_timestamp ≡ last_timestamp es
  empty_scan-previous [] h =
      unfold scan_entries in unfold last_timestamp in unfold last_entry in ground arith
  empty_scan-previous (e ∷ es) h = scan_entries-previous empty_scan (e ∷ es) h refl

is_start-append :
    (es : List Entry) (d e : Entry)
    → d.event ≡ e.event
    → is_start (first_entry (es ++ (d ∷ []))) ≡ is_start (first_entry (es ++ (e ∷ [])))
unfolding first_entry is_start
is_start-append [] d e h = rw h refl
is_start-append (x ∷ es) d e h = refl

pub last_entry-append : (es : List Entry) (e : Entry) → last_entry (es ++ (e ∷ [])) ≡ some e
unfolding last_entry
last_entry-append [] e = refl
last_entry-append (x ∷ []) e = refl
last_entry-append (x ∷ y ∷ es) e = last_entry-append (y ∷ es) e

pub length-append {ℓ} :
    {A : Type ℓ} (xs : List A) (y : A) → length (xs ++ (y ∷ [])) ≡ suc (length xs)
length-append [] y = refl
length-append (x ∷ xs) y = ground (arith, length-append xs y)

same_identity-entry_of :
    (identity : Option (String × WorkflowClassification)) (l : AppendOnlyLedger)
    (event : LedgerEvent) (s t : String)
    → same_identity identity (entry_of l event s) ≡ true
    → same_identity identity (entry_of l event t) ≡ true
unfolding same_identity entry_of
same_identity-entry_of none l event s t h = refl
same_identity-entry_of (some (attempt, workflow)) l event s t h = h

module _ (host : Host) where
  pub validate-scan :
      (es : List Entry) (e : Entry)
      → validate_ledger_events host (es ++ (e ∷ [])) ≡ ok tt
      → (t s : Scan) × (scan_entries host empty_scan es ≡ ok t)
        × (scan_entry host t e ≡ ok s)
        × (validate_scan (es ++ (e ∷ [])) s ≡ ok tt)
        × (leb 2 (length (es ++ (e ∷ []))) ≡ true)
  unfolding validate_ledger_events
  validate-scan es e h =
      let enough : leb 2 (length (es ++ (e ∷ []))) ≡ true = ground arith in
      let (s, p, q) =
        >>=-eq-ok (scan_entries host empty_scan (es ++ (e ∷ [])))
          (λ s. validate_scan (es ++ (e ∷ [])) s) (rw enough at h) in
      let (t, p1, p2) =
        >>=-eq-ok (scan_entries host empty_scan es) (λ t. scan_entry host t e)
          (sym (scan_entries-append host empty_scan es e) ∙ p) in
      (t, s, p1, p2, q, enough)

  pub validate-accepts :
      (es : List Entry) (e : Entry) (t s : Scan)
      → scan_entries host empty_scan es ≡ ok t
      → scan_entry host t e ≡ ok s
      → validate_scan (es ++ (e ∷ [])) s ≡ ok tt
      → leb 2 (suc (length es)) ≡ true
      → validate_ledger_events host (es ++ (e ∷ [])) ≡ ok tt
  unfolding validate_ledger_events
  validate-accepts es e t s scanned passed checked enough =
      rw (length-append es e, enough, scan_entries-append host empty_scan es e, scanned, passed)
        checked

  pub append-ok :
      (l : AppendOnlyLedger) (event : LedgerEvent) (tick : Tick) {n : AppendOnlyLedger}
      → append host l event tick ≡ ok n
      → (n ≡ record l { events = l.events ++ (entry_of l event tick.timestamp ∷ []) })
        × (is_monotonic (last_timestamp l.events) tick.timestamp ≡ true)
        × (leb (entry_bytes host (entry_of l event tick.timestamp)) max_ledger_event_bytes ≡ true)
  unfolding append
  append-ok l event tick h = ground arith

  finish_attempt-ok :
      (l : AppendOnlyLedger) (verdict : CustomerVerdict) (timestamp : String) (tick : Tick)
      {n : AppendOnlyLedger}
      → finish_attempt host l verdict timestamp tick ≡ ok n
      → (validate_ledger_events host
            (l.events ++ (entry_of l (attempt_finished verdict) timestamp ∷ []))
          ≡ ok tt)
        × (n.events ≡ (l.events ++ (entry_of l (attempt_finished verdict) tick.timestamp ∷ [])))
        × (is_monotonic (last_timestamp l.events) tick.timestamp ≡ true)
        × (leb
              (entry_bytes host (entry_of l (attempt_finished verdict) tick.timestamp))
              max_ledger_event_bytes
            ≡ true)
  unfolding finish_attempt
  finish_attempt-ok l verdict timestamp tick h =
      let candidate = l.events ++ (entry_of l (attempt_finished verdict) timestamp ∷ []) in
      elim (Outcome-cases (validate_ledger_events host candidate)) [
        | inl (valid, p) ↦ elim (Outcome-cases (append host l (attempt_finished verdict) tick)) [
          | inl (next, q) ↦ ground (arith, p, q, append-ok l (attempt_finished verdict) tick q)
          | inr (x, q) ↦ absurd (ground (arith, p, q))
        ]
        | inr (x, p) ↦ absurd (ground (arith, p))
      ]

  -- The checks behind the loop read nothing of the last entry but its event.
  validate_scan-last :
      (es : List Entry) (d e : Entry) (counted : Scan)
      → d.event ≡ e.event
      → validate_scan (es ++ (d ∷ [])) (advance counted d) ≡ ok tt
      → validate_scan (es ++ (e ∷ [])) (advance counted e) ≡ ok tt
  unfolding validate_scan advance is_finish
  validate_scan-last es d e counted same h =
      ground (arith, is_start-append es d e same, last_entry-append es d, last_entry-append es e)

  -- The attempt's finish is validated with one reading of the clock and written with the next: if
  -- that is a timestamp too, the events that the finished ledger holds pass the whole validation.
  pub finish_attempt-valid :
      (l : AppendOnlyLedger) (verdict : CustomerVerdict) (timestamp : String) (tick : Tick)
      {n : AppendOnlyLedger}
      → is_timestamp tick.timestamp ≡ true
      → finish_attempt host l verdict timestamp tick ≡ ok n
      → validate_ledger_events host n.events ≡ ok tt
  unfolding entry_of
  finish_attempt-valid l verdict timestamp tick {n} clock h =
      let d = entry_of l (attempt_finished verdict) timestamp in
      let e = entry_of l (attempt_finished verdict) tick.timestamp in
      let (valid, added, monotonic, bounded) = finish_attempt-ok l verdict timestamp tick h in
      let (t, s, scanned, passed, checked, enough) = validate-scan l.events d valid in
      let (counted, c, state, sequence, id, private, same) = scan_entry-passed host t d passed in
      let later : scan_entry host t e ≡ ok (advance counted e) =
        scan_entry-accepts host t e counted c sequence id private
          (same_identity-entry_of t.identity l (attempt_finished verdict) timestamp tick.timestamp
            same)
          clock (rw (empty_scan-previous host l.events scanned) monotonic) bounded in
      let final = validate_scan-last l.events d e counted refl (rw state at checked) in
      rw added (
        validate-accepts l.events e t (advance counted e) scanned later final
          (rw (length-append l.events d) at enough))
