-- ===== src/Nozzle/Count.antt =====
-- The counts of received events that the loop of nozzle/nozzle.go logs.
use splunk_firehose_nozzle.Base.{
  ℕ, ◌+◌, ◌≤◌, ◌<◌, ◌%◌, ◌^◌, String, Bool, true, false, Option, some, none, List, [], ◌∷◌, ◌++◌,
  ◌≡◌, refl, length, total, total-append, arith,
}
use splunk_firehose_nozzle.Nozzle.{
  ReadError, other_error, close_error, event_received, events_closed, error_received, closing, Turn,
  turn, Entry, event_count_received, gave_up, route_failed, read_failed, NozzleLoop, RouteFn,
  report_count, count_event, note_routed, take_choice, run_loop, handle_error,
}
use splunk_firehose_nozzle.Nozzle.Loop.{heard, events_of, reached}

-- The count that a message reports.
abbrev pub counted : Entry → ℕ
counted (event_count_received n) = n
counted gave_up = 0
counted (route_failed e) = 0
counted (read_failed text e) = 0

error-counted : (e : ReadError) → counted (handle_error e) ≡ 0
unfolding handle_error
error-counted (other_error text) = refl
error-counted (close_error code text) = refl

module _ {R : Type 0} where
  -- The events that were reported, and those that are still to be.
  abbrev pub counted_by : NozzleLoop R → ℕ
  counted_by s = total counted s.log + s.received_count

  report_count-counted :
      (due : Bool) (s : NozzleLoop R)
      → (counted_by (report_count due s) ≡ counted_by s)
        × ((report_count due s).received_count ≤ s.received_count)
  unfolding report_count
  report_count-counted true s =
      let h = total-append counted s.log (event_count_received s.received_count ∷ []) in
      (omega (arith, h), omega arith)
  report_count-counted false s = (refl, omega arith)

  note_routed-counted :
      (found : Option String × R) (s : NozzleLoop R)
      → (counted_by (note_routed found s) ≡ counted_by s)
        × ((note_routed found s).received_count ≡ s.received_count)
  unfolding note_routed
  note_routed-counted (none, r) s = (refl, refl)
  note_routed-counted (some e, r) s =
      (omega (arith, total-append counted s.log (route_failed e ∷ [])), refl)

  count_event-counted :
      (s : NozzleLoop R)
      → s.received_count + 1 < 2 ^ 64
      → (counted_by (count_event true s) ≡ counted_by s + 1)
        × ((count_event true s).received_count ≡ s.received_count + 1)
  unfolding count_event
  count_event-counted s h = (omega (arith, small), small)
    where
      small : (s.received_count + 1) % 2 ^ 64 ≡ s.received_count + 1
      small = omega (arith, h)

  module _ (route : RouteFn R) where
    -- In the loop that reports counts, while fewer than 2 ^ 64 events come, every event that is
    -- received is counted once: the counts in the log and the one still to be reported add up to what
    -- they were, and the number of events up to the first end.
    pub counted-run_loop :
        (turns : List Turn) (s : NozzleLoop R)
        → s.received_count + length (events_of (heard turns)) < 2 ^ 64
        → counted_by (reached (run_loop route true turns s))
          ≡ counted_by s + length (events_of (heard turns))
    unfolding run_loop take_choice
    counted-run_loop [] s h = omega arith
    counted-run_loop (turn due (event_received e) ∷ turns) s h =
        let s1 = report_count due s in
        let (a1, b1) = report_count-counted due s in
        let room : s1.received_count + 1 < 2 ^ 64 = omega (arith, b1, h) in
        let (a2, b2) = count_event-counted s1 room in
        let (a3, b3) = note_routed-counted (route e s1.router) (count_event true s1) in
        let s3 = note_routed (route e s1.router) (count_event true s1) in
        let room3 : s3.received_count + length (events_of (heard turns)) < 2 ^ 64 =
          omega (arith, b1, b2, b3, h) in
        omega (arith, a1, a2, a3, counted-run_loop turns s3 room3)
    counted-run_loop (turn due (error_received e) ∷ turns) s h =
        let s1 = report_count due s in
        let (a1, b1) = report_count-counted due s in
        let s2 = record s1 { last_error = some e; log = s1.log ++ handle_error e ∷ [] } in
        let room : s2.received_count + length (events_of (heard turns)) < 2 ^ 64 =
          omega (arith, b1, h) in
        omega (
          arith,
          a1,
          total-append counted s1.log (handle_error e ∷ []),
          error-counted e,
          counted-run_loop turns s2 room,
        )
    counted-run_loop (turn due events_closed ∷ turns) s h = omega (
      arith,
      report_count-counted due s,
      total-append counted (report_count due s).log (gave_up ∷ []),
    )
    counted-run_loop (turn due closing ∷ turns) s h = omega (arith, report_count-counted due s)
