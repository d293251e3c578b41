-- ===== src/Nozzle/Loop.antt =====
-- What the loop of nozzle/nozzle.go routes and returns.
use splunk_firehose_nozzle.Base.{
  String, Bool, true, false, ◌||◌, Option, some, none, List, [], ◌∷◌, ◌≡◌, refl, ap, ◌∙◌, ◌++◌,
  ◌&&◌,
}
use splunk_firehose_nozzle.Events.Envelope.{Envelope}
use splunk_firehose_nozzle.Nozzle.{
  ReadError, Choice, event_received, events_closed, error_received, closing, Turn, turn, NozzleLoop,
  RouteFn, Progress, running, returned, report_count, count_event, note_routed, take_choice,
  run_loop, handle_error,
}

-- The choices before the first that ends the loop.
abbrev pub heard : List Turn → List Choice
heard [] = []
heard (turn due events_closed ∷ turns) = []
heard (turn due closing ∷ turns) = []
heard (turn due (event_received e) ∷ turns) = event_received e ∷ heard turns
heard (turn due (error_received e) ∷ turns) = error_received e ∷ heard turns

abbrev pub events_of : List Choice → List Envelope
events_of [] = []
events_of (event_received e ∷ cs) = e ∷ events_of cs
events_of (events_closed ∷ cs) = events_of cs
events_of (error_received e ∷ cs) = events_of cs
events_of (closing ∷ cs) = events_of cs

abbrev pub last_read_error : Option ReadError → List Choice → Option ReadError
last_read_error last [] = last
last_read_error last (event_received e ∷ cs) = last_read_error last cs
last_read_error last (events_closed ∷ cs) = last_read_error last cs
last_read_error last (error_received e ∷ cs) = last_read_error (some e) cs
last_read_error last (closing ∷ cs) = last_read_error last cs

abbrev pub is_end : Choice → Bool
is_end (event_received e) = false
is_end events_closed = true
is_end (error_received e) = false
is_end closing = true

abbrev pub ends : List Turn → Bool
ends [] = false
ends (turn due chosen ∷ turns) = is_end chosen || ends turns

module _ {R : Type 0} where
  abbrev pub reached : Progress R → NozzleLoop R
  reached (running s) = s
  reached (returned s) = s

  abbrev pub has_returned : Progress R → Bool
  has_returned (running s) = false
  has_returned (returned s) = true

  module _ (route : RouteFn R) where
    abbrev pub route_all : List Envelope → R → R
    route_all [] r = r
    route_all (e ∷ es) r = route_all es (route e r).1

    -- The router and the last error after an event was routed.
    abbrev Keeps : R → NozzleLoop R → NozzleLoop R → Type 0
    Keeps r s s' = (s'.router ≡ r) × (s'.last_error ≡ s.last_error)

    report_count-Keeps : (due : Bool) (s : NozzleLoop R) → Keeps s.router s (report_count due s)
    unfolding report_count
    report_count-Keeps true s = (refl, refl)
    report_count-Keeps false s = (refl, refl)

    count_event-Keeps :
        (monitored : Bool) (s : NozzleLoop R) → Keeps s.router s (count_event monitored s)
    unfolding count_event
    count_event-Keeps true s = (refl, refl)
    count_event-Keeps false s = (refl, refl)

    note_routed-Keeps :
        (found : Option String × R) (s : NozzleLoop R) → Keeps found.1 s (note_routed found s)
    unfolding note_routed
    note_routed-Keeps (none, r) s = (refl, refl)
    note_routed-Keeps (some e, r) s = (refl, refl)

    abbrev routed : Bool → Bool → Envelope → NozzleLoop R → NozzleLoop R
    routed monitored due e s =
        note_routed (route e (report_count due s).router)
          (count_event monitored (report_count due s))

    routed-Keeps :
        (monitored due : Bool) (e : Envelope) (s : NozzleLoop R)
        → Keeps (route e s.router).1 s (routed monitored due e s)
    routed-Keeps monitored due e s =
        let s1 = report_count due s in
        let (r1, l1) = report_count-Keeps due s in
        let (r2, l2) = count_event-Keeps monitored s1 in
        let (r3, l3) = note_routed-Keeps (route e s1.router) (count_event monitored s1) in
        (r3 ∙ ap (λ r. (route e r).1) r1, l3 ∙ l2 ∙ l1)

    -- What the rest of the turns does, started from a router and a last error.
    abbrev pub Heard : List Turn → R → Option ReadError → Progress R → Type 0
    Heard turns r last result =
        ((reached result).router ≡ route_all (events_of (heard turns)) r)
        × ((reached result).last_error ≡ last_read_error last (heard turns))
        × (has_returned result ≡ ends turns)

    moved :
        (turns : List Turn) (s' : NozzleLoop R) (r : R) (last : Option ReadError)
        (result : Progress R)
        → s'.router ≡ r
        → s'.last_error ≡ last
        → Heard turns s'.router s'.last_error result
        → Heard turns r last result
    moved turns s' r last result h k f =
        let (a, b, c) = f in
        (
          a ∙ ap (λ x. route_all (events_of (heard turns)) x) h,
          b ∙ ap (λ x. last_read_error x (heard turns)) k,
          c,
        )

    pub run_loop-Heard :
        (monitored : Bool) (turns : List Turn) (s : NozzleLoop R)
        → Heard turns s.router s.last_error (run_loop route monitored turns s)
    unfolding run_loop take_choice
    run_loop-Heard monitored [] s = (refl, refl, refl)
    run_loop-Heard monitored (turn due (event_received e) ∷ turns) s =
        let (h, k) = routed-Keeps monitored (monitored && due) e s in
        moved turns s1 _ _ _ h k (run_loop-Heard monitored turns s1)
      where
        s1 : NozzleLoop R
        s1 = routed monitored (monitored && due) e s
    run_loop-Heard monitored (turn due (error_received e) ∷ turns) s =
        let (h, k) = report_count-Keeps (monitored && due) s in
        moved turns s1 _ _ _ h refl (run_loop-Heard monitored turns s1)
      where
        s1 : NozzleLoop R
        s1 = record (report_count (monitored && due) s) {
          last_error = some e;
          log = (report_count (monitored && due) s).log ++ handle_error e ∷ [];
        }
    run_loop-Heard monitored (turn due events_closed ∷ turns) s =
        let (h, k) = report_count-Keeps (monitored && due) s in (h, k, refl)
    run_loop-Heard monitored (turn due closing ∷ turns) s =
        let (h, k) = report_count-Keeps (monitored && due) s in (h, k, refl)
