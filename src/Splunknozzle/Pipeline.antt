-- ===== src/Splunknozzle/Pipeline.antt =====
-- The parts that Run of splunknozzle/nozzle.go starts, at work together: the goroutine of the nozzle's
-- loop routes into the sink, whose workers take their turns at any time, and Run closes the sink, once,
-- at any time: Run ignores an error of the nozzle's Close, behind which the loop is still running.
pub mod Wanted
pub mod Delivery
pub mod Arrival
pub mod Configured
use splunk_firehose_nozzle.Base.{
  ℕ, Bool, true, false, Option, none, some, List, [], ◌∷◌, ◌++◌, is_some, ◌≡◌, ◌&&◌,
}
use splunk_firehose_nozzle.Base.Dict.{lookup}
use splunk_firehose_nozzle.Events.Envelope.{Envelope, event_name}
use splunk_firehose_nozzle.Nozzle.{
  Choice, event_received, Turn, turn, NozzleLoop, RouteFn, Progress, running, returned, run_loop,
}
use splunk_firehose_nozzle.Nozzle.Loop.{reached}
use splunk_firehose_nozzle.Router.{Router, route}
use splunk_firehose_nozzle.Sink.Queue.{Queue}
use splunk_firehose_nozzle.Sink.Consume.{Parts}
use splunk_firehose_nozzle.Sink.Workers.{
  System, Label, queued, dropped, took, ticked, closed_queue, exited, opened, Step,
}

abbrev pub is_event : Choice → Bool
is_event (event_received e) = true
is_event _ = false

-- Where the loop is, with the sink behind its router.
abbrev pub Program : Type 0 → Type 0 → Type 0 → Type 0
Program Err C W = Progress (System Err C W)

-- The workers and Close take their turns at any time; Write is called by the router alone.
abbrev pub may_happen : Label → Bool
may_happen (queued e) = false
may_happen (dropped e) = false
may_happen closed_queue = true
may_happen (took i e) = true
may_happen (ticked i) = true
may_happen (exited i) = true

module _ {Err C W : Type 0} where
  abbrev pub with_sink : System Err C W → Program Err C W → Program Err C W
  with_sink s (running l) = running (record l { router = s })
  with_sink s (returned l) = returned (record l { router = s })

  -- The nozzle with a sink that has been opened.
  abbrev pub started : C → (ℕ → W) → Program Err C W
  started cache states =
      running
        (record { router = opened cache states; last_error = none; received_count = 0; log = [] })

  abbrev pub put_queue : System Err C W → Option (Queue Envelope) → System Err C W
  put_queue s none = s
  put_queue s (some q) = record s { queue = q }

  module _ (parts : Parts Err C W) (router : Router) (monitored : Bool) where
    -- Route on the shared queue; where Write panics the program ends, and the step is not taken.
    abbrev pub route_into : RouteFn (System Err C W)
    route_into e s = (none, put_queue s (route parts.config router e s.queue))

    -- One step, with the envelope that the loop received in it, and the turn of a worker. Write on a
    -- sink that has been closed panics, as a send on a closed channel does, and the program ends.
    pub data Advance (n : ℕ) (p : Program Err C W)
        : List Envelope → List Label → Program Err C W → Type 0 where
      receives :
          (due : Bool) (e : Envelope) (l : NozzleLoop (System Err C W)) (q : Queue Envelope)
          → p ≡ running l
          → (is_some (lookup (event_name e.event_type) router.selected_events) && l.router.closed)
            ≡ false
          → route parts.config router e l.router.queue ≡ some q
          → Advance n p
              (e ∷ [])
              []
              (run_loop route_into monitored (turn due (event_received e) ∷ []) l)
      selects :
          (due : Bool) (chosen : Choice) (l : NozzleLoop (System Err C W))
          → p ≡ running l
          → is_event chosen ≡ false
          → Advance n p [] [] (run_loop route_into monitored (turn due chosen ∷ []) l)
      works :
          (l : Label) {s : System Err C W}
          → may_happen l ≡ true
          → Step parts n (reached p).router l s
          → Advance n p [] (l ∷ []) (with_sink s p)

    pub data AdvanceRun (n : ℕ) (p : Program Err C W)
        : List Envelope → List Label → Program Err C W → Type 0 where
      begin : AdvanceRun n p [] [] p
      onward :
          {es fs : List Envelope} {ls ks : List Label} {q r : Program Err C W}
          → AdvanceRun n p es ls q
          → Advance n q fs ks r
          → AdvanceRun n p (es ++ fs) (ls ++ ks) r
