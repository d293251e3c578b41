-- ===== src/Nozzle.antt =====
-- nozzle/nozzle.go: the loop that gives the events of the source to the router.
pub mod Loop
pub mod Count
pub mod Closing
use splunk_firehose_nozzle.Base.{
  ℕ, ◌+◌, ◌%◌, ◌^◌, String, Bool, false, Option, none, some, List, [], ◌∷◌, ◌++◌, eqb, ◌&&◌,
  if◌then◌else◌,
}
use splunk_firehose_nozzle.Base.Int.{ℤ, pos, negsuc, ltb_ℤ}
use splunk_firehose_nozzle.Events.Envelope.{Envelope}

-- An error of the source: a *websocket.CloseError with its code and text, or any other.
pub data ReadError : Type 0 where
  close_error : ℤ → String → ReadError
  other_error : String → ReadError

-- What the select of the loop takes.
pub data Choice : Type 0 where
  event_received : Envelope → Choice
  events_closed : Choice
  error_received : ReadError → Choice
  closing : Choice

-- One turn of the loop: is the timer due at its first select, and what does its second one take.
pub data Turn : Type 0 where
  turn : Bool → Choice → Turn

-- The messages that are logged.
pub data Entry : Type 0 where
  event_count_received : ℕ → Entry
  gave_up : Entry
  route_failed : String → Entry
  read_failed : String → ReadError → Entry

-- The variables of the loop, and the state behind its router.
pub record NozzleLoop (R : Type 0) : Type 0 where
  pub router : R
  pub last_error : Option ReadError
  pub received_count : ℕ
  pub log : List Entry

is_code : ℕ → ℤ → Bool
is_code n (pos m) = eqb m n
is_code n (negsuc m) = false

-- websocket.CloseNormalClosure is 1000, and ClosePolicyViolation 1008.
close_message : ℤ → String
unfolding is_code
close_message code =
    if is_code 1000 code
    then "Connection was disconnected by Firehose server. This usually means Nozzle can't keep up with server. Please try to scaling out Nozzzle with mulitple instances by using the same subscription ID."
    else if is_code 1008 code
    then "Nozzle lost the keep-alive heartbeat with Firehose server. Connection was disconnected by Firehose server. This usually means either Nozzle was busy with processing events or there was some temporary network issue causing the heartbeat to get lost."
    else "Encountered close error while reading from Firehose"

unfoldable pub handle_error : ReadError → Entry
unfolding close_message
handle_error (other_error text) =
    read_failed "Error while reading from the firehose" (other_error text)
handle_error (close_error code text) = read_failed (close_message code) (close_error code text)

-- eventRouter.Route: the error that it returns, and its new state
abbrev pub RouteFn : Type 0 → Type 0
RouteFn R = Envelope → R → Option String × R

pub data Progress (R : Type 0) : Type 0 where
  running : NozzleLoop R → Progress R
  returned : NozzleLoop R → Progress R

-- What Start does: the source does not open, or the loop runs.
pub data Started (R : Type 0) : Type 0 where
  not_opened : String → Started R
  ran : Progress R → Started R

module _ {R : Type 0} where
  -- The select on the timer, which only the loop with a monitor has.
  unfoldable pub report_count : Bool → NozzleLoop R → NozzleLoop R
  report_count due s =
      if due
      then record s {
        log = s.log ++ event_count_received s.received_count ∷ [];
        received_count = 0;
      }
      else s

  unfoldable pub count_event : Bool → NozzleLoop R → NozzleLoop R
  count_event monitored s =
      if monitored then record s { received_count = (s.received_count + 1) % 2 ^ 64 } else s

  unfoldable pub note_routed : Option String × R → NozzleLoop R → NozzleLoop R
  note_routed (none, r) s = record s { router = r }
  note_routed (some e, r) s = record s { router = r; log = s.log ++ route_failed e ∷ [] }

  module _ (route : RouteFn R) (monitored : Bool) where
    unfoldable pub take_choice : Choice → NozzleLoop R → Progress R
    take_choice (event_received event) s =
        running (note_routed (route event s.router) (count_event monitored s))
    take_choice events_closed s = returned (record s { log = s.log ++ gave_up ∷ [] })
    take_choice (error_received e) s =
        running (record s { last_error = some e; log = s.log ++ handle_error e ∷ [] })
    take_choice closing s = returned s

    unfoldable pub run_loop : List Turn → NozzleLoop R → Progress R
    run_loop [] s = running s
    run_loop (turn due chosen ∷ turns) s =
        elim (take_choice chosen (report_count (monitored && due) s)) [
          | returned s' ↦ returned s'
          | running s' ↦ run_loop turns s'
        ]

  unfoldable pub start : RouteFn R → ℤ → Option String → List Turn → R → Started R
  start route status_monitor_interval (some e) turns r = not_opened e
  start route status_monitor_interval none turns r = ran (
      run_loop route (ltb_ℤ (pos 0) status_monitor_interval) turns
        (record { router = r; last_error = none; received_count = 0; log = [] }))
