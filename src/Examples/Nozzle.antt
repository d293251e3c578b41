-- ===== src/Examples/Nozzle.antt =====
-- The theorems about the nozzle's loop at concrete inputs.
use splunk_firehose_nozzle.Base.{
  ℕ, ◌+◌, String, ◌↔◌, ◌≢◌, refl, true, false, none, some, List, [], ◌∷◌, ◌≡◌, length, arith,
}
use splunk_firehose_nozzle.Base.Int.{pos}
use splunk_firehose_nozzle.Nozzle.{
  close_error, closing, event_received, events_closed, error_received, Turn, turn, NozzleLoop,
  RouteFn, run_loop, route_failed, take_choice, report_count, count_event, note_routed,
}
use splunk_firehose_nozzle.Nozzle.Loop.{heard, events_of, reached}
use splunk_firehose_nozzle.Nozzle.Count.{counted_by, counted-run_loop}
use splunk_firehose_nozzle.Nozzle.Closing.{
  unopened, ended, waits, close_done, Shared, new_shared, open_fails, opens, turns, returns,
  source_closed, close_returns, CloseRun, idle, next,
}
use splunk_firehose_nozzle.Nozzle.Closing.Returns.{CanFinish, Close-finishes, Close-ended}
use splunk_firehose_nozzle.Examples.World.{log_of}

-- A router whose state is the number of its calls, and that fails at each.
abbrev counting : RouteFn ℕ
counting e n = (some "full", n + 1)

abbrev some_turns : List Turn
some_turns =
    turn false (event_received (log_of "app-1" "one"))
    ∷ turn true (error_received (close_error (pos 1000) "bye"))
    ∷ turn false (event_received (log_of "app-1" "two"))
    ∷ turn false events_closed
    ∷ turn false (event_received (log_of "app-1" "late"))
    ∷ []

abbrev first_loop : NozzleLoop ℕ
first_loop = record { router = 0; last_error = none; received_count = 0; log = [] }

counted-run_loop_example :
    counted_by (reached (run_loop counting true some_turns first_loop))
    ≡ counted_by first_loop + length (events_of (heard some_turns))
counted-run_loop_example = counted-run_loop counting some_turns first_loop (omega arith)

-- one event is routed, Close is called, and both return
abbrev routed_loop : NozzleLoop ℕ
routed_loop = record {
  router = 1;
  last_error = none;
  received_count = 0;
  log = route_failed "full" ∷ [];
}

abbrev after_close : Shared ℕ
after_close = record {
  at_start = ended routed_loop;
  at_close = close_done;
  closing_closed = true;
  closed_closed = true;
}

closed_run : CloseRun counting false new_shared after_close
unfolding take_choice report_count count_event note_routed
closed_run =
    next
      (next
        (next
          (next (next idle (opens 0 refl)) (
            turns false (event_received (log_of "app-1" "one")) first_loop routed_loop refl refl
              refl))
          (source_closed refl))
        (returns false closing routed_loop routed_loop refl refl refl))
      (close_returns refl refl)

Close-ended_example :
    (l : NozzleLoop ℕ) × (after_close.at_start ≡ ended l)
    × ((s' : Shared ℕ) → CloseRun counting false after_close s' → s'.at_start ≡ ended l)
Close-ended_example = Close-ended counting false after_close closed_run refl

-- Close waits, and the source did not open.
abbrev stuck : Shared ℕ
stuck = record {
  at_start = unopened "no such host";
  at_close = waits;
  closing_closed = true;
  closed_closed = false;
}

Close-finishes_example :
    CanFinish counting false stuck ↔ ((e : String) → stuck.at_start ≢ unopened e)
Close-finishes_example =
    Close-finishes counting false 0 stuck
      (next (next idle (open_fails "no such host" refl)) (source_closed refl)) refl
