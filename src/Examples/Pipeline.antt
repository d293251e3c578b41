-- ===== src/Examples/Pipeline.antt =====
-- The nozzle, its router and its sink at work together.
use splunk_firehose_nozzle.Base.{
  ℕ, ◌+◌, ◌%◌, ◌^◌, false, List, [], ◌∷◌, ◌++◌, length, some, ◌≡◌, refl, arith,
}
use splunk_firehose_nozzle.Base.Int.{pos}
use splunk_firehose_nozzle.Base.Dict.{lookup}
use splunk_firehose_nozzle.Events.Envelope.{Envelope, event_name}
use splunk_firehose_nozzle.Nozzle.{
  closing, run_loop, take_choice, count_event, note_routed, report_count,
}
use splunk_firehose_nozzle.Nozzle.Loop.{reached}
use splunk_firehose_nozzle.Router.{route}
use splunk_firehose_nozzle.Sink.Queue.{write}
use splunk_firehose_nozzle.Sink.Workers.{Label, took, takes, ticked, ticks, closed_queue, closes}
use splunk_firehose_nozzle.Sink.Workers.Fifo.{all_taken}
use splunk_firehose_nozzle.Splunknozzle.Pipeline.{
  Program, started, receives, selects, works, AdvanceRun, begin, onward,
}
use splunk_firehose_nozzle.Splunknozzle.Pipeline.Wanted.{wanted, IsPart}
use splunk_firehose_nozzle.Splunknozzle.Pipeline.Arrival.{AdvanceRun-arrives}
use splunk_firehose_nozzle.Sink.Consume.Order.{posted}
use splunk_firehose_nozzle.Sink.Workers.Made.{all_taken_at, Makes}
use splunk_firehose_nozzle.Sink.Http.{Exchange, AllTried}
use splunk_firehose_nozzle.Writer.{WriteError}
use splunk_firehose_nozzle.Examples.Http.{server, no_marshal, http_parts, http_writer-IsWrite}
use splunk_firehose_nozzle.Examples.World.{log_of, sink_config, writer_config}
use splunk_firehose_nozzle.Examples.Router.{log_router}

abbrev begun : Program WriteError (Unit {0}) (List Exchange × ℕ)
begun = started tt (λ i. ([], 0))

abbrev line : Envelope
line = log_of "app-2" "hi"

routed :
    route sink_config log_router line (record { events = []; dropped_events = 0; warnings = [] })
    ≡ some (record { events = line ∷ []; dropped_events = 0; warnings = [] })
unfolding route write lookup event_name
routed = refl

-- An envelope comes, a worker takes it and posts it at its tick, the nozzle is closed, and then the
-- sink.
abbrev short_run :
    (es : List Envelope) × (ks : List Label) × (p : Program WriteError
      (Unit {0})
      (List Exchange × ℕ))
    × AdvanceRun http_parts log_router false 1 begun es ks p
unfolding run_loop take_choice count_event note_routed route write lookup event_name report_count
short_run = (
  _,
  _,
  _,
  onward
      (onward
        (onward
          (onward (onward begin (receives false line _ _ refl refl routed))
            (works (took 0 line) refl (takes 0 line [] (pos 5) (omega arith) refl refl)))
          (works (ticked 0) refl (ticks 0 (omega arith) refl)))
        (selects false closing _ refl refl))
      (works closed_queue refl (closes refl)),
)

AdvanceRun-arrives_example :
    let sink = (reached short_run.2).router in
    (lost : ℕ) × IsPart (all_taken short_run.1 ++ sink.queue.events) (wanted log_router short_run.0)
    × (length (wanted log_router short_run.0)
        ≡ length (all_taken short_run.1 ++ sink.queue.events) + lost)
    × (sink.queue.dropped_events ≡ lost % 2 ^ 64)
    × ((i : ℕ)
        → Makes http_parts
            (all_taken_at i short_run.1)
            (posted (sink.seats i).posts ++ (sink.seats i).batch)
          × AllTried no_marshal writer_config 5 (sink.seats i).posts (sink.seats i).state.0)
AdvanceRun-arrives_example =
    AdvanceRun-arrives server no_marshal writer_config http_parts
      (http_writer-IsWrite writer_config) refl log_router false tt (λ i. 0) short_run.3
