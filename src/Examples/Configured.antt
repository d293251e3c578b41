-- ===== src/Examples/Configured.antt =====
-- The nozzle, its router and its sink as a configuration makes them, at work.
use splunk_firehose_nozzle.Base.{
  ℕ, ◌≤◌, true, false, List, [], ◌∷◌, ◌++◌, length, some, All, ◌≡◌, refl, arith,
}
use splunk_firehose_nozzle.Base.Int.{pos}
use splunk_firehose_nozzle.Base.Dict.{lookup, insert}
use splunk_firehose_nozzle.Base.Result.{ok}
use splunk_firehose_nozzle.Utils.Text.{trim_space, split}
use splunk_firehose_nozzle.Utils.Host.{get_host_ip_info}
use splunk_firehose_nozzle.Events.Envelope.{Envelope, event_name}
use splunk_firehose_nozzle.Events.Extra.{parse_extra_fields, add_pairs, get_key_value_from_string}
use splunk_firehose_nozzle.Events.Select.{parse_selected_events, select, is_authorized_event}
use splunk_firehose_nozzle.Nozzle.{run_loop, take_choice, count_event, note_routed, report_count}
use splunk_firehose_nozzle.Nozzle.Loop.{reached}
use splunk_firehose_nozzle.Router
use splunk_firehose_nozzle.Router.{Router, route}
use splunk_firehose_nozzle.Sink.Queue.{write}
use splunk_firehose_nozzle.Sink.Consume.{Parts, Post}
use splunk_firehose_nozzle.Sink.Workers.{Label, took, takes, ticked, ticks}
use splunk_firehose_nozzle.Sink.Workers.Fifo.{all_taken}
use splunk_firehose_nozzle.Sink.Http.{Exchange, AllTried}
use splunk_firehose_nozzle.Sink.Http.Says.{Says}
use splunk_firehose_nozzle.Writer.{WriteError}
use splunk_firehose_nozzle.Splunknozzle.Wiring.{
  EventSink, sink_config, parse_config, writer_config, make_sink, event_sink, event_router,
}
use splunk_firehose_nozzle.Splunknozzle.Pipeline.{
  Program, started, receives, works, AdvanceRun, begin, onward,
}
use splunk_firehose_nozzle.Splunknozzle.Pipeline.Wanted.{IsPart}
use splunk_firehose_nozzle.Splunknozzle.Pipeline.Configured.{asked_for, wired, configured-arrives}
use splunk_firehose_nozzle.Examples.World.{log_of, table_cache, runtime}
use splunk_firehose_nozzle.Examples.Http.{server, no_marshal, http_writer, http_writer-IsWrite}
use splunk_firehose_nozzle.Examples.Splunknozzle.{some_config, some_environment}

abbrev made_sink : EventSink
made_sink = record {
  config = sink_config some_environment.network "u" (("env", "dev") ∷ []) some_config;
  parse_config = parse_config some_environment.fold some_config;
  writer_config = writer_config some_config;
  ip = "10.0.0.9";
  workers = 8;
}

sink_made : event_sink some_environment.fold some_environment.network "u" some_config ≡ ok made_sink
unfolding event_sink make_sink parse_extra_fields add_pairs split get_key_value_from_string
    trim_space insert get_host_ip_info
sink_made = refl

abbrev made_router : Router
made_router = record {
  selected_events = ("LogMessage", true) ∷ [];
  config = parse_config some_environment.fold some_config;
}

router_made :
    event_router some_environment.decode some_environment.fold some_config ≡ ok made_router
unfolding event_router parse_config Router.new parse_selected_events select is_authorized_event
    trim_space split insert
router_made = refl

abbrev parts : Parts WriteError (Unit {0}) (List Exchange × ℕ)
parts = wired made_sink table_cache (http_writer made_sink.writer_config) runtime

abbrev begun : Program WriteError (Unit {0}) (List Exchange × ℕ)
begun = started tt (λ i. ([], 0))

abbrev line : Envelope
line = log_of "app-2" "hi"

routed :
    route made_sink.config made_router line
      (record { events = []; dropped_events = 0; warnings = [] })
    ≡ some (record { events = line ∷ []; dropped_events = 0; warnings = [] })
unfolding route write lookup event_name sink_config
routed = refl

-- An envelope comes, and worker 3 of the eight takes it and posts it at its tick.
abbrev configured_run :
    (es : List Envelope) × (ks : List Label) × (p : Program WriteError
      (Unit {0})
      (List Exchange × ℕ))
    × AdvanceRun parts made_router false 8 begun es ks p
unfolding run_loop take_choice count_event note_routed route write lookup event_name report_count
    sink_config
configured_run = (
  _,
  _,
  _,
  onward
      (onward (onward begin (receives false line _ _ refl refl routed))
        (works (took 3 line) refl (takes 3 line [] (pos 5) (omega arith) refl refl)))
      (works (ticked 3) refl (ticks 3 (omega arith) refl)),
)

configured-arrives_example :
    let seats = (reached configured_run.2).router.seats in
    IsPart
      (all_taken configured_run.1 ++ (reached configured_run.2).router.queue.events)
      (asked_for some_environment.decode "LogMessage" configured_run.0)
    × ((i : ℕ)
        → All (λ (q : Post). (1 ≤ length q.events) × (length q.events ≤ 100)) (seats i).posts
          × AllTried no_marshal (writer_config some_config) 5 (seats i).posts (seats i).state.0
          × All
              (λ (x : Exchange). Says "https://splunk:8088" "token" "main" no_marshal x.0)
              (seats i).state.0)
configured-arrives_example =
    configured-arrives some_environment.fold some_environment.network "u" some_environment.decode
      some_config made_sink made_router table_cache runtime server no_marshal
      (http_writer made_sink.writer_config) sink_made router_made
      (http_writer-IsWrite made_sink.writer_config) refl false tt (λ i. 0) (omega arith)
      configured_run.3
