-- ===== src/Examples/Router.antt =====
-- The theorems about selection, parsing and the router at concrete inputs.
use splunk_firehose_nozzle.Base.{
  String, true, false, none, some, List, Option, [], ◌∷◌, ◌≡◌, refl, if◌then◌else◌, ltb, ◌^◌, ◌/◌,
  ◌%◌,
}
use splunk_firehose_nozzle.Base.Int.{pos}
use splunk_firehose_nozzle.Base.Dict.{Dict, lookup, insert}
use splunk_firehose_nozzle.Base.Result.{ok}
use splunk_firehose_nozzle.Events.Envelope.{Envelope, EventType, event_name}
use splunk_firehose_nozzle.Events.Annotate
use splunk_firehose_nozzle.Events.Select.{
  parse_selected_events, select, is_authorized_event, authorized_events, mem_text,
}
use splunk_firehose_nozzle.Events.Select.Laws.{wanted_names}
use splunk_firehose_nozzle.Events.Convert
use splunk_firehose_nozzle.Events.Convert.{Event}
use splunk_firehose_nozzle.Router.{Router, new, route, route-new}
use Prim.Native.String.{◌++◌}
use splunk_firehose_nozzle.Sink.Queue.{Queue, write}
use splunk_firehose_nozzle.Sink.Parse.{convert, parse_event, finish, annotate_app, is_ignored}
use splunk_firehose_nozzle.Sink.Parse.Info.{informed_field}
use splunk_firehose_nozzle.Sink.Parse.Kinds.{event_named, lookup-parse_event_named}
use splunk_firehose_nozzle.Cache.App.{GetApp}
use splunk_firehose_nozzle.Utils.Text.{trim_space, split}
use splunk_firehose_nozzle.Utils.Seconds.{nanoseconds_to_seconds, nanoseconds_to_seconds_exact}
use splunk_firehose_nozzle.Utils.Decimal.{format_uint, padded}
use splunk_firehose_nozzle.Value.{Value}
use splunk_firehose_nozzle.Examples.World.{some_config, sink_config, log_of, noisy_app}

abbrev fields_of : Option (Dict Value) → Dict Value
fields_of none = []
fields_of (some fields) = fields

abbrev no_array : String → Option (List String)
no_array text = none

all_names :
    authorized_events
    ≡ "ContainerMetric, CounterEvent, Error, HttpStart, HttpStartStop, HttpStop, LogMessage, ValueMetric"
unfolding authorized_events
all_names = refl

two_selected :
    parse_selected_events no_array " LogMessage, Error"
    ≡ ok (("LogMessage", true) ∷ ("Error", true) ∷ [])
unfolding parse_selected_events select is_authorized_event trim_space split insert
two_selected = refl

abbrev pub log_router : Router
log_router = record { selected_events = ("LogMessage", true) ∷ []; config = some_config }

log_router_made : new no_array some_config ≡ ok log_router
unfolding new parse_selected_events select is_authorized_event trim_space split insert
log_router_made = refl

abbrev empty_queue : Queue Envelope
empty_queue = record { events = []; dropped_events = 0; warnings = [] }

route-new_example : route sink_config log_router (log_of "app-2" "hi") empty_queue ≡ (
    if mem_text (event_name EventType.log_message) (wanted_names no_array "LogMessage")
    then write sink_config (log_of "app-2" "hi") empty_queue
    else some empty_queue)
route-new_example =
    route-new no_array some_config sink_config log_router (log_of "app-2" "hi") empty_queue
      log_router_made

nanoseconds_to_seconds_exact_example : nanoseconds_to_seconds (pos 1467128185055072010) ≡ (
    if ltb 1467128185055072010 (10 ^ 9)
    then "0.0"
    else format_uint (1467128185055072010 / 10 ^ 9)
      ++ ("." ++ padded 9 (1467128185055072010 % 10 ^ 9)))
nanoseconds_to_seconds_exact_example = nanoseconds_to_seconds_exact 1467128185055072010

-- A cache in which every app is the same, and is let through.
abbrev quiet_cache : GetApp (Unit {0})
quiet_cache guid c = (ok (some (record noisy_app { ignored_app = false })), c)

abbrev hello_fields : Dict Value
hello_fields = fields_of (parse_event quiet_cache some_config (log_of "app-1" "hello") tt).0

hello_parsed :
    (parse_event quiet_cache some_config (log_of "app-1" "hello") tt).0 ≡ some hello_fields
unfolding parse_event convert finish is_ignored lookup annotate_app
    Annotate.annotate_with_cf_metadata insert Annotate.annotate_with_envelope_data Annotate.set_if
    Convert.log_message Annotate.annotate_with_app_data Annotate.add_lookup Annotate.add_app_info
hello_parsed = refl

lookup-parse_event_named_example :
    (e : Event) × (event_named "LogMessage" (log_of "app-1" "hello") ≡ some e)
    × ((k : String)
        → lookup k hello_fields
          ≡ informed_field quiet_cache tt some_config (log_of "app-1" "hello") e k)
unfolding event_name
lookup-parse_event_named_example =
    lookup-parse_event_named quiet_cache some_config (log_of "app-1" "hello") tt hello_fields
      hello_parsed
