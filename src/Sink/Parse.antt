-- ===== src/Sink/Parse.antt =====
-- parseEvent: an envelope becomes a map of fields, or nothing if it is not to be sent.
pub mod Filter
pub mod Contents
pub mod Info
pub mod Kinds
use Prim.Native.String.{len}
use splunk_firehose_nozzle.Base.{
  String, Bool, true, false, Option, none, some, ltb, is_some, if◌then◌else◌,
}
use splunk_firehose_nozzle.Base.Dict.{Dict, lookup, insert}
use splunk_firehose_nozzle.Value.{Value, bool, str}
use splunk_firehose_nozzle.Cache.App.{GetApp}
use splunk_firehose_nozzle.Events.Envelope
use splunk_firehose_nozzle.Events.Envelope.{Envelope, EventType}
use splunk_firehose_nozzle.Events.Convert
use splunk_firehose_nozzle.Events.Convert.{Event}
use splunk_firehose_nozzle.Events.Annotate.{
  Config, annotate_with_app_data, annotate_with_cf_metadata, annotate_with_envelope_data,
}

-- The switch on the event type; the last clause is its default.
unfoldable pub convert : EventType → Envelope → Option Event
convert EventType.http_start_stop msg = some (Convert.http_start_stop msg)
convert EventType.log_message msg = some (Convert.log_message msg)
convert EventType.value_metric msg = some (Convert.value_metric msg)
convert EventType.counter_event msg = some (Convert.counter_event msg)
convert EventType.error msg = some (Convert.error_event msg)
convert EventType.container_metric msg = some (Convert.container_metric msg)
convert EventType.http_start msg = some (Convert.http_start msg)
convert EventType.http_stop msg = some (Convert.http_stop msg)
convert (EventType.unknown n) msg = none

-- `ignored, ok := fields["cf_ignored_app"]; ok` and `ignored.(bool)`
unfoldable pub is_ignored : Option Value → Bool
is_ignored (some (bool b)) = b
is_ignored _ = false

-- What is sent of an annotated event: nothing if its app is ignored, else its fields, and the
-- message if there is one.
unfoldable pub finish : Event → Option (Dict Value)
finish e =
    if is_ignored (lookup "cf_ignored_app" e.fields)
    then none
    else if ltb 0 (len e.msg)
    then some (insert "msg" (str e.msg) e.fields)
    else some e.fields

module _ {C : Type 0} (get_app : GetApp C) where
  -- the lookup is made only for an event that has the field
  unfoldable pub annotate_app : Config → Event → C → Event × C
  annotate_app config e cache =
      if is_some (lookup "cf_app_id" e.fields)
      then annotate_with_app_data get_app config e cache
      else (e, cache)

  finish_first : Event × C → Option (Dict Value) × C
  finish_first (e, cache) = (finish e, cache)

  parse_converted : Config → Envelope → Option Event → C → Option (Dict Value) × C
  unfolding finish_first
  parse_converted config msg none cache = (none, cache)
  parse_converted config msg (some e) cache = finish_first (
      annotate_app config (annotate_with_cf_metadata (annotate_with_envelope_data msg config e))
        cache)

  unfoldable pub parse_event : Config → Envelope → C → Option (Dict Value) × C
  unfolding parse_converted
  parse_event config msg cache = parse_converted config msg (convert msg.event_type msg) cache
