-- ===== src/Sink/Parse/Kinds.antt =====
-- Which conversion parseEvent picks, and every field of what comes out.
use splunk_firehose_nozzle.Base.{String, Option, none, some, ◌≡◌, refl, ◌==◌, if◌then◌else◌, arith}
use splunk_firehose_nozzle.Base.Dict.{lookup}
use splunk_firehose_nozzle.Value.{Value}
use splunk_firehose_nozzle.Base.Dict.{Dict}
use splunk_firehose_nozzle.Cache.App.{GetApp}
use splunk_firehose_nozzle.Events.Envelope.{Envelope, EventType, event_name}
use splunk_firehose_nozzle.Events.Convert
use splunk_firehose_nozzle.Events.Convert.{Event}
use splunk_firehose_nozzle.Events.Annotate.{Config}
use splunk_firehose_nozzle.Sink.Parse.{convert, parse_converted, parse_event}
use splunk_firehose_nozzle.Sink.Parse.Info.{informed_field, lookup-parse_event_info}

-- The conversion that goes by the name of an event type.
abbrev pub event_named : String → Envelope → Option Event
event_named name msg =
    if name == "HttpStart"
    then some (Convert.http_start msg)
    else if name == "HttpStop"
    then some (Convert.http_stop msg)
    else if name == "HttpStartStop"
    then some (Convert.http_start_stop msg)
    else if name == "LogMessage"
    then some (Convert.log_message msg)
    else if name == "ValueMetric"
    then some (Convert.value_metric msg)
    else if name == "CounterEvent"
    then some (Convert.counter_event msg)
    else if name == "Error"
    then some (Convert.error_event msg)
    else if name == "ContainerMetric"
    then some (Convert.container_metric msg)
    else none

module _ {C : Type 0} (get_app : GetApp C) where
  -- The event that the envelope becomes by its type.
  abbrev IsNamed : EventType → Envelope → Type 0
  IsNamed type msg =
      (e : Event) × (event_named (event_name type) msg ≡ some e) × (convert type msg ≡ some e)

  named :
      (config : Config) (msg : Envelope) (cache : C) (fields : Dict Value) (type : EventType)
      → (parse_converted get_app config msg (convert type msg) cache).0 ≡ some fields
      → IsNamed type msg
  unfolding convert event_name parse_converted
  named config msg cache fields EventType.http_start p = (_, refl, refl)
  named config msg cache fields EventType.http_stop p = (_, refl, refl)
  named config msg cache fields EventType.http_start_stop p = (_, refl, refl)
  named config msg cache fields EventType.log_message p = (_, refl, refl)
  named config msg cache fields EventType.value_metric p = (_, refl, refl)
  named config msg cache fields EventType.counter_event p = (_, refl, refl)
  named config msg cache fields EventType.error p = (_, refl, refl)
  named config msg cache fields EventType.container_metric p = (_, refl, refl)
  named config msg cache fields (EventType.unknown n) p = absurd (ground (arith, p))

  -- An envelope that is let through is converted to an event e by the function that goes by the name of
  -- its type, and becomes fields of which each holds: under "msg" the message of e, if there is one; or
  -- else the metadata of the app that e names, if the cache finds it, which is its names and ids that
  -- are not empty and asked for, its index and its mark as ignored; or else the marks of the envelope;
  -- or else what e holds.
  pub lookup-parse_event_named :
      (config : Config) (msg : Envelope) (cache : C) (fields : Dict Value)
      → (parse_event get_app config msg cache).0 ≡ some fields
      → (e : Event) × (event_named (event_name msg.event_type) msg ≡ some e)
        × ((k : String) → lookup k fields ≡ informed_field get_app cache config msg e k)
  unfolding parse_event
  lookup-parse_event_named config msg cache fields p =
      let (e, by_name, converted) = named config msg cache fields msg.event_type p in
      (e, by_name, λ k. lookup-parse_event_info get_app k config msg cache e fields converted p)
