-- ===== src/Events/Convert.antt =====
-- The functions of events/events.go that make an event of each kind of envelope.
use splunk_firehose_nozzle.Base.{String, [], ◌∷◌, if◌then◌else◌}
use splunk_firehose_nozzle.Base.Int.{◌-ℤ◌, div_ℤ, wrap64}
use splunk_firehose_nozzle.Base.Dict.{Dict}
use splunk_firehose_nozzle.Utils.Uuid.{format_uuid}
use splunk_firehose_nozzle.Value.{
  Value, str, int32, int64, uint64, float64, texts, is_nan, plus_inf, minus_inf,
}
use splunk_firehose_nozzle.Base.{eqb, ℕ}
use splunk_firehose_nozzle.Events.Envelope.{Envelope}

pub record Event : Type 0 where
  pub fields : Dict Value
  pub msg : String
  pub type : String

abbrev event_of : Dict Value → String → Event
event_of fields msg = record { fields = fields; msg = msg; type = "" }

unfoldable pub http_start : Envelope → Event
http_start envelope =
    event_of
      (("timestamp", int64 start.timestamp)
        ∷ ("request_id", str (format_uuid start.request_id))
        ∷ ("method", str start.method)
        ∷ ("uri", str start.uri)
        ∷ ("remote_addr", str start.remote_address)
        ∷ ("user_agent", str start.user_agent)
        ∷ ("parent_request_id", str (format_uuid start.parent_request_id))
        ∷ ("cf_app_id", str (format_uuid start.application_id))
        ∷ ("instance_index", int32 start.instance_index)
        ∷ ("instance_id", str start.instance_id)
        ∷ [])
      ""
  where
    open envelope use {http_start as start}

unfoldable pub http_stop : Envelope → Event
http_stop envelope =
    event_of
      (("timestamp", int64 stop.timestamp)
        ∷ ("uri", str stop.uri)
        ∷ ("request_id", str (format_uuid stop.request_id))
        ∷ ("peer_type", str stop.peer_type)
        ∷ ("status_code", int32 stop.status_code)
        ∷ ("content_length", int64 stop.content_length)
        ∷ ("cf_app_id", str (format_uuid stop.application_id))
        ∷ [])
      ""
  where
    open envelope use {http_stop as stop}

unfoldable pub http_start_stop : Envelope → Event
http_start_stop envelope =
    event_of
      (("cf_app_id", str (format_uuid both.application_id))
        ∷ ("content_length", int64 both.content_length)
        ∷ ("instance_id", str both.instance_id)
        ∷ ("instance_index", int32 both.instance_index)
        ∷ ("method", str both.method)
        ∷ ("peer_type", str both.peer_type)
        ∷ ("remote_addr", str both.remote_address)
        ∷ ("request_id", str (format_uuid both.request_id))
        ∷ ("start_timestamp", int64 both.start_timestamp)
        ∷ ("status_code", int32 both.status_code)
        ∷ ("stop_timestamp", int64 both.stop_timestamp)
        ∷ ("uri", str both.uri)
        ∷ ("user_agent", str both.user_agent)
        ∷ (
          "duration_ms",
          int64 (div_ℤ (div_ℤ (wrap64 (both.stop_timestamp -ℤ both.start_timestamp)) 1000) 1000),
        )
        ∷ ("forwarded", texts both.forwarded)
        ∷ [])
      ""
  where
    open envelope use {http_start_stop as both}

unfoldable pub log_message : Envelope → Event
log_message envelope =
    event_of
      (("cf_app_id", str log.app_id)
        ∷ ("timestamp", int64 log.timestamp)
        ∷ ("source_type", str log.source_type)
        ∷ ("message_type", str log.message_type)
        ∷ ("source_instance", str log.source_instance)
        ∷ [])
      log.message
  where
    open envelope use {log_message as log}

-- The special values as text, which JSON can carry.
unfoldable pub convert_value : ℕ → Value
unfolding is_nan
convert_value value =
    if is_nan value
    then str "NaN"
    else if eqb value plus_inf
    then str "Infinity"
    else if eqb value minus_inf
    then str "-Infinity"
    else float64 value

unfoldable pub value_metric : Envelope → Event
value_metric envelope =
    event_of
      (("name", str metric.name)
        ∷ ("unit", str metric.unit)
        ∷ ("value", convert_value metric.value)
        ∷ [])
      ""
  where
    open envelope use {value_metric as metric}

unfoldable pub counter_event : Envelope → Event
counter_event envelope =
    event_of
      (("name", str counter.name)
        ∷ ("delta", uint64 counter.delta)
        ∷ ("total", uint64 counter.total)
        ∷ [])
      ""
  where
    open envelope use {counter_event as counter}

unfoldable pub error_event : Envelope → Event
error_event envelope =
    event_of (("code", int32 failure.code) ∷ ("source", str failure.source) ∷ []) failure.message
  where
    open envelope use {error as failure}

unfoldable pub container_metric : Envelope → Event
container_metric envelope =
    event_of
      (("cf_app_id", str container.application_id)
        ∷ ("cpu_percentage", float64 container.cpu_percentage)
        ∷ ("disk_bytes", uint64 container.disk_bytes)
        ∷ ("disk_bytes_quota", uint64 container.disk_bytes_quota)
        ∷ ("instance_index", int32 container.instance_index)
        ∷ ("memory_bytes", uint64 container.memory_bytes)
        ∷ ("memory_bytes_quota", uint64 container.memory_bytes_quota)
        ∷ [])
      ""
  where
    open envelope use {container_metric as container}
