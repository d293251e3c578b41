-- ===== src/Sink/Build.antt =====
-- buildEvent: the fields of an event become an event of the HTTP event collector.
pub mod Contents
pub mod Posted
pub mod Extra
pub mod Described
use Prim.Native.String.{◌++◌, len}
use splunk_firehose_nozzle.Base.{
  ℕ, ◌+◌, ◌%◌, ◌^◌, String, Char, Bool, Option, some, [], ◌∷◌, ltb, ◌==◌, if◌then◌else◌,
}
use splunk_firehose_nozzle.Base.Int.{ℤ}
use splunk_firehose_nozzle.Base.Dict.{Dict, lookup, insert}
use splunk_firehose_nozzle.Value.{Value, str, int64, obj, nested}
use splunk_firehose_nozzle.Events.Annotate.{value_at}
use splunk_firehose_nozzle.Utils.Decimal.{format_uint}
use splunk_firehose_nozzle.Utils.Seconds.{nanoseconds_to_seconds}
use splunk_firehose_nozzle.Utils.Text.{to_lower}
use splunk_firehose_nozzle.Utils.Json.{Decoder, to_json}

-- The members of SplunkConfig.
pub record SinkConfig : Type 0 where
  pub flush_interval : ℤ
  pub queue_size : ℕ
  pub batch_size : ℕ
  pub retries : ℕ
  pub hostname : String
  pub subscription_id : String
  pub extra_fields : Dict String
  pub trace_logging : Bool
  pub uuid : String
  pub status_monitor_interval : ℤ
  pub drop_warn_threshold : ℕ
  pub logging_index : String

-- What the sink takes from the standard library: the decoder of JSON, and the lower case of the
-- characters that are not ASCII.
pub record Runtime : Type 0 where
  pub json : Decoder
  pub fold : Char → Char

-- `msg` is replaced by the JSON that it holds.
pub convert_msg : Runtime → Option Value → Dict Value → Dict Value
convert_msg rt (some (str msg)) fields =
    if ltb 0 (len msg) then insert "msg" (to_json rt.json msg) fields else fields
convert_msg rt _ fields = fields

-- The event's own time, or the time of the call.
unfoldable pub event_time : ℤ → Option Value → String
event_time now (some (int64 v)) =
    let timestamp = nanoseconds_to_seconds v in
    if timestamp == "" then nanoseconds_to_seconds now else timestamp
event_time now _ = nanoseconds_to_seconds now

set_source_type : Runtime → Value → Dict Value → Dict Value
set_source_type rt (str event_type) event =
    insert "sourcetype" (str ("cf:" ++ to_lower rt.fold event_type)) event
set_source_type rt _ event = event

-- atomic.AddUint64(&s.eventCount, 1)
abbrev next_count : ℕ → ℕ
next_count n = (n + 1) % 2 ^ 64

pub trace_fields : SinkConfig → ℕ → Dict Value
trace_fields config count =
    if config.trace_logging
    then ("nozzle-event-counter", str (format_uint (next_count count)))
      ∷ ("subscription-id", str config.subscription_id)
      ∷ ("uuid", str config.uuid)
      ∷ []
    else []

-- for k, v := range s.config.ExtraFields
unfoldable pub add_extra : Dict String → Dict Value → Dict Value
add_extra [] fields = fields
add_extra ((k, v) ∷ rest) fields = add_extra rest (insert k (str v) fields)

assemble : SinkConfig → Runtime → ℤ → ℕ → Dict Value → Dict Value
unfolding set_source_type trace_fields
assemble config rt now count fields =
    let timed = ("time", str (event_time now (lookup "timestamp" fields))) ∷ [] in
    let placed =
      insert "source" (value_at "job" fields) (insert "host" (value_at "ip" fields) timed) in
    let typed = set_source_type rt (value_at "event_type" fields) placed in
    let extra = add_extra config.extra_fields (trace_fields config count) in
    insert "event" (obj (nested fields)) (insert "fields" (obj (nested extra)) typed)

-- The counter `count` is shared by all workers.
unfoldable pub build_event : SinkConfig → Runtime → ℤ → Dict Value → ℕ → Dict Value × ℕ
unfolding convert_msg assemble
build_event config rt now fields count = (
  assemble config rt now count (convert_msg rt (lookup "msg" fields) fields),
  (if config.trace_logging then next_count count else count),
)
