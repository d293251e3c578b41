-- ===== src/Sink/Log.antt =====
-- Log: the nozzle's own messages, as events of the HTTP event collector.
pub mod Posted
use splunk_firehose_nozzle.Base.{
  ℕ, String, Bool, not, List, [], ◌∷◌, length, ltb, ◌==◌, if◌then◌else◌,
}
use splunk_firehose_nozzle.Base.Int.{ℤ}
use splunk_firehose_nozzle.Base.Dict.{Dict, insert}
use splunk_firehose_nozzle.Value.{Value, str, int, obj, nested}
use splunk_firehose_nozzle.Events.Annotate.{set_if}
use splunk_firehose_nozzle.Sink.Build.{SinkConfig}
use splunk_firehose_nozzle.Sink.Index.{Writer}
use splunk_firehose_nozzle.Sink.Consume.{Built}

-- lager's LogFormat, as far as Log reads it; a level is its number.
pub record LogFormat : Type 0 where
  pub source : String
  pub message : String
  log_level : ℤ
  pub timestamp : String
  pub message_data : Dict Value

-- for key, value := range message.Data
copy_data : Dict Value → Dict Value → Dict Value
copy_data [] copied = copied
copy_data ((k, v) ∷ rest) copied = copy_data rest (insert k v copied)

unfoldable pub log_fields : String → LogFormat → Dict Value
unfolding copy_data
log_fields ip message =
    set_if (ltb 0 (length message.message_data)) "data"
      (obj (nested (copy_data message.message_data [])))
      (("logger_source", str message.source)
        ∷ ("message", str message.message)
        ∷ ("ip", str ip)
        ∷ ("origin", str "splunk_nozzle")
        ∷ ("log_level", int message.log_level)
        ∷ [])

-- The map under "event" is complete when the writer reads it.
unfoldable pub log_event : SinkConfig → String → LogFormat → Built
log_event config ip message =
    set_if (not (message.timestamp == "")) "time" (str message.timestamp) (
      set_if (not (config.logging_index == "")) "index" (str config.logging_index) (
        ("host", str config.hostname)
        ∷ ("sourcetype", str "cf:splunknozzle")
        ∷ ("event", obj (nested (log_fields ip message)))
        ∷ []))

-- One call of the last writer; its result is ignored.
unfoldable pub log : {Err W : Type 0} → Writer Built Err W → SinkConfig → String → LogFormat → W → W
log writer config ip message w = (writer (log_event config ip message ∷ []) w).1
