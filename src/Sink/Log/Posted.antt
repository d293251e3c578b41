-- ===== src/Sink/Log/Posted.antt =====
-- The writer's Write prepares the nozzle's own messages.
use splunk_firehose_nozzle.Base.{
  String, true, false, Option, none, some, [], ◌∷◌, Bool, ◌&&◌, ◌==◌, not, if◌then◌else◌, ◌≡◌, refl,
  ◌∙◌, ap, ltb, length, arith,
}
use splunk_firehose_nozzle.Base.Dict.{lookup}
use splunk_firehose_nozzle.Value.{Value, str, obj, nested, entries, entries-nested, nil, is_nil}
use splunk_firehose_nozzle.Events.Annotate.{value_at}
use splunk_firehose_nozzle.Events.Annotate.Frame.{lookup-set_if}
use splunk_firehose_nozzle.Sink.Build.{SinkConfig}
use splunk_firehose_nozzle.Sink.Log.{LogFormat, log_fields, log_event}
use splunk_firehose_nozzle.Writer.{WriterConfig, Event, prepare}
use splunk_firehose_nozzle.Writer.Index.{prepare-index}

-- The index of a message of the nozzle: its own, that of the events, or none.
abbrev pub log_index : WriterConfig → SinkConfig → Option Value
log_index writer_config config =
    if config.logging_index == ""
    then (if writer_config.index == "" then none else some (str writer_config.index))
    else some (str config.logging_index)

and_false : (b : Bool) → (b && false) ≡ false
and_false true = refl
and_false false = refl

-- What stands in a message without the parts that may be missing.
abbrev base : SinkConfig → String → LogFormat → Event
base config ip message =
    ("host", str config.hostname)
    ∷ ("sourcetype", str "cf:splunknozzle")
    ∷ ("event", obj (nested (log_fields ip message)))
    ∷ []

lookup-log_event :
    (config : SinkConfig) (ip : String) (message : LogFormat) (k : String)
    → ("time" == k) ≡ false
    → lookup k (log_event config ip message) ≡ (
        if not (config.logging_index == "") && ("index" == k)
        then some (str config.logging_index)
        else lookup k (base config ip message))
unfolding log_event
lookup-log_event config ip message k h =
    rw (lookup-set_if, h, and_false (not (message.timestamp == "")), lookup-set_if)

base-event :
    (config : SinkConfig) (ip : String) (message : LogFormat)
    → lookup "event" (base config ip message) ≡ some (obj (nested (log_fields ip message)))
unfolding lookup
base-event config ip message = refl

base-index :
    (config : SinkConfig) (ip : String) (message : LogFormat)
    → lookup "index" (base config ip message) ≡ none
unfolding lookup
base-index config ip message = refl

no_app_index :
    (ip : String) (message : LogFormat) → lookup "info_splunk_index" (log_fields ip message) ≡ none
unfolding log_fields lookup
no_app_index ip message =
    lookup-set_if _ "data" "info_splunk_index" _ _
    ∙ rw (and_false (ltb 0 (length message.message_data))) refl

nil_index :
    (ip : String) (message : LogFormat)
    → is_nil (value_at "info_splunk_index" (entries (nested (log_fields ip message)))) ≡ true
nil_index ip message =
    rw entries-nested
      (ap (λ found. is_nil (elim found [ none ↦ nil | some v ↦ v ])) (no_app_index ip message))

-- A message of the nozzle is prepared by Write without a panic, and the index that it names is the one
-- for logging if that is not empty, else the configured one if that is not.
prepare-log_event :
    (writer_config : WriterConfig) (config : SinkConfig) (ip : String) (message : LogFormat)
    → (e : Event) × (prepare writer_config (log_event config ip message) ≡ some e)
      × (lookup "index" e ≡ log_index writer_config config)
prepare-log_event writer_config config ip message =
    let (e, prepared, named) =
      prepare-index writer_config (log_event config ip message) (nested (log_fields ip message)) (
        lookup-log_event config ip message "event" refl
        ∙ rw (and_false (not (config.logging_index == ""))) (base-event config ip message)) in
    (
      e,
      prepared,
      named
          ∙ ground (
            arith,
            lookup-log_event config ip message "index" refl,
            base-index config ip message,
            nil_index ip message,
          ),
    )
