-- ===== src/Sink/Build/Extra.antt =====
-- The extra fields of the user's text in the events that are posted.
use splunk_firehose_nozzle.Base.{ℕ, String, Option, none, some, ◌≡◌, refl, ◌∙◌, ap}
use splunk_firehose_nozzle.Base.Int.{ℤ}
use splunk_firehose_nozzle.Base.Dict.{Dict, lookup}
use splunk_firehose_nozzle.Base.Result.{ok}
use splunk_firehose_nozzle.Value.{Value, obj, nested}
use splunk_firehose_nozzle.Utils.Text.{split}
use splunk_firehose_nozzle.Events.Extra.{parse_extra_fields}
use splunk_firehose_nozzle.Events.Extra.Laws.{
  last_given, parse_extra_fields-IsMap, lookup-parse_extra_fields,
}
use splunk_firehose_nozzle.Sink.Build.{SinkConfig, Runtime, trace_fields, add_extra, build_event}
use splunk_firehose_nozzle.Sink.Build.Contents.{extra_over, lookup-add_extra, lookup-build_event}

-- With the extra fields that ParseExtraFields makes of a text: the member "fields" of every event that
-- buildEvent makes holds, under each key, the value that the last of the text's parts with that key
-- gives it, and the trace field of the key, if there is one, where no part has the key.
pub lookup-posted_extra :
    (text : String) (config : SinkConfig) (rt : Runtime) (now : ℤ) (fields : Dict Value) (count : ℕ)
    → parse_extra_fields text ≡ ok config.extra_fields
    → (posted : Dict Value) × (lookup "fields" (build_event config rt now fields count).0
        ≡ some (obj (nested posted)))
      × ((k : String)
          → lookup k posted
            ≡ extra_over
                (last_given k (split b',' text) none)
                (lookup k (trace_fields config count)))
lookup-posted_extra text config rt now fields count parsed = (
  add_extra config.extra_fields (trace_fields config count),
  lookup-build_event config rt now fields count "fields" refl,
  λ k.
      lookup-add_extra k config.extra_fields (trace_fields config count)
        (parse_extra_fields-IsMap text config.extra_fields parsed)
      ∙ ap (λ (given : Option String). extra_over given (lookup k (trace_fields config count)))
          (lookup-parse_extra_fields k text config.extra_fields parsed),
)
