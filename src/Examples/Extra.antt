-- ===== src/Examples/Extra.antt =====
-- The theorems about extra fields on a text with blanks, an empty part and a key that stands twice.
use splunk_firehose_nozzle.Base.{
  ◌+◌, ◌%◌, ◌^◌, ◌==◌, if◌then◌else◌, String, none, some, [], ◌∷◌, ◌≡◌, refl,
}
use splunk_firehose_nozzle.Base.Int.{pos}
use splunk_firehose_nozzle.Base.Dict.{Dict, lookup, insert, IsMap}
use splunk_firehose_nozzle.Base.Result.{ok, is_ok}
use splunk_firehose_nozzle.Value.{Value, int64, str, obj, nested}
use splunk_firehose_nozzle.Utils.Text.{split, trim_space}
use splunk_firehose_nozzle.Events.Extra.{parse_extra_fields, add_pairs, get_key_value_from_string}
use splunk_firehose_nozzle.Events.Extra.Laws.{all_pairs, last_given, is_ok-parse_extra_fields}
use splunk_firehose_nozzle.Sink.Build.{SinkConfig, build_event, trace_fields}
use splunk_firehose_nozzle.Sink.Build.Contents.{extra_over, message_of}
use splunk_firehose_nozzle.Sink.Build.Described.{traced, described, build_event-described}
use splunk_firehose_nozzle.Sink.Build.Extra.{lookup-posted_extra}
use splunk_firehose_nozzle.Examples.World.{sink_config, runtime}

abbrev text : String
text = "env : dev, uuid:x,,env:test"

abbrev extra : Dict String
extra = ("env", "test") ∷ ("uuid", "x") ∷ []

text_parsed : parse_extra_fields text ≡ ok extra
unfolding parse_extra_fields add_pairs split get_key_value_from_string trim_space insert
text_parsed = refl

abbrev extra_config : SinkConfig
extra_config = record sink_config { extra_fields = extra }

is_ok-parse_extra_fields_example :
    is_ok (parse_extra_fields "env:dev,a:b:c") ≡ all_pairs (split b',' "env:dev,a:b:c")
is_ok-parse_extra_fields_example = is_ok-parse_extra_fields "env:dev,a:b:c"

lookup-posted_extra_example :
    (posted : Dict Value) × (lookup "fields"
        (build_event extra_config runtime (pos 7) (("msg", str "hi") ∷ []) 0).0
      ≡ some (obj (nested posted)))
    × ((k : String)
        → lookup k posted
          ≡ extra_over
              (last_given k (split b',' text) none)
              (lookup k (trace_fields extra_config 0)))
lookup-posted_extra_example =
    lookup-posted_extra text extra_config runtime (pos 7) (("msg", str "hi") ∷ []) 0 text_parsed

extra-IsMap : IsMap extra
unfolding lookup
extra-IsMap = (refl, (refl, tt))

abbrev timed : Dict Value
timed =
    ("msg", str "hi")
    ∷ ("timestamp", int64 (pos 1467128185055072010))
    ∷ ("event_type", str "LogMessage")
    ∷ []

build_event-described_example :
    (shows posts : Dict Value) × ((k : String)
      → lookup k shows
        ≡ (if "msg" == k then message_of runtime (lookup "msg" timed) else lookup k timed))
    × ((k : String) → lookup k posts ≡ extra_over (lookup k extra) (traced extra_config 0 k))
    × ((k : String)
        → lookup k (build_event extra_config runtime (pos 7) timed 0).0
          ≡ described runtime (pos 7) timed shows posts k)
    × ((build_event extra_config runtime (pos 7) timed 0).1
        ≡ (if extra_config.trace_logging then (0 + 1) % 2 ^ 64 else 0))
build_event-described_example =
    build_event-described extra_config runtime (pos 7) timed 0 extra-IsMap
