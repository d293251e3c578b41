-- ===== src/Sink/Build/Posted.antt =====
-- The writer's Write prepares what the sink builds.
use splunk_firehose_nozzle.Base.{
  ℕ, String, Option, none, some, ◌≡◌, refl, ◌∙◌, ap, ◌==◌, if◌then◌else◌,
}
use splunk_firehose_nozzle.Base.Int.{ℤ}
use splunk_firehose_nozzle.Base.Dict.{Dict, lookup}
use splunk_firehose_nozzle.Value.{Value, nil, str, nested, entries-nested, is_nil}
use splunk_firehose_nozzle.Events.Annotate.{value_at}
use splunk_firehose_nozzle.Sink.Build.{SinkConfig, Runtime, convert_msg, build_event}
use splunk_firehose_nozzle.Sink.Build.Contents.{lookup-build_event, lookup-convert_msg}
use splunk_firehose_nozzle.Writer.{WriterConfig, Event, prepare}
use splunk_firehose_nozzle.Writer.Index.{expected_index, prepare-index}

-- The index of a posted event: that of its app, the configured one if that is not empty, or none.
abbrev pub index_for : WriterConfig → Dict Value → Option Value
index_for config fields =
    if is_nil (value_at "info_splunk_index" fields)
    then (if config.index == "" then none else some (str config.index))
    else some (value_at "info_splunk_index" fields)

value_at-cong :
    (k : String) (m m' : Dict Value) → lookup k m ≡ lookup k m' → value_at k m ≡ value_at k m'
value_at-cong k m m' h = ap (λ found. elim found [ none ↦ nil | some v ↦ v ]) h

-- An event that the sink builds of any fields is prepared by Write without a panic, and the index that
-- it then names is that of the app in the fields, or else the configured one if that is not empty.
pub prepare-build_event :
    (writer_config : WriterConfig) (config : SinkConfig) (rt : Runtime) (now : ℤ)
    (fields : Dict Value) (count : ℕ)
    → (e : Event) × (prepare writer_config (build_event config rt now fields count).0 ≡ some e)
      × (lookup "index" e ≡ index_for writer_config fields)
prepare-build_event writer_config config rt now fields count =
    let converted = convert_msg rt (lookup "msg" fields) fields in
    let event = (build_event config rt now fields count).0 in
    let (e, prepared, index) =
      prepare-index writer_config event (nested converted)
        (lookup-build_event config rt now fields count "event" refl) in
    (e, prepared, index ∙ same_index)
  where
    same_index :
        expected_index writer_config
          (build_event config rt now fields count).0
          (nested (convert_msg rt (lookup "msg" fields) fields))
        ≡ index_for writer_config fields
    same_index =
        rw
          (
            lookup-build_event config rt now fields count "index" refl,
            entries-nested,
            value_at-cong "info_splunk_index" (convert_msg rt (lookup "msg" fields) fields) fields
                (lookup-convert_msg rt "info_splunk_index" fields),
          )
          refl
