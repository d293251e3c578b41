-- ===== src/Sink/Build/Contents.antt =====
-- What buildEvent makes of the fields of an event.
use Prim.Native.String.{len}
use splunk_firehose_nozzle.Base.{
  ℕ, String, false, Option, none, some, [], ◌∷◌, ◌≡◌, refl, ◌∙◌, arith, ltb, ◌==◌, eq_iff,
  if◌then◌else◌,
}
use splunk_firehose_nozzle.Base.Int.{ℤ}
use splunk_firehose_nozzle.Base.Dict.{Dict, lookup, insert, lookup-insert, IsMap}
use splunk_firehose_nozzle.Value.{Value, str, obj, nested}
use splunk_firehose_nozzle.Events.Annotate.{value_at}
use splunk_firehose_nozzle.Utils.Json.{to_json}
use splunk_firehose_nozzle.Sink.Build.{
  SinkConfig, Runtime, convert_msg, event_time, set_source_type, trace_fields, add_extra, assemble,
  build_event,
}

-- The fields that are posted: a message that is a text is replaced by what it holds as JSON.
abbrev pub message_of : Runtime → Option Value → Option Value
message_of rt (some (str msg)) =
    if ltb 0 (len msg) then some (to_json rt.json msg) else some (str msg)
message_of rt found = found

message_cases :
    (rt : Runtime) (k : String) (found : Option Value) (fields : Dict Value)
    → lookup "msg" fields ≡ found
    → lookup k (convert_msg rt found fields)
      ≡ (if "msg" == k then message_of rt found else lookup k fields)
unfolding convert_msg
message_cases rt k (some (str msg)) fields h =
    ground (arith, lookup-insert "msg" k (to_json rt.json msg) fields, eq_iff "msg" k)
message_cases rt k found fields h = ground (arith, eq_iff "msg" k)

pub lookup-convert_msg :
    (rt : Runtime) (k : String) (fields : Dict Value)
    → lookup k (convert_msg rt (lookup "msg" fields) fields)
      ≡ (if "msg" == k then message_of rt (lookup "msg" fields) else lookup k fields)
lookup-convert_msg rt k fields = message_cases rt k (lookup "msg" fields) fields refl

lookup-set_source_type :
    (rt : Runtime) (k : String) (v : Value) (event : Dict Value)
    → ("sourcetype" == k) ≡ false
    → lookup k (set_source_type rt v event) ≡ lookup k event
unfolding set_source_type
lookup-set_source_type rt k (str t) event h = lookup-insert "sourcetype" k _ event ∙ rw h refl
lookup-set_source_type rt k v event h = ground arith

lookup-time :
    (k : String) (v : Value) → lookup k (("time", v) ∷ []) ≡ (if "time" == k then some v else none)
unfolding lookup
lookup-time k v = refl

-- The keys that are set in an event, apart from its type.
abbrev pub built_field : SinkConfig → ℤ → ℕ → Dict Value → String → Option Value
built_field config now count fields k =
    if "event" == k
    then some (obj (nested fields))
    else if "fields" == k
    then some (obj (nested (add_extra config.extra_fields (trace_fields config count))))
    else if "source" == k
    then some (value_at "job" fields)
    else if "host" == k
    then some (value_at "ip" fields)
    else if "time" == k
    then some (str (event_time now (lookup "timestamp" fields)))
    else none

lookup-assemble :
    (config : SinkConfig) (rt : Runtime) (now : ℤ) (count : ℕ) (fields : Dict Value) (k : String)
    → ("sourcetype" == k) ≡ false
    → lookup k (assemble config rt now count fields) ≡ built_field config now count fields k
unfolding assemble
lookup-assemble config rt now count fields k h =
    rw
      (
        lookup-insert,
        lookup-insert,
        lookup-set_source_type rt k _ _ h,
        lookup-insert,
        lookup-insert,
        lookup-time,
      )
      refl

-- A built event, apart from its source type: the event's fields with the message decoded stand under
-- "event", and its place, time and extra fields beside them; there is no other key.
pub lookup-build_event :
    (config : SinkConfig) (rt : Runtime) (now : ℤ) (fields : Dict Value) (count : ℕ) (k : String)
    → ("sourcetype" == k) ≡ false
    → lookup k (build_event config rt now fields count).0
      ≡ built_field config now count (convert_msg rt (lookup "msg" fields) fields) k
unfolding build_event
lookup-build_event config rt now fields count k h =
    lookup-assemble config rt now count (convert_msg rt (lookup "msg" fields) fields) k h

abbrev pub extra_over : Option String → Option Value → Option Value
extra_over none base = base
extra_over (some v) base = some (str v)

-- An extra field of the configuration replaces a trace field of the same name, and every other trace
-- field stays.
pub lookup-add_extra :
    (k : String) (extra : Dict String) (base : Dict Value)
    → IsMap extra
    → lookup k (add_extra extra base) ≡ extra_over (lookup k extra) (lookup k base)
unfolding add_extra lookup
lookup-add_extra k [] base h = refl
lookup-add_extra k ((j, v) ∷ rest) base (fresh, unique) =
    lookup-add_extra k rest (insert j (str v) base) unique
    ∙ ground (arith, fresh, eq_iff j k, lookup-insert j k (str v) base)
