-- ===== src/Sink/Build/Described.antt =====
-- Every key of an event that buildEvent makes, in the words of the documentation of the collector.
use Prim.Native.String.{◌++◌}
use splunk_firehose_nozzle.Base.{
  ℕ, ◌+◌, ◌%◌, ◌^◌, String, true, false, Option, none, some, [], ◌∷◌, ◌≡◌, refl, ap, subst, ◌∙◌,
  arith, ◌==◌, eq_iff, if◌then◌else◌, Bool-cases, inl, inr,
}
use splunk_firehose_nozzle.Base.Int.{ℤ}
use splunk_firehose_nozzle.Base.Dict.{Dict, lookup, lookup-insert, IsMap}
use splunk_firehose_nozzle.Value.{Value, nil, int64, str, obj, nested}
use splunk_firehose_nozzle.Events.Annotate.{value_at}
use splunk_firehose_nozzle.Utils.Decimal.{format_uint}
use splunk_firehose_nozzle.Utils.Seconds.{nanoseconds_to_seconds, nanoseconds_to_seconds-filled}
use splunk_firehose_nozzle.Utils.Text.{to_lower}
use splunk_firehose_nozzle.Sink.Build.{
  SinkConfig, Runtime, convert_msg, event_time, set_source_type, trace_fields, add_extra, assemble,
  build_event,
}
use splunk_firehose_nozzle.Sink.Build.Contents.{
  message_of, lookup-convert_msg, extra_over, lookup-add_extra, lookup-build_event,
}

-- What tracing adds to an event when `count` events were counted before it.
abbrev pub traced : SinkConfig → ℕ → String → Option Value
traced config count k =
    if config.trace_logging
    then (if "nozzle-event-counter" == k
        then some (str (format_uint ((count + 1) % 2 ^ 64)))
        else if "subscription-id" == k
        then some (str config.subscription_id)
        else if "uuid" == k
        then some (str config.uuid)
        else none)
    else none

lookup-trace_fields :
    (config : SinkConfig) (count : ℕ) (k : String)
    → lookup k (trace_fields config count) ≡ traced config count k
unfolding trace_fields lookup
lookup-trace_fields config count k = elim (Bool-cases config.trace_logging) [
  | inl on ↦ rw on refl
  | inr off ↦ rw off refl
]

-- The time of an event that has the timestamp v, or none that is a number.
abbrev pub time_of : ℤ → Option Value → String
time_of now (some (int64 v)) = nanoseconds_to_seconds v
time_of now _ = nanoseconds_to_seconds now

event_time-time_of : (now : ℤ) (found : Option Value) → event_time now found ≡ time_of now found
unfolding event_time
event_time-time_of now (some (int64 v)) = rw (nanoseconds_to_seconds-filled v) refl
event_time-time_of now found = ground arith

-- The source type of an event of that type, if the type is a text.
abbrev pub source_type_of : Runtime → Option Value → Option Value
source_type_of rt (some (str type)) = some (str ("cf:" ++ to_lower rt.fold type))
source_type_of rt _ = none

-- The keys of an event: `shown` is what it shows, `posted` what is posted beside it.
abbrev pub described : Runtime → ℤ → Dict Value → Dict Value → Dict Value → String → Option Value
described rt now fields shown posted k =
    if "event" == k
    then some (obj (nested shown))
    else if "fields" == k
    then some (obj (nested posted))
    else if "source" == k
    then some (value_at "job" fields)
    else if "host" == k
    then some (value_at "ip" fields)
    else if "time" == k
    then some (str (time_of now (lookup "timestamp" fields)))
    else if "sourcetype" == k
    then source_type_of rt (lookup "event_type" fields)
    else none

typed :
    (rt : Runtime) (found : Option Value) (m : Dict Value)
    → lookup "sourcetype" m ≡ none
    → lookup "sourcetype" (set_source_type rt (elim found [ none ↦ nil | some v ↦ v ]) m)
      ≡ source_type_of rt found
unfolding set_source_type
typed rt (some (str type)) m h = lookup-insert "sourcetype" "sourcetype" _ m
typed rt found m h = ground (arith, h)

module _ (config : SinkConfig) (rt : Runtime) (now : ℤ) (fields : Dict Value) (count : ℕ) where
  abbrev shown : Dict Value
  shown = convert_msg rt (lookup "msg" fields) fields

  abbrev posted : Dict Value
  posted = add_extra config.extra_fields (trace_fields config count)

  kept : (k : String) → ("msg" == k) ≡ false → lookup k shown ≡ lookup k fields
  kept k h = lookup-convert_msg rt k fields ∙ rw h refl

  kept_value : (k : String) → ("msg" == k) ≡ false → value_at k shown ≡ value_at k fields
  kept_value k h = ap (λ (found : Option Value). elim found [ none ↦ nil | some v ↦ v ]) (kept k h)

  lookup-other :
      (k : String)
      → ("sourcetype" == k) ≡ false
      → lookup k (build_event config rt now fields count).0 ≡ described rt now fields shown posted k
  lookup-other k h =
      lookup-build_event config rt now fields count k h
      ∙ rw
          (
            kept_value "job" refl,
            kept_value "ip" refl,
            kept "timestamp" refl,
            event_time-time_of now (lookup "timestamp" fields),
            h,
          )
          refl

  no_type : (v : Value) → lookup "sourcetype" (("time", v) ∷ []) ≡ none
  unfolding lookup
  no_type v = refl

  the_key : (k : String) → ("sourcetype" == k) ≡ true → "sourcetype" ≡ k
  the_key k h = ground (arith, eq_iff "sourcetype" k, h)

  lookup-source_type :
      lookup "sourcetype" (build_event config rt now fields count).0
      ≡ source_type_of rt (lookup "event_type" fields)
  unfolding build_event assemble
  lookup-source_type =
      rw (lookup-insert, lookup-insert)
        (typed rt (lookup "event_type" shown) _ (rw (lookup-insert, lookup-insert) (no_type _))
          ∙ ap (λ (found : Option Value). source_type_of rt found) (kept "event_type" refl))

  -- Under every key, what an event that buildEvent makes holds, and the count behind it, with extra
  -- fields of which each stands once: under "event" the fields, with a message that is a text and not
  -- empty replaced by the JSON it holds; under "fields" the extra fields over those of tracing, which
  -- are the next count, the subscription and the UUID; the job and the address of the fields; their
  -- timestamp if it is an int64, and else the time of the call; the source type if the type is a text;
  -- and nothing else. The count goes up by one, modulo 2 ^ 64, exactly with tracing.
  pub build_event-described :
      IsMap config.extra_fields
      → (shows posts : Dict Value) × ((k : String)
          → lookup k shows
            ≡ (if "msg" == k then message_of rt (lookup "msg" fields) else lookup k fields))
        × ((k : String)
            → lookup k posts ≡ extra_over (lookup k config.extra_fields) (traced config count k))
        × ((k : String)
            → lookup k (build_event config rt now fields count).0
              ≡ described rt now fields shows posts k)
        × ((build_event config rt now fields count).1
            ≡ (if config.trace_logging then (count + 1) % 2 ^ 64 else count))
  unfolding build_event
  build_event-described unique = (
    shown,
    posted,
    λ k. lookup-convert_msg rt k fields,
    λ k.
        lookup-add_extra k config.extra_fields (trace_fields config count) unique
        ∙ ap (λ (base : Option Value). extra_over (lookup k config.extra_fields) base)
            (lookup-trace_fields config count k),
    λ k. elim (Bool-cases ("sourcetype" == k)) [
      | inl here ↦
          subst
            (λ (j : String).
              lookup j (build_event config rt now fields count).0
              ≡ described rt now fields shown posted j)
            (the_key k here) lookup-source_type
      | inr other ↦ lookup-other k other
    ],
    refl,
  )
