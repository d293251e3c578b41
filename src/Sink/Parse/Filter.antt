-- ===== src/Sink/Parse/Filter.antt =====
-- Which envelopes parseEvent lets through.
use splunk_firehose_nozzle.Base.{
  String, Bool, true, false, ◌&&◌, ◌||◌, not, Option, none, some, ◌≡◌, ◌∙◌, refl, arith, ◌==◌,
  is_some, if◌then◌else◌,
}
use splunk_firehose_nozzle.Base.Dict.{Dict, lookup}
use splunk_firehose_nozzle.Base.Result.{Result, ok, err}
use splunk_firehose_nozzle.Value.{Value, bool, str}
use splunk_firehose_nozzle.Cache.App.{App, CacheError, GetApp}
use splunk_firehose_nozzle.Utils.Uuid.{format_uuid}
use splunk_firehose_nozzle.Events.Envelope.{Envelope, EventType}
use splunk_firehose_nozzle.Events.Convert
use splunk_firehose_nozzle.Events.Convert.{Event}
use splunk_firehose_nozzle.Events.Annotate.{
  Config, add_lookup, annotate_with_app_data, annotate_with_cf_metadata,
  annotate_with_envelope_data,
}
use splunk_firehose_nozzle.Events.Annotate.Frame.{lookup-stamped, lookup-ignored_app}
use splunk_firehose_nozzle.Sink.Parse.{
  convert, finish, annotate_app, parse_converted, parse_event, is_ignored,
}

-- The app that an envelope of each type names.
abbrev pub app_id_of : EventType → Envelope → Option String
app_id_of EventType.http_start msg = some (format_uuid msg.http_start.application_id)
app_id_of EventType.http_stop msg = some (format_uuid msg.http_stop.application_id)
app_id_of EventType.http_start_stop msg = some (format_uuid msg.http_start_stop.application_id)
app_id_of EventType.log_message msg = some msg.log_message.app_id
app_id_of EventType.container_metric msg = some msg.container_metric.application_id
app_id_of _ msg = none

abbrev pub is_known : EventType → Bool
is_known (EventType.unknown n) = false
is_known _ = true

abbrev pub found_app : Result CacheError (Option App) → Option App
found_app (ok app) = app
found_app (err e) = none

abbrev pub is_ignored_app : Option App → Bool
is_ignored_app none = false
is_ignored_app (some app) = app.ignored_app

module _ {C : Type 0} (get_app : GetApp C) where
  -- what the cache says of the app, which is asked of no empty id
  abbrev pub app_seen : Option String → C → Option App
  app_seen none cache = none
  app_seen (some id) cache =
      if id == "<nil>" || id == "" then none else found_app (get_app id cache).0

  abbrev mark : Bool → Option Value
  mark ignored = if ignored then some (bool true) else none

  abbrev text_of : Option String → Option Value
  text_of none = none
  text_of (some id) = some (str id)

  add_lookup-mark :
      (config : Config) (found : Result CacheError (Option App)) (fields : Dict Value)
      → lookup "cf_ignored_app" fields ≡ none
      → lookup "cf_ignored_app" (add_lookup config found fields)
        ≡ mark (is_ignored_app (found_app found))
  unfolding add_lookup
  add_lookup-mark config (err e) fields h = h
  add_lookup-mark config (ok none) fields h = h
  add_lookup-mark config (ok (some app)) fields h = lookup-ignored_app config app fields ∙ rw h

  annotate_app-mark :
      (config : Config) (e : Event) (cache : C) (id : Option String)
      → lookup "cf_app_id" e.fields ≡ text_of id
      → lookup "cf_ignored_app" e.fields ≡ none
      → lookup "cf_ignored_app" (annotate_app get_app config e cache).0.fields
        ≡ mark (is_ignored_app (app_seen id cache))
  unfolding annotate_app annotate_with_app_data
  annotate_app-mark config e cache none h k = rw h k
  annotate_app-mark config e cache (some id) h k =
      ground (arith, add_lookup-mark config (get_app id cache).0 e.fields)

  is_some-finish :
      (e : Event) → is_some (finish e) ≡ not (is_ignored (lookup "cf_ignored_app" e.fields))
  unfolding finish
  is_some-finish e = ground arith

  -- the two annotations that every event gets
  stamped : Config → Envelope → Event → Event
  stamped config msg e = annotate_with_cf_metadata (annotate_with_envelope_data msg config e)

  lookup-stamped_id :
      (config : Config) (msg : Envelope) (e : Event)
      → lookup "cf_app_id" (stamped config msg e).fields ≡ lookup "cf_app_id" e.fields
  unfolding stamped
  lookup-stamped_id config msg e = lookup-stamped "cf_app_id" msg config e ∙ ground arith

  lookup-stamped_mark :
      (config : Config) (msg : Envelope) (e : Event)
      → lookup "cf_ignored_app" (stamped config msg e).fields ≡ lookup "cf_ignored_app" e.fields
  unfolding stamped
  lookup-stamped_mark config msg e = lookup-stamped "cf_ignored_app" msg config e ∙ ground arith

  passes-mark : (o : Option Value) (b : Bool) → o ≡ mark b → not (is_ignored o) ≡ not b
  unfolding is_ignored
  passes-mark o b h = ground arith

  parse_converted-some :
      (config : Config) (msg : Envelope) (e : Event) (cache : C) (id : Option String)
      → lookup "cf_app_id" e.fields ≡ text_of id
      → lookup "cf_ignored_app" e.fields ≡ none
      → is_some (parse_converted get_app config msg (some e) cache).0
        ≡ not (is_ignored_app (app_seen id cache))
  unfolding parse_converted stamped
  parse_converted-some config msg e cache id h k =
      is_some-finish (annotate_app get_app config (stamped config msg e) cache).0
      ∙ passes-mark _ _ (
          annotate_app-mark config (stamped config msg e) cache id
            (lookup-stamped_id config msg e ∙ h) (lookup-stamped_mark config msg e ∙ k))

  parse_converted-passes :
      (config : Config) (msg : Envelope) (cache : C) (t : EventType)
      → is_some (parse_converted get_app config msg (convert t msg) cache).0
        ≡ (is_known t && not (is_ignored_app (app_seen (app_id_of t msg) cache)))
  unfolding convert lookup Convert.http_start Convert.http_stop Convert.http_start_stop
      Convert.log_message Convert.value_metric Convert.counter_event Convert.error_event
      Convert.container_metric
  parse_converted-passes config msg cache (EventType.unknown n) = unfold parse_converted in refl
  parse_converted-passes config msg cache EventType.http_start =
      parse_converted-some config msg _ cache (app_id_of EventType.http_start msg) refl refl
  parse_converted-passes config msg cache EventType.http_stop =
      parse_converted-some config msg _ cache (app_id_of EventType.http_stop msg) refl refl
  parse_converted-passes config msg cache EventType.http_start_stop =
      parse_converted-some config msg _ cache (app_id_of EventType.http_start_stop msg) refl refl
  parse_converted-passes config msg cache EventType.log_message =
      parse_converted-some config msg _ cache (app_id_of EventType.log_message msg) refl refl
  parse_converted-passes config msg cache EventType.value_metric =
      parse_converted-some config msg _ cache (app_id_of EventType.value_metric msg) refl refl
  parse_converted-passes config msg cache EventType.counter_event =
      parse_converted-some config msg _ cache (app_id_of EventType.counter_event msg) refl refl
  parse_converted-passes config msg cache EventType.error =
      parse_converted-some config msg _ cache (app_id_of EventType.error msg) refl refl
  parse_converted-passes config msg cache EventType.container_metric =
      parse_converted-some config msg _ cache (app_id_of EventType.container_metric msg) refl refl

  -- An envelope is let through exactly if its type is one of the eight known ones and the cache does
  -- not say that the app which it names is to be ignored.
  pub parse_event_passes :
      (config : Config) (msg : Envelope) (cache : C)
      → is_some (parse_event get_app config msg cache).0 ≡ (
          is_known msg.event_type
          && not (is_ignored_app (app_seen (app_id_of msg.event_type msg) cache)))
  parse_event_passes config msg cache =
      unfold parse_event in parse_converted-passes config msg cache msg.event_type
