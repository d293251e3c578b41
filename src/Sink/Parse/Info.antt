-- ===== src/Sink/Parse/Info.antt =====
-- Every field of what parseEvent makes of an envelope, those of the app's metadata included.
use Prim.Native.String.{len}
use splunk_firehose_nozzle.Base.{
  String, Bool, false, ◌&&◌, Option, none, some, ◌≡◌, ◌∙◌, refl, sym, arith, ap, ◌==◌,
  if◌then◌else◌, ltb, Option-cases, inl, inr,
}
use splunk_firehose_nozzle.Base.Dict.{Dict, lookup}
use splunk_firehose_nozzle.Value.{Value, nil, str}
use splunk_firehose_nozzle.Cache.App.{App, GetApp}
use splunk_firehose_nozzle.Events.Envelope.{Envelope}
use splunk_firehose_nozzle.Events.Convert.{Event}
use splunk_firehose_nozzle.Events.Annotate.{
  Config, app_guid, annotate_with_cf_metadata, annotate_with_envelope_data,
}
use splunk_firehose_nozzle.Events.Annotate.Frame.{app_key, stamped_field, lookup-stamped}
use splunk_firehose_nozzle.Events.Annotate.Info.{app_at, app_of, field_with, lookup-annotate_field}
use splunk_firehose_nozzle.Sink.Parse.{convert, annotate_app, parse_converted, parse_event}
use splunk_firehose_nozzle.Sink.Parse.Contents.{msg-annotate_app, msg-stamped, lookup-finish}

module _ {C : Type 0} (get_app : GetApp C) where
  -- The app that is looked up for what "cf_app_id" holds.
  abbrev app_under : C → Option Value → Option App
  unfolding app_guid
  app_under cache found = app_at get_app (app_guid (elim found [ none ↦ nil | some v ↦ v ])) cache

  app_of-missing :
      (fields : Dict Value) (cache : C)
      → lookup "cf_app_id" fields ≡ none
      → app_of get_app fields cache ≡ none
  unfolding app_guid
  app_of-missing fields cache missing = ap (app_under cache) missing

  lookup-annotate_app_field :
      (k : String) (config : Config) (e : Event) (cache : C)
      → lookup k (annotate_app get_app config e cache).0.fields
        ≡ field_with config (app_of get_app e.fields cache) k (lookup k e.fields)
  unfolding annotate_app
  lookup-annotate_app_field k config e cache = elim (Option-cases (lookup "cf_app_id" e.fields)) [
    | inl missing ↦ rw missing (
        ap (λ app. field_with config app k (lookup k e.fields))
          (sym (app_of-missing e.fields cache missing)))
    | inr (v, held) ↦ rw held (lookup-annotate_field get_app k config e cache)
  ]

  app_of-stamped :
      (config : Config) (msg : Envelope) (e : Event) (cache : C)
      → app_of get_app
          (annotate_with_cf_metadata (annotate_with_envelope_data msg config e)).fields
          cache
        ≡ app_of get_app e.fields cache
  unfolding app_guid
  app_of-stamped config msg e cache =
      ap (app_under cache) {y = lookup "cf_app_id" e.fields}
        (lookup-stamped "cf_app_id" msg config e ∙ ground arith)

  -- The field of a parsed event: the message, above the metadata of the app that the conversion of the
  -- envelope names, above the marks of the envelope, above what the conversion made.
  abbrev pub informed_field : C → Config → Envelope → Event → String → Option Value
  informed_field cache config msg e k =
      if ltb 0 (len e.msg) && ("msg" == k)
      then some (str e.msg)
      else field_with config (app_of get_app e.fields cache) k (stamped_field config msg e.fields k)

  lookup-parse_converted_info :
      (k : String) (config : Config) (msg : Envelope) (cache : C) (e : Event) (fields : Dict Value)
      → (parse_converted get_app config msg (some e) cache).0 ≡ some fields
      → lookup k fields ≡ informed_field cache config msg e k
  unfolding parse_converted
  lookup-parse_converted_info k config msg cache e fields p =
      lookup-finish get_app k (annotate_app get_app config stamped cache).0 fields p
      ∙ rw (
        lookup-annotate_app_field k config stamped cache,
        msg-annotate_app get_app config stamped cache,
        msg-stamped get_app config msg e,
        lookup-stamped k msg config e,
        app_of-stamped config msg e cache,
      )
    where
      stamped : Event
      stamped = annotate_with_cf_metadata (annotate_with_envelope_data msg config e)

  -- An envelope that its type converts to the event e, and that is let through, becomes fields of which
  -- each holds: under "msg" the message, if there is one; or else the metadata of the app that e names,
  -- if the cache finds it, which is its names and ids that are not empty and asked for, its index and
  -- its mark as ignored; or else the marks of the envelope; or else what e holds.
  pub lookup-parse_event_info :
      (k : String) (config : Config) (msg : Envelope) (cache : C) (e : Event) (fields : Dict Value)
      → convert msg.event_type msg ≡ some e
      → (parse_event get_app config msg cache).0 ≡ some fields
      → lookup k fields ≡ informed_field cache config msg e k
  unfolding parse_event
  lookup-parse_event_info k config msg cache e fields c p =
      lookup-parse_converted_info k config msg cache e fields (rw c at p)

  -- The field of a parsed event whose app is not spoken of.
  abbrev parsed_field : Config → Envelope → Event → String → Option Value
  parsed_field config msg e k =
      if ltb 0 (len e.msg) && ("msg" == k)
      then some (str e.msg)
      else stamped_field config msg e.fields k

  passed_over :
      (test named : Bool) (v before : Option Value)
      → named ≡ false
      → (if test && named then v else before) ≡ before
  passed_over test named v before h = ground arith

  field_with_other :
      (config : Config) (app : Option App) (k : String) (before : Option Value)
      → app_key k ≡ false
      → field_with config app k before ≡ before
  field_with_other config none k before h = refl
  field_with_other config (some app) k before h =
      let h1 : ("cf_app_name" == k) ≡ false = ground arith in
      let h2 : ("cf_space_id" == k) ≡ false = ground arith in
      let h3 : ("cf_space_name" == k) ≡ false = ground arith in
      let h4 : ("cf_org_id" == k) ≡ false = ground arith in
      let h5 : ("cf_org_name" == k) ≡ false = ground arith in
      let h6 : ("info_splunk_index" == k) ≡ false = ground arith in
      let h7 : ("cf_ignored_app" == k) ≡ false = ground arith in
      passed_over _ _ _ _ h7
      ∙ (passed_over _ _ _ _ h6
          ∙ (passed_over _ _ _ _ h5
              ∙ (passed_over _ _ _ _ h4
                  ∙ (passed_over _ _ _ _ h3 ∙ (passed_over _ _ _ _ h2 ∙ passed_over _ _ _ _ h1)))))

  -- Under the keys that are not kept for an app's metadata, a parsed event has the message, if there is
  -- one; or else the marks of the envelope; or else what the envelope was converted to.
  lookup-parse_event :
      (k : String) (config : Config) (msg : Envelope) (cache : C) (e : Event) (fields : Dict Value)
      → convert msg.event_type msg ≡ some e
      → (parse_event get_app config msg cache).0 ≡ some fields
      → app_key k ≡ false
      → lookup k fields ≡ parsed_field config msg e k
  lookup-parse_event k config msg cache e fields c p h =
      lookup-parse_event_info k config msg cache e fields c p
      ∙ rw
          (field_with_other config (app_of get_app e.fields cache) k
            (stamped_field config msg e.fields k) h)
          refl
