-- ===== src/Sink/Parse/Contents.antt =====
-- What parseEvent makes of an envelope that it lets through.
use Prim.Native.String.{len}
use splunk_firehose_nozzle.Base.{String, ◌&&◌, some, ◌≡◌, refl, arith, ◌==◌, if◌then◌else◌, ltb}
use splunk_firehose_nozzle.Base.Dict.{Dict, lookup, lookup-insert}
use splunk_firehose_nozzle.Value.{Value, str}
use splunk_firehose_nozzle.Cache.App.{GetApp}
use splunk_firehose_nozzle.Events.Envelope.{Envelope}
use splunk_firehose_nozzle.Events.Convert.{Event}
use splunk_firehose_nozzle.Events.Annotate.{
  Config, annotate_with_app_data, annotate_with_cf_metadata, annotate_with_envelope_data,
}
use splunk_firehose_nozzle.Sink.Parse.{finish, annotate_app}

module _ {C : Type 0} (get_app : GetApp C) where
  pub msg-annotate_app :
      (config : Config) (e : Event) (cache : C)
      → (annotate_app get_app config e cache).0.msg ≡ e.msg
  unfolding annotate_app annotate_with_app_data
  msg-annotate_app config e cache = ground arith

  pub msg-stamped :
      (config : Config) (msg : Envelope) (e : Event)
      → (annotate_with_cf_metadata (annotate_with_envelope_data msg config e)).msg ≡ e.msg
  unfolding annotate_with_cf_metadata annotate_with_envelope_data
  msg-stamped config msg e = refl

  pub lookup-finish :
      (k : String) (e : Event) (fields : Dict Value)
      → finish e ≡ some fields
      → lookup k fields
        ≡ (if ltb 0 (len e.msg) && ("msg" == k) then some (str e.msg) else lookup k e.fields)
  unfolding finish
  lookup-finish k e fields h = ground (arith, lookup-insert "msg" k (str e.msg) e.fields)
