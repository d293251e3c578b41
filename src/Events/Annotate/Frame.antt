-- ===== src/Events/Annotate/Frame.antt =====
-- Which fields the annotations write, and that they leave the others alone.
use splunk_firehose_nozzle.Base.{
  String, Bool, true, ◌&&◌, ◌||◌, Option, some, ◌≡◌, arith, ◌==◌, if◌then◌else◌,
}
use splunk_firehose_nozzle.Base.Dict.{Dict, lookup, lookup-insert}
use splunk_firehose_nozzle.Value.{Value, bool, str, text_map}
use splunk_firehose_nozzle.Cache.App.{App}
use splunk_firehose_nozzle.Events.Envelope.{Envelope, event_name}
use splunk_firehose_nozzle.Events.Convert.{Event}
use splunk_firehose_nozzle.Events.Annotate.{
  Config, set_if, add_app_info, annotate_with_cf_metadata, annotate_with_envelope_data,
}

pub lookup-set_if :
    (test : Bool) (k j : String) (v : Value) (m : Dict Value)
    → lookup j (set_if test k v m) ≡ (if test && (k == j) then some v else lookup j m)
unfolding set_if
lookup-set_if test k j v m = ground (arith, lookup-insert k j v m)

-- What the envelope and its type put under a key, above the fields that are there.
abbrev pub stamped_field : Config → Envelope → Dict Value → String → Option Value
stamped_field config msg fields k =
    if "event_type" == k
    then some (str (event_name msg.event_type))
    else if config.add_tags && ("tags" == k)
    then some (text_map msg.tags)
    else if "job_index" == k
    then some (str msg.index)
    else if "job" == k
    then some (str msg.job)
    else if "ip" == k
    then some (str msg.ip)
    else if "deployment" == k
    then some (str msg.deployment)
    else if "origin" == k
    then some (str msg.origin)
    else lookup k fields

pub lookup-stamped :
    (k : String) (msg : Envelope) (config : Config) (e : Event)
    → lookup k (annotate_with_cf_metadata (annotate_with_envelope_data msg config e)).fields
      ≡ stamped_field config msg e.fields k
unfolding annotate_with_cf_metadata annotate_with_envelope_data
lookup-stamped k msg config e = simp (lookup-set_if, lookup-insert)

-- the fields that AnnotateWithAppData writes
abbrev pub app_key : String → Bool
app_key k =
    "cf_app_name" == k
    || ("cf_space_id" == k
        || ("cf_space_name" == k
            || ("cf_org_id" == k
                || ("cf_org_name" == k || ("info_splunk_index" == k || "cf_ignored_app" == k)))))

-- The mark of an app that is ignored.
pub lookup-ignored_app :
    (config : Config) (app : App) (fields : Dict Value)
    → lookup "cf_ignored_app" (add_app_info config app fields)
      ≡ (if app.ignored_app then some (bool true) else lookup "cf_ignored_app" fields)
lookup-ignored_app config app fields = unfold add_app_info in simp lookup-set_if (ground arith)
