-- ===== src/Events/Annotate.antt =====
-- The methods of events.Event that add what the envelope and the cache know, and Config.
pub mod Frame
pub mod Info
use splunk_firehose_nozzle.Base.{
  String, Bool, true, false, ◌&&◌, not, Option, none, some, List, ◌≡◌, refl, ◌==◌, if◌then◌else◌,
}
use splunk_firehose_nozzle.Base.Dict.{Dict, lookup, insert}
use splunk_firehose_nozzle.Base.Result.{Result, ok, err}
use splunk_firehose_nozzle.Value.{Value, nil, bool, str, text_map, is_nil, is_text}
use splunk_firehose_nozzle.Cache.App.{App, CacheError, GetApp}
use splunk_firehose_nozzle.Events.Envelope.{Envelope, event_name}
use splunk_firehose_nozzle.Events.Convert.{Event}

pub record Config : Type 0 where
  pub selected_events : String
  pub add_app_name : Bool
  pub add_org_name : Bool
  pub add_org_guid : Bool
  pub add_space_name : Bool
  pub add_space_guid : Bool
  pub add_tags : Bool

-- m[k], where a missing key reads as nil
abbrev pub value_at : String → Dict Value → Value
value_at k m = elim (lookup k m) [ none ↦ nil | some v ↦ v ]

-- if cond { e.Fields[k] = v }
unfoldable pub set_if : Bool → String → Value → Dict Value → Dict Value
set_if test k v fields = if test then insert k v fields else fields

-- The assignments of AnnotateWithAppData from an app that was found.
unfoldable pub add_app_info : Config → App → Dict Value → Dict Value
add_app_info config app fields =
    let with_name =
      set_if (not (app.name == "") && config.add_app_name) "cf_app_name" (str app.name) fields in
    let with_space =
      set_if (not (app.space_guid == "") && config.add_space_guid) "cf_space_id"
        (str app.space_guid) with_name in
    let with_space_name =
      set_if (not (app.space_name == "") && config.add_space_name) "cf_space_name"
        (str app.space_name) with_space in
    let with_org =
      set_if (not (app.org_guid == "") && config.add_org_guid) "cf_org_id" (str app.org_guid)
        with_space_name in
    let with_org_name =
      set_if (not (app.org_name == "") && config.add_org_name) "cf_org_name" (str app.org_name)
        with_org in
    let with_index =
      set_if (not (is_nil (value_at "SPLUNK_INDEX" app.cf_app_env))) "info_splunk_index"
        (value_at "SPLUNK_INDEX" app.cf_app_env) with_org_name in
    set_if app.ignored_app "cf_ignored_app" (bool app.ignored_app) with_index

-- An app that is not there, and an error, leave the fields as they are.
unfoldable pub add_lookup : Config → Result CacheError (Option App) → Dict Value → Dict Value
add_lookup config (err e) fields = fields
add_lookup config (ok none) fields = fields
add_lookup config (ok (some app)) fields = add_app_info config app fields

-- fmt.Sprintf("%s", v) and the test whether the app id is worth a lookup. Every event that has the
-- field holds a text there; no lookup is made for any other value.
unfoldable pub app_guid : Value → Option String
app_guid (str guid) = if not (guid == "<nil>") && not (guid == "") then some guid else none
app_guid _ = none

module _ {C : Type 0} (get_app : GetApp C) where
  look_up : Config → Dict Value → Option String → C → Dict Value × C
  look_up config fields none cache = (fields, cache)
  look_up config fields (some guid) cache =
      let (found, cache') = get_app guid cache in (add_lookup config found fields, cache')

  unfoldable pub annotate_with_app_data : Config → Event → C → Event × C
  unfolding look_up app_guid
  annotate_with_app_data config e cache =
      let (fields', cache') =
        look_up config e.fields (app_guid (value_at "cf_app_id" e.fields)) cache in
      (record e { fields = fields' }, cache')

unfoldable pub annotate_with_cf_metadata : Event → Event
annotate_with_cf_metadata e = record e { fields = insert "event_type" (str e.type) e.fields }

unfoldable pub annotate_with_envelope_data : Envelope → Config → Event → Event
annotate_with_envelope_data msg config e =
    let fields' = insert "job_index" (str msg.index) (
      insert "job" (str msg.job) (
        insert "ip" (str msg.ip) (
          insert "deployment" (str msg.deployment) (insert "origin" (str msg.origin) e.fields)))) in
    record e {
      fields = set_if config.add_tags "tags" (text_map msg.tags) fields';
      type = event_name msg.event_type;
    }
