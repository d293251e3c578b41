-- ===== src/Events/Annotate/Info.antt =====
-- Every field that an app's metadata comes to.
use splunk_firehose_nozzle.Base.{
  String, ◌&&◌, not, Option, none, some, ◌≡◌, refl, ◌==◌, if◌then◌else◌,
}
use splunk_firehose_nozzle.Base.Dict.{Dict, lookup}
use splunk_firehose_nozzle.Base.Result.{Result, ok, err}
use splunk_firehose_nozzle.Value.{Value, bool, str, is_nil}
use splunk_firehose_nozzle.Cache.App.{App, CacheError, GetApp}
use splunk_firehose_nozzle.Events.Convert.{Event}
use splunk_firehose_nozzle.Events.Annotate.{
  Config, value_at, add_app_info, add_lookup, app_guid, look_up, annotate_with_app_data,
}
use splunk_firehose_nozzle.Events.Annotate.Frame.{lookup-set_if}

-- The metadata of an app under a key: what is not empty and asked for, its index and its mark; or else
-- the field as it was.
abbrev pub app_field : Config → App → String → Option Value → Option Value
app_field config app k before =
    if app.ignored_app && ("cf_ignored_app" == k)
    then some (bool app.ignored_app)
    else if not (is_nil (value_at "SPLUNK_INDEX" app.cf_app_env)) && ("info_splunk_index" == k)
    then some (value_at "SPLUNK_INDEX" app.cf_app_env)
    else if (not (app.org_name == "") && config.add_org_name) && ("cf_org_name" == k)
    then some (str app.org_name)
    else if (not (app.org_guid == "") && config.add_org_guid) && ("cf_org_id" == k)
    then some (str app.org_guid)
    else if (not (app.space_name == "") && config.add_space_name) && ("cf_space_name" == k)
    then some (str app.space_name)
    else if (not (app.space_guid == "") && config.add_space_guid) && ("cf_space_id" == k)
    then some (str app.space_guid)
    else if (not (app.name == "") && config.add_app_name) && ("cf_app_name" == k)
    then some (str app.name)
    else before

-- The field of an event whose app was looked up, or was not.
abbrev pub field_with : Config → Option App → String → Option Value → Option Value
field_with config none k before = before
field_with config (some app) k before = app_field config app k before

-- The app that an answer of the cache holds.
abbrev pub app_in : Result CacheError (Option App) → Option App
app_in (err e) = none
app_in (ok found) = found

lookup-add_app_info_field :
    (k : String) (config : Config) (app : App) (fields : Dict Value)
    → lookup k (add_app_info config app fields) ≡ app_field config app k (lookup k fields)
unfolding add_app_info
lookup-add_app_info_field k config app fields = simp lookup-set_if

lookup-add_lookup_field :
    (k : String) (config : Config) (found : Result CacheError (Option App)) (fields : Dict Value)
    → lookup k (add_lookup config found fields)
      ≡ field_with config (app_in found) k (lookup k fields)
unfolding add_lookup
lookup-add_lookup_field k config (err e) fields = refl
lookup-add_lookup_field k config (ok none) fields = refl
lookup-add_lookup_field k config (ok (some app)) fields =
    lookup-add_app_info_field k config app fields

module _ {C : Type 0} (get_app : GetApp C) where
  -- The app of an id, where there is an id to look up.
  abbrev pub app_at : Option String → C → Option App
  app_at none cache = none
  app_at (some guid) cache = app_in (get_app guid cache).0

  -- The app of an event.
  abbrev pub app_of : Dict Value → C → Option App
  unfolding app_guid
  app_of fields cache = app_at (app_guid (value_at "cf_app_id" fields)) cache

  lookup-look_up_field :
      (k : String) (config : Config) (fields : Dict Value) (guid : Option String) (cache : C)
      → lookup k (look_up get_app config fields guid cache).0
        ≡ field_with config (app_at guid cache) k (lookup k fields)
  unfolding look_up
  lookup-look_up_field k config fields none cache = refl
  lookup-look_up_field k config fields (some guid) cache =
      lookup-add_lookup_field k config (get_app guid cache).0 fields

  pub lookup-annotate_field :
      (k : String) (config : Config) (e : Event) (cache : C)
      → lookup k (annotate_with_app_data get_app config e cache).0.fields
        ≡ field_with config (app_of e.fields cache) k (lookup k e.fields)
  unfolding annotate_with_app_data
  lookup-annotate_field k config e cache = lookup-look_up_field k config e.fields _ cache
