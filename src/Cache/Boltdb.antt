-- ===== src/Cache/Boltdb.antt =====
-- cache/boltdb.go: apps in memory, backed by a database on disk and by the Cloud Foundry API: GetApp,
-- GetAllApps and what they call.
pub mod Keyed
pub mod Missing
pub mod Found
pub mod Copied
pub mod Lifetime
use splunk_firehose_nozzle.Base.{
  ℕ, ◌+◌, ◌/◌, String, Bool, true, false, ◌&&◌, Option, none, some, List, [], ◌∷◌, is_some, ◌==◌,
  if◌then◌else◌, ◌≡◌,
}
use splunk_firehose_nozzle.Base.Int.{ℤ, pos, ltb_ℤ, pos_part}
use splunk_firehose_nozzle.Base.Dict.{Dict, lookup, insert}
use splunk_firehose_nozzle.Base.Result.{Result, ok, err}
use splunk_firehose_nozzle.Value.{Value, is_text}
use splunk_firehose_nozzle.Events.Annotate.{value_at}
use splunk_firehose_nozzle.Cache.App.{
  App, CacheError, missing_and_ignored, remote, database, decoding, GetApp,
}
use splunk_firehose_nozzle.Cache.Names.{
  CfApp, Query, AppClient, Org, Space, NameCaches, fill_org_and_space,
}

pub record BoltdbConfig : Type 0 where
  pub path : String
  pub ignore_missing_apps : Bool
  pub missing_app_cache_ttl : ℤ
  pub app_cache_ttl : ℤ
  pub org_space_cache_ttl : ℤ
  pub app_limits : ℤ

-- What the cache uses of bbolt and of the JSON codec. The operations are those on the bucket
-- AppBucket, each in a transaction of its own. A `put` that fails leaves the database as it was.
pub record Storage : Type 1 where
  pub Db : Type 0
  pub open_db : String → Result String Db
  pub create_bucket : Db → Result String Db
  pub close_db : Db → Option String
  pub get : Db → String → Option String
  pub put : Db → String → String → Db
  pub for_each : Db → List (String × String)
  pub marshal : App → Option String
  pub unmarshal : String → Result String App

module _ (st : Storage) where
  open st use {Db, open_db, create_bucket, get, put, for_each, marshal, unmarshal}

  -- The maps of Boltdb, with the database.
  pub record Boltdb : Type 0 where
    pub appdb : Db
    pub cache : Dict App
    pub missing_apps : Dict Bool
    pub names : NameCaches

  -- isOptOut
  unfoldable pub is_opt_out : Dict Value → Bool
  is_opt_out env_var = is_text (value_at "F2S_DISABLE_LOGGING" env_var) "true"

  -- the app as the API describes it, before its names are filled in
  abbrev pub plain_app : CfApp → App
  plain_app cf = record {
    name = cf.name;
    guid = cf.guid;
    space_name = "";
    space_guid = cf.space_guid;
    org_name = "";
    org_guid = "";
    cf_app_env = cf.environment;
    ignored_app = is_opt_out cf.environment;
  }

  -- fillOrgAndSpace on an app, with the maps of names in the state
  unfoldable pub fill : BoltdbConfig → AppClient → ℤ → App → Boltdb → App × Boltdb
  fill config client now app s =
      let (app', names') = fill_org_and_space config.org_space_cache_ttl client now app s.names in
      (app', record s { names = names' })

  unfoldable pub from_pcf_app : BoltdbConfig → AppClient → ℤ → CfApp → Boltdb → App × Boltdb
  from_pcf_app config client now cf s = fill config client now (plain_app cf) s

  -- one transaction of fillDatabase; an app that cannot be encoded is not stored
  unfoldable pub store_app : App → Db → Db
  store_app app db = elim (marshal app) [ none ↦ db | some text ↦ put db app.guid text ]

  unfoldable pub fill_database : Dict App → Db → Db
  fill_database [] db = db
  fill_database ((guid, app) ∷ apps) db = fill_database apps (store_app app db)

  unfoldable pub remember_remote :
      BoltdbConfig → AppClient → ℤ → Result String CfApp → Boltdb → Result CacheError App × Boltdb
  remember_remote config client now (err e) s = (err (remote e), s)
  remember_remote config client now (ok cf) s =
      let (app, s') = from_pcf_app config client now cf s in
      (ok app, record s' { appdb = fill_database ((app.guid, app) ∷ []) s'.appdb })

  unfoldable pub get_app_from_remote :
      BoltdbConfig → AppClient → ℤ → String → Boltdb → Result CacheError App × Boltdb
  unfolding remember_remote
  get_app_from_remote config client now app_guid s =
      remember_remote config client now (client.app_by_guid app_guid) s

  unfoldable pub decode_app : Option String → Result CacheError (Option App)
  decode_app none = ok none
  decode_app (some text) = elim (unmarshal text) [
    | err e ↦ err (decoding e)
    | ok app ↦ ok (some app)
  ]

  unfoldable pub get_app_from_database : String → Boltdb → Result CacheError (Option App)
  unfolding decode_app
  get_app_from_database app_guid s = decode_app (get s.appdb app_guid)

  -- In memory, or known to be missing; `ok none` is neither.
  unfoldable pub get_app_from_cache :
      BoltdbConfig → String → Boltdb → Result CacheError (Option App)
  get_app_from_cache config app_guid s = elim (lookup app_guid s.cache) [
    | some app ↦ ok (some app)
    | none ↦
        if config.ignore_missing_apps && is_some (lookup app_guid s.missing_apps)
        then err missing_and_ignored
        else ok none
  ]

  -- c.cache[guid] = app, where the map holds a pointer to the app: filling it changes the entry.
  unfoldable pub cache_filled :
      BoltdbConfig → AppClient → ℤ → String → App → Boltdb → Result CacheError (Option App) × Boltdb
  cache_filled config client now app_guid app s =
      let (app', s') = fill config client now app s in
      (ok (some app'), record s' { cache = insert app_guid app' s'.cache })

  -- The remote does not know the app: the database may, or else the app is missing.
  unfoldable pub fall_back :
      BoltdbConfig
      → AppClient
      → ℤ
      → String
      → CacheError
      → Result CacheError (Option App)
      → Boltdb
      → Result CacheError (Option App) × Boltdb
  unfolding cache_filled
  fall_back config client now app_guid e (ok (some db_app)) s =
      cache_filled config client now app_guid db_app s
  fall_back config client now app_guid e _ s = (
    err e,
    if config.ignore_missing_apps
        then record s { missing_apps = insert app_guid true s.missing_apps }
        else s,
  )

  unfoldable pub after_remote :
      BoltdbConfig
      → AppClient
      → ℤ
      → String
      → Result CacheError App × Boltdb
      → Result CacheError (Option App) × Boltdb
  unfolding fall_back
  after_remote config client now app_guid (ok app, s) =
      (ok (some app), record s { cache = insert app.guid app s.cache })
  after_remote config client now app_guid (err e, s) =
      fall_back config client now app_guid e (get_app_from_database app_guid s) s

  unfoldable pub after_cache :
      BoltdbConfig
      → AppClient
      → ℤ
      → String
      → Result CacheError (Option App)
      → Boltdb
      → Result CacheError (Option App) × Boltdb
  unfolding after_remote cache_filled
  after_cache config client now app_guid (err e) s = (err e, s)
  after_cache config client now app_guid (ok (some app)) s =
      cache_filled config client now app_guid app s
  after_cache config client now app_guid (ok none) s =
      after_remote config client now app_guid (get_app_from_remote config client now app_guid s)

  unfoldable pub get_app : BoltdbConfig → AppClient → ℤ → GetApp Boltdb
  unfolding after_cache
  get_app config client now app_guid s =
      after_cache config client now app_guid (get_app_from_cache config app_guid s) s

  -- GetAllApps: a copy of every app that is cached, under its own guid.
  unfoldable pub copy_apps : Dict App → Dict App → Dict App
  copy_apps [] apps = apps
  copy_apps ((guid, app) ∷ rest) apps = copy_apps rest (insert app.guid app apps)

  unfoldable pub get_all_apps : Boltdb → Dict App
  get_all_apps s = copy_apps s.cache []

  -- the loop of getAllAppsFromRemote
  unfoldable pub collect_apps :
      BoltdbConfig → AppClient → ℤ → List CfApp → Dict App → Boltdb → Dict App × Boltdb
  collect_apps config client now [] apps s = (apps, s)
  collect_apps config client now (cf ∷ rest) apps s =
      let (app, s') = from_pcf_app config client now cf s in
      collect_apps config client now rest (insert app.guid app apps) s'

  -- The latest apps only, where there is a limit.
  unfoldable pub query_of : BoltdbConfig → Query
  query_of config =
      if ltb_ℤ (pos 0) config.app_limits
      then record {
        values =
            ("inline-relations-depth", "0")
            ∷ ("order-direction", "desc")
            ∷ ("results-per-page", "100")
            ∷ [];
        total_pages = pos (pos_part config.app_limits / 100 + 1);
      }
      else record { values = ("inline-relations-depth", "0") ∷ []; total_pages = pos 0 }

  unfoldable pub remember_all :
      BoltdbConfig
      → AppClient
      → ℤ
      → Result String (List CfApp)
      → Boltdb
      → Result CacheError (Dict App) × Boltdb
  remember_all config client now (err e) s = (err (remote e), s)
  remember_all config client now (ok cf_apps) s =
      let (apps, s') = collect_apps config client now cf_apps [] s in
      (ok apps, record s' { appdb = fill_database apps s'.appdb })

  unfoldable pub get_all_apps_from_remote :
      BoltdbConfig → AppClient → ℤ → Boltdb → Result CacheError (Dict App) × Boltdb
  unfolding remember_all
  get_all_apps_from_remote config client now s =
      remember_all config client now (client.list_apps (query_of config)) s
