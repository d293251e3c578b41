-- ===== src/Tools/DumpAppInfo.antt =====
-- tools/dump_app_info/dump_app_info.go: the cache of apps is filled and counted.
pub mod Counted
use splunk_firehose_nozzle.Base.{
  ℕ, String, Option, none, some, Bool, true, false, [], ◌∷◌, length, if◌then◌else◌,
}
use splunk_firehose_nozzle.Base.Int.{ℤ, pos}
use splunk_firehose_nozzle.Base.Dict.{Dict}
use splunk_firehose_nozzle.Base.Result.{Result, ok, err}
use splunk_firehose_nozzle.Cache.App.{App, CacheError}
use splunk_firehose_nozzle.Cache.Names.{AppClient}
use splunk_firehose_nozzle.Cache.Boltdb.{BoltdbConfig, Storage, Boltdb, get_all_apps}
use splunk_firehose_nozzle.Cache.Boltdb.Lifetime.{
  Loops, open_boltdb, close_boltdb, make_bucket, get_all_apps_from_boltdb, new_boltdb,
}

-- The messages that end the program, os.Exit(1) behind the failures.
pub data Dumped : Type 0 where
  no_client : String → Dumped
  not_opened : CacheError → Dumped
  not_closed : String → Dumped
  finished : ℕ → Dumped

-- cache.BoltdbConfig{Path: *boltdbPath}, which has no Logger.
abbrev pub dump_config : String → BoltdbConfig
dump_config path = record {
  path = path;
  ignore_missing_apps = false;
  missing_app_cache_ttl = pos 0;
  app_cache_ttl = pos 0;
  org_space_cache_ttl = pos 0;
  app_limits = pos 0;
}

module _ (st : Storage) where
  unfoldable pub count_apps : Boltdb st → Loops → Dumped
  count_apps s loops = elim (close_boltdb st s loops).0 [
    | some e ↦ not_closed e
    | none ↦ finished (length (get_all_apps st s))
  ]

  -- `none` is a panic. An Open without an error leaves the cache open.
  unfoldable pub after_open :
      Option (Option CacheError × Option (Boltdb st × Loops)) → Option Dumped
  unfolding count_apps
  after_open none = none
  after_open (some (some e, s)) = some (not_opened e)
  after_open (some (none, some (s, loops))) = some (count_apps s loops)
  after_open (some (none, none)) = none

  unfoldable pub logs_held : Result CacheError (Dict App) → Bool
  logs_held (err e) = false
  logs_held (ok []) = true
  logs_held (ok (a ∷ apps)) = false

  unfoldable pub logs_made : Result String st.Db → Bool
  unfolding logs_held
  logs_made (err e) = true
  logs_made (ok db) = logs_held (get_all_apps_from_boltdb st (new_boltdb st db))

  -- Does Open call its Logger? It does for the errors of the database, and before it asks the API, which
  -- it does where the database holds no app. This is read off Open and not computed from open_boltdb,
  -- which has no log.
  unfoldable pub open_logs : BoltdbConfig → Bool
  unfolding logs_made
  open_logs config = elim (st.open_db config.path) [
    | err e ↦ true
    | ok db ↦ logs_made (make_bucket st db)
  ]

  -- An Open without a Logger panics where it calls it.
  unfoldable pub open_without_logger :
      BoltdbConfig → AppClient → ℤ → Option (Option CacheError × Option (Boltdb st × Loops))
  open_without_logger config client now =
      if open_logs config then none else open_boltdb st config client now

  -- main, with the client that cfclient makes of the flags, or its error.
  unfoldable pub dump_app_info : Result String AppClient → ℤ → String → Option Dumped
  unfolding after_open
  dump_app_info (err e) now path = some (no_client e)
  dump_app_info (ok client) now path =
      after_open (open_without_logger (dump_config path) client now)
