-- ===== src/Examples/Cache.antt =====
-- The theorems about the cache at concrete inputs.
use splunk_firehose_nozzle.Base.{
  String, true, false, none, some, [], ◌∷◌, ◌≡◌, refl, ◌⊎◌, inl, inr, ◌==◌, eq_iff, Bool-cases,
  arith,
}
use splunk_firehose_nozzle.Base.Int.{pos}
use splunk_firehose_nozzle.Base.Dict.{Dict, lookup, insert, lookup-insert}
use splunk_firehose_nozzle.Base.Result.{Result, ok, err}
use splunk_firehose_nozzle.Cache.App.{App, remote, missing_and_ignored}
use splunk_firehose_nozzle.Cache.Names.{AppClient}
use splunk_firehose_nozzle.Cache.Boltdb.{
  BoltdbConfig, Storage, Boltdb, get_all_apps, get_app, get_app_from_cache, get_app_from_remote,
  get_app_from_database,
}
use splunk_firehose_nozzle.Cache.Boltdb.Found.{AnswersGuid, is_found, get_app_again}
use splunk_firehose_nozzle.Cache.Boltdb.Missing.{get_app_missing}
use splunk_firehose_nozzle.Cache.Boltdb.Keyed.{StorageLaws, IsKeyed, IsDbKeyed}
use splunk_firehose_nozzle.Cache.Boltdb.Lifetime.{
  Loops, populate_cache, new_boltdb, manually_invalidate_caches, tick, missing_app_tick, looked_up,
  ticked, invalidated, rests, goes_on, open_boltdb, close_boltdb, background_loops,
  invalidate_cache, make_bucket,
}
use splunk_firehose_nozzle.Cache.Boltdb.Lifetime.Held.{get_all_apps-CacheRun}
use splunk_firehose_nozzle.Examples.World.{noisy_app}

-- A database in memory, whose codec keeps the guid alone.
abbrev pub memory : Storage
memory = record {
  Db = Dict String;
  open_db = λ path. ok [];
  create_bucket = λ db. ok db;
  close_db = λ db. none;
  get = λ db k. lookup k db;
  put = λ db k v. insert k v db;
  for_each = λ db. db;
  marshal = λ app. some app.guid;
  unmarshal = λ text. ok (record noisy_app { guid = text });
}

memory_get-put :
    (db : Dict String) (k v j : String)
    → (lookup j (insert k v db) ≡ lookup j db) ⊎ ((k ≡ j) × (lookup j (insert k v db) ≡ some v))
memory_get-put db k v j = elim (Bool-cases (k == j)) [
  | inl same ↦ inr ((eq_iff k j).0 same, rw lookup-insert (rw same))
  | inr other ↦ inl (rw lookup-insert (rw other))
]

memory_guid :
    (app app' : App) (text : String)
    → some app.guid ≡ some text
    → ◌≡◌ {A = Result String App} (ok (record noisy_app { guid = text })) (ok app')
    → app'.guid ≡ app.guid
memory_guid app app' text m u = ground arith

pub memory_laws : StorageLaws memory
memory_laws = record { get-put = memory_get-put; guid-unmarshal = memory_guid }

abbrev offline : AppClient
offline = record {
  app_by_guid = λ guid. err "offline";
  list_apps = λ q. err "offline";
  get_space_by_guid = λ guid. err "offline";
  get_org_by_guid = λ guid. err "offline";
}

abbrev pub online : AppClient
online = record {
  app_by_guid =
      λ guid. ok (record { name = "app"; guid = guid; space_guid = "space-1"; environment = [] });
  list_apps = λ q. ok [];
  get_space_by_guid = λ guid. ok (record { name = "dev"; organization_guid = "org-1" });
  get_org_by_guid = λ guid. ok (record { name = "org" });
}

abbrev pub cache_config : BoltdbConfig
cache_config = record {
  path = "cache.db";
  ignore_missing_apps = true;
  missing_app_cache_ttl = pos 0;
  app_cache_ttl = pos 0;
  org_space_cache_ttl = pos 100;
  app_limits = pos 0;
}

abbrev pub fresh_cache : Boltdb memory
fresh_cache = record {
  appdb = [];
  cache = [];
  missing_apps = [];
  names = record { orgs = []; spaces = [] };
}

abbrev after_miss : Boltdb memory
after_miss = record fresh_cache { missing_apps = ("app-9", true) ∷ [] }

miss :
    get_app memory cache_config offline (pos 1) "app-9" fresh_cache
    ≡ (err (remote "offline"), after_miss)
unfolding get_app insert lookup get_app_from_cache get_app_from_remote get_app_from_database
miss = refl

get_app_missing_example :
    get_app memory cache_config online (pos 2) "app-9" after_miss
    ≡ (err missing_and_ignored, after_miss)
get_app_missing_example =
    get_app_missing memory cache_config offline (pos 1) "app-9" (remote "offline") fresh_cache
      after_miss online (pos 2) refl miss

pub empty_db-IsDbKeyed : IsDbKeyed memory []
unfolding lookup
empty_db-IsDbKeyed k text app g u = cc

pub online-AnswersGuid : (guid : String) → AnswersGuid online guid
online-AnswersGuid guid cf h = ground arith

found_first : is_found (get_app memory cache_config online (pos 2) "app-7" fresh_cache).0 ≡ true
unfolding get_app get_app_from_cache get_app_from_remote lookup
found_first = refl

get_app_again_example :
    is_found
      (get_app memory cache_config offline
        (pos 900)
        "app-7"
        (get_app memory cache_config online (pos 2) "app-7" fresh_cache).1).0
    ≡ true
get_app_again_example =
    get_app_again memory cache_config "app-7" online (pos 2) offline (pos 900) fresh_cache
      (online-AnswersGuid "app-7") found_first

abbrev all_loops : Loops
all_loops = record { missing_loop = true; app_loop = true }

abbrev populated : Boltdb memory
populated = (populate_cache memory cache_config online (pos 1) (new_boltdb memory [])).1

-- a lookup, a tick that forgets the missing apps, and a refresh of names that fails
abbrev worked_on : Boltdb memory
worked_on =
    (manually_invalidate_caches memory cache_config offline (pos 4) (
      tick memory cache_config online (pos 3) missing_app_tick
        (get_app memory cache_config online (pos 2) "app-7" populated).1)).1

get_all_apps-CacheRun_example :
    (lookup "app-7" (get_all_apps memory worked_on) ≡ lookup "app-7" worked_on.cache)
    × IsKeyed worked_on.cache
    × IsDbKeyed memory worked_on.appdb
get_all_apps-CacheRun_example =
    get_all_apps-CacheRun memory memory_laws cache_config all_loops online (pos 1) [] worked_on
      "app-7" empty_db-IsDbKeyed
      (goes_on
        (goes_on (goes_on rests (looked_up online (pos 2) "app-7"))
          (ticked online (pos 3) missing_app_tick refl))
        (invalidated offline (pos 4)))

-- With an interval for the apps and none for the names, Open panics.
abbrev no_names_config : BoltdbConfig
no_names_config = record cache_config { app_cache_ttl = pos 10; org_space_cache_ttl = pos 0 }

open_panics : open_boltdb memory no_names_config online (pos 1) ≡ none
unfolding open_boltdb background_loops invalidate_cache make_bucket
open_panics = refl

-- A closed cache has no timers.
closed_cache :
    close_boltdb memory worked_on all_loops
    ≡ (none, record { missing_loop = false; app_loop = false })
unfolding close_boltdb
closed_cache = refl
