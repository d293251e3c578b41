-- ===== src/Cache/Boltdb/Lifetime.antt =====
-- The lifetime of a cache of cache/boltdb.go: Open with the background loops, and every operation that
-- runs until Close.
pub mod Held
use splunk_firehose_nozzle.Base.{
  String, Bool, true, false, Option, none, some, List, [], ◌∷◌, ◌≡◌, not, if◌then◌else◌, ◌||◌, ◌&&◌,
}
use Prim.Native.String.{◌++◌}
use splunk_firehose_nozzle.Base.Int.{ℤ, pos, ltb_ℤ}
use splunk_firehose_nozzle.Base.Dict.{Dict, insert}
use splunk_firehose_nozzle.Base.Result.{Result, ok, err}
use splunk_firehose_nozzle.Cache.App.{App, CacheError, database, decoding}
use splunk_firehose_nozzle.Cache.Names.{AppClient, NameCaches}
use splunk_firehose_nozzle.Cache.Boltdb.{
  BoltdbConfig, Storage, Boltdb, get_app, get_all_apps_from_remote,
}

-- The background goroutines: the one of invalidateMissingAppCache, and that of invalidateCache.
pub record Loops : Type 0 where
  pub missing_loop : Bool
  pub app_loop : Bool

-- time.NewTicker panics at an interval that is not positive: `none` is a panic.
abbrev pub started : Bool → Option Bool
started true = some true
started false = none

-- d != time.Duration(0)
abbrev pub is_set : ℤ → Bool
is_set d = ltb_ℤ (pos 0) d || ltb_ℤ d (pos 0)

-- The loop, if its time to live is set, with a ticker of that interval and maybe another one.
unfoldable pub invalidate_missing_app_cache : BoltdbConfig → Option Bool
invalidate_missing_app_cache config = started (ltb_ℤ (pos 0) config.missing_app_cache_ttl)

unfoldable pub invalidate_cache : BoltdbConfig → Option Bool
invalidate_cache config =
    started (ltb_ℤ (pos 0) config.app_cache_ttl && ltb_ℤ (pos 0) config.org_space_cache_ttl)

-- The loops that Open starts.
unfoldable pub background_loops : BoltdbConfig → Option Loops
background_loops config =
    let apps = if is_set config.app_cache_ttl then invalidate_cache config else some false in
    let missing =
      if is_set config.missing_app_cache_ttl
      then invalidate_missing_app_cache config
      else some false in
    elim apps [
      | none ↦ none
      | some a ↦ elim missing [
        | none ↦ none
        | some m ↦ some (record { missing_loop = m; app_loop = a })
      ]
    ]

-- What the background loops do when a ticker fires.
pub data Tick : Type 0 where
  missing_app_tick app_tick org_space_tick : Tick

module _ (st : Storage) where
  open st use {Db, open_db, create_bucket, close_db, for_each, unmarshal}

  unfoldable pub replace_cache :
      Result CacheError (Dict App) × Boltdb st → Option CacheError × Boltdb st
  replace_cache (err e, s) = (some e, s)
  replace_cache (ok apps, s) = (none, record s { cache = apps })

  unfoldable pub forget_names : Boltdb st → Boltdb st
  forget_names s = record s { names = record { orgs = []; spaces = [] } }

  unfoldable pub manually_invalidate_caches :
      BoltdbConfig → AppClient → ℤ → Boltdb st → Option CacheError × Boltdb st
  unfolding replace_cache forget_names
  manually_invalidate_caches config client now s =
      replace_cache (get_all_apps_from_remote st config client now (forget_names s))

  unfoldable pub tick : BoltdbConfig → AppClient → ℤ → Tick → Boltdb st → Boltdb st
  unfolding replace_cache forget_names
  tick config client now missing_app_tick s = record s { missing_apps = [] }
  tick config client now app_tick s =
      (replace_cache (get_all_apps_from_remote st config client now s)).1
  tick config client now org_space_tick s = forget_names s

  -- All apps of the database; one that cannot be decoded fails the whole.
  unfoldable pub decode_all : List (String × String) → Dict App → Result CacheError (Dict App)
  decode_all [] apps = ok apps
  decode_all ((guid, text) ∷ rest) apps = elim (unmarshal text) [
    | err e ↦ err (decoding e)
    | ok app ↦ decode_all rest (insert app.guid app apps)
  ]

  unfoldable pub get_all_apps_from_boltdb : Boltdb st → Result CacheError (Dict App)
  get_all_apps_from_boltdb s = decode_all (for_each s.appdb) []

  unfoldable pub populate_from :
      BoltdbConfig
      → AppClient
      → ℤ
      → Result CacheError (Dict App)
      → Boltdb st
      → Option CacheError × Boltdb st
  unfolding replace_cache
  populate_from config client now (err e) s = (some e, s)
  populate_from config client now (ok []) s =
      replace_cache (get_all_apps_from_remote st config client now s)
  populate_from config client now (ok (a ∷ apps)) s = (none, record s { cache = a ∷ apps })

  unfoldable pub populate_cache :
      BoltdbConfig → AppClient → ℤ → Boltdb st → Option CacheError × Boltdb st
  unfolding populate_from
  populate_cache config client now s =
      populate_from config client now (get_all_apps_from_boltdb s) s

  -- NewBoltdb
  abbrev pub new_boltdb : Db → Boltdb st
  new_boltdb db = record {
    appdb = db;
    cache = [];
    missing_apps = [];
    names = record { orgs = []; spaces = [] };
  }

  bucket_error : Result String Db → Result String Db
  bucket_error (err e) = err ("create bucket: " ++ e)
  bucket_error (ok db) = ok db

  -- createBucket
  unfoldable pub make_bucket : Db → Result String Db
  unfolding bucket_error
  make_bucket db = bucket_error (create_bucket db)

  unfoldable pub after_bucket :
      BoltdbConfig
      → AppClient
      → ℤ
      → Result String Db
      → Option (Option CacheError × Option (Boltdb st × Loops))
  after_bucket config client now (err e) = some (some (database e), none)
  after_bucket config client now (ok db) = elim (background_loops config) [
    | none ↦ none
    | some loops ↦
        let (e, s) = populate_cache config client now (new_boltdb db) in some (e, some (s, loops))
  ]

  -- Open: a panic, or its error and what it leaves open.
  unfoldable pub open_boltdb :
      BoltdbConfig → AppClient → ℤ → Option (Option CacheError × Option (Boltdb st × Loops))
  unfolding after_bucket
  open_boltdb config client now = elim (open_db config.path) [
    | err e ↦ some (some (database e), none)
    | ok db ↦ after_bucket config client now (make_bucket db)
  ]

  -- Close: the loops end before the database is closed, whose error it returns.
  unfoldable pub close_boltdb : Boltdb st → Loops → Option String × Loops
  close_boltdb s loops = (close_db s.appdb, record { missing_loop = false; app_loop = false })

  abbrev pub ticks : Loops → Tick → Bool
  ticks loops missing_app_tick = loops.missing_loop
  ticks loops app_tick = loops.app_loop
  ticks loops org_space_tick = loops.app_loop

  -- What can happen next to an open cache, at any time and whatever the API then answers.
  pub data CacheStep (config : BoltdbConfig) (loops : Loops) : Boltdb st → Boltdb st → Type 0 where
    looked_up :
        {s : Boltdb st} (client : AppClient) (now : ℤ) (guid : String)
        → CacheStep config loops s (get_app st config client now guid s).1
    ticked :
        {s : Boltdb st} (client : AppClient) (now : ℤ) (t : Tick)
        → ticks loops t ≡ true
        → CacheStep config loops s (tick config client now t s)
    invalidated :
        {s : Boltdb st} (client : AppClient) (now : ℤ)
        → CacheStep config loops s (manually_invalidate_caches config client now s).1

  pub data CacheRun (config : BoltdbConfig) (loops : Loops) (s : Boltdb st)
      : Boltdb st → Type 0 where
    rests : CacheRun config loops s s
    goes_on :
        {s' s'' : Boltdb st}
        → CacheRun config loops s s'
        → CacheStep config loops s' s''
        → CacheRun config loops s s''
