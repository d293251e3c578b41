-- ===== src/Cache/Boltdb/Lifetime/Held.antt =====
-- What holds of the cache whatever happens between Open and Close.
use splunk_firehose_nozzle.Base.{String, List, [], ◌∷◌, ◌≡◌, refl, arith, subst, inl, inr}
use splunk_firehose_nozzle.Base.Int.{ℤ}
use splunk_firehose_nozzle.Base.Dict.{Dict, lookup, insert, lookup-nil, IsMap, insert-IsMap}
use splunk_firehose_nozzle.Base.Result.{Result, ok, err, Result-cases}
use splunk_firehose_nozzle.Cache.App.{App, CacheError}
use splunk_firehose_nozzle.Cache.Names.{AppClient, CfApp}
use splunk_firehose_nozzle.Cache.Boltdb.{
  BoltdbConfig, Storage, Boltdb, from_pcf_app, fill, get_all_apps, collect_apps, remember_all,
  query_of, get_all_apps_from_remote,
}
use splunk_firehose_nozzle.Cache.Boltdb.Keyed.{
  IsKeyed, IsKeyed-insert, IsDbKeyed, StorageLaws, Inv, fill_database-IsDbKeyed, get_app-Inv,
}
use splunk_firehose_nozzle.Cache.Boltdb.Copied.{get_all_apps-lookup}
use splunk_firehose_nozzle.Cache.Boltdb.Lifetime.{
  replace_cache, forget_names, manually_invalidate_caches, Tick, missing_app_tick, app_tick,
  org_space_tick, tick, decode_all, get_all_apps_from_boltdb, populate_from, populate_cache,
  new_boltdb, Loops, CacheStep, looked_up, ticked, invalidated, CacheRun, rests, goes_on,
}

module _ (st : Storage) where
  -- apps read for the cache
  abbrev pub IsRead : Dict App → Type 0
  IsRead apps = IsMap apps × IsKeyed apps

  IsRead-insert : (app : App) (apps : Dict App) → IsRead apps → IsRead (insert app.guid app apps)
  IsRead-insert app apps (is, keyed) =
      (insert-IsMap app.guid app apps is, IsKeyed-insert app.guid app apps refl keyed)

  IsRead-nil : IsRead []
  IsRead-nil = (tt, λ k app found. absurd (ground (arith, found, lookup-nil {V = App} k)))

  decode_all-IsRead :
      (rows : List (String × String)) (acc apps : Dict App)
      → decode_all st rows acc ≡ ok apps
      → IsRead acc
      → IsRead apps
  unfolding decode_all
  decode_all-IsRead [] acc apps e h =
      let same : acc ≡ apps = ground (arith, e) in subst IsRead same h
  decode_all-IsRead ((guid, text) ∷ rows) acc apps e h = elim (Result-cases (st.unmarshal text)) [
    | inl (app, read) ↦
        decode_all-IsRead rows (insert app.guid app acc) apps (rw (read, decode_all) at e)
          (IsRead-insert app acc h)
    | inr (why, failed) ↦ absurd (ground (arith, rw (failed, decode_all) at e))
  ]

  abbrev pub AllRead : Result CacheError (Dict App) → Type 0
  AllRead (ok apps) = IsRead apps
  AllRead (err e) = Unit

  pub all_decoded :
      (found : Result CacheError (Dict App)) (rows : List (String × String))
      → decode_all st rows [] ≡ found
      → AllRead found
  all_decoded (err e) rows h = tt
  all_decoded (ok apps) rows h = decode_all-IsRead rows [] apps h IsRead-nil

  replace_cache-Inv :
      (r : Result CacheError (Dict App) × Boltdb st)
      → AllRead r.0
      → Inv st r.1
      → Inv st (replace_cache st r).1
  unfolding replace_cache
  replace_cache-Inv (err e, s) all h = h
  replace_cache-Inv (ok apps, s) (is, keyed) h = record {
    cache_map = is;
    cache_keyed = keyed;
    db_keyed = h.db_keyed;
  }

  forget_names-Inv : (s : Boltdb st) → Inv st s → Inv st (forget_names st s)
  unfolding forget_names
  forget_names-Inv s h = record {
    cache_map = h.cache_map;
    cache_keyed = h.cache_keyed;
    db_keyed = h.db_keyed;
  }

module _ (st : Storage) (laws : StorageLaws st) (config : BoltdbConfig) (client : AppClient)
    (now : ℤ) where
  collect_apps-Inv :
      (cfs : List CfApp) (acc : Dict App) (s : Boltdb st)
      → IsRead st acc
      → Inv st s
      → IsRead st (collect_apps st config client now cfs acc s).0
        × Inv st (collect_apps st config client now cfs acc s).1
  unfolding collect_apps from_pcf_app fill
  collect_apps-Inv [] acc s r h = (r, h)
  collect_apps-Inv (cf ∷ cfs) acc s r h =
      let (app, s') = from_pcf_app st config client now cf s in
      collect_apps-Inv cfs (insert app.guid app acc) s' (IsRead-insert st app acc r)
        (record { cache_map = h.cache_map; cache_keyed = h.cache_keyed; db_keyed = h.db_keyed })

  remember_all-Inv :
      (answer : Result String (List CfApp)) (s : Boltdb st)
      → Inv st s
      → AllRead st (remember_all st config client now answer s).0
        × Inv st (remember_all st config client now answer s).1
  unfolding remember_all
  remember_all-Inv (err e) s h = (tt, h)
  remember_all-Inv (ok cfs) s h =
      let (apps, s') = collect_apps st config client now cfs [] s in
      let (r, i) = collect_apps-Inv cfs [] s (IsRead-nil st) h in
      (
        r,
        record {
          cache_map = i.cache_map;
          cache_keyed = i.cache_keyed;
          db_keyed = fill_database-IsDbKeyed st laws apps s'.appdb i.db_keyed;
        },
      )

  refreshed-Inv :
      (s : Boltdb st)
      → Inv st s
      → Inv st (replace_cache st (get_all_apps_from_remote st config client now s)).1
  unfolding get_all_apps_from_remote
  refreshed-Inv s h =
      let (r, i) = remember_all-Inv (client.list_apps (query_of st config)) s h in
      replace_cache-Inv st
        (remember_all st config client now (client.list_apps (query_of st config)) s) r i

  manually_invalidate_caches-Inv :
      (s : Boltdb st) → Inv st s → Inv st (manually_invalidate_caches st config client now s).1
  unfolding manually_invalidate_caches
  manually_invalidate_caches-Inv s h = refreshed-Inv (forget_names st s) (forget_names-Inv st s h)

  tick-Inv : (t : Tick) (s : Boltdb st) → Inv st s → Inv st (tick st config client now t s)
  unfolding tick
  tick-Inv missing_app_tick s h = record {
    cache_map = h.cache_map;
    cache_keyed = h.cache_keyed;
    db_keyed = h.db_keyed;
  }
  tick-Inv app_tick s h = refreshed-Inv s h
  tick-Inv org_space_tick s h = forget_names-Inv st s h

  populate_from-Inv :
      (found : Result CacheError (Dict App)) (s : Boltdb st)
      → AllRead st found
      → Inv st s
      → Inv st (populate_from st config client now found s).1
  unfolding populate_from
  populate_from-Inv (err e) s r h = h
  populate_from-Inv (ok []) s r h = refreshed-Inv s h
  populate_from-Inv (ok (a ∷ apps)) s (is, keyed) h = record {
    cache_map = is;
    cache_keyed = keyed;
    db_keyed = h.db_keyed;
  }

  populate_cache-Inv :
      (db : st.Db)
      → IsDbKeyed st db
      → Inv st (populate_cache st config client now (new_boltdb st db)).1
  unfolding populate_cache get_all_apps_from_boltdb
  populate_cache-Inv db keyed =
      populate_from-Inv (decode_all st (st.for_each db) []) (new_boltdb st db)
        (all_decoded st _ (st.for_each db) refl)
        (record { cache_map = tt; cache_keyed = (IsRead-nil st).1; db_keyed = keyed })

module _ (st : Storage) (laws : StorageLaws st) (config : BoltdbConfig) (loops : Loops) where
  CacheRun-Inv : (s s' : Boltdb st) → CacheRun st config loops s s' → Inv st s → Inv st s'
  CacheRun-Inv s s' rests h = h
  CacheRun-Inv s s' (goes_on run step) h = stepped step (CacheRun-Inv s _ run h)
    where
      stepped : {a b : Boltdb st} → CacheStep st config loops a b → Inv st a → Inv st b
      stepped (looked_up {s = a} client now guid) i = get_app-Inv st laws config client now guid a i
      stepped (ticked {s = a} client now t on) i = tick-Inv st laws config client now t a i
      stepped (invalidated {s = a} client now) i =
          manually_invalidate_caches-Inv st laws config client now a i

  -- From Open on a database whose apps stand under their guids, through any lookups, timer ticks and
  -- invalidations, with any answers of the API: GetAllApps gives exactly the apps that are cached,
  -- under the same keys, and each of them, in memory and in the database, stands under its own guid.
  pub get_all_apps-CacheRun :
      (client : AppClient) (now : ℤ) (db : st.Db) (s : Boltdb st) (k : String)
      → IsDbKeyed st db
      → CacheRun st config loops (populate_cache st config client now (new_boltdb st db)).1 s
      → (lookup k (get_all_apps st s) ≡ lookup k s.cache) × IsKeyed s.cache × IsDbKeyed st s.appdb
  get_all_apps-CacheRun client now db s k keyed run =
      let i = CacheRun-Inv _ s run (populate_cache-Inv st laws config client now db keyed) in
      (get_all_apps-lookup st s k i, i.cache_keyed, i.db_keyed)
