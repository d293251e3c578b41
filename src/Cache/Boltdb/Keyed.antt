-- ===== src/Cache/Boltdb/Keyed.antt =====
-- Every app that is cached or stored stands under its own guid.
use splunk_firehose_nozzle.Base.{
  String, Bool, true, false, Option, none, some, [], ◌∷◌, ◌≡◌, refl, sym, ◌∙◌, arith, eq_iff, ◌⊎◌,
  inl, inr, if◌then◌else◌, Option-cases,
}
use splunk_firehose_nozzle.Base.Int.{ℤ}
use splunk_firehose_nozzle.Base.Dict.{Dict, lookup, insert, lookup-insert, IsMap, insert-IsMap}
use splunk_firehose_nozzle.Base.Result.{Result, ok, err}
use splunk_firehose_nozzle.Cache.App.{App, CacheError}
use splunk_firehose_nozzle.Cache.Names.{AppClient, CfApp}
use splunk_firehose_nozzle.Cache.Names.Fresh.{fill_org_and_space-guid}
use splunk_firehose_nozzle.Cache.Boltdb.{
  BoltdbConfig, Storage, Boltdb, fill, from_pcf_app, store_app, fill_database, remember_remote,
  get_app_from_remote, decode_app, get_app_from_database, get_app_from_cache, cache_filled,
  fall_back, after_remote, after_cache, get_app,
}

abbrev pub IsKeyed : Dict App → Type 0
IsKeyed m = (k : String) (app : App) → lookup k m ≡ some app → app.guid ≡ k

pub IsKeyed-insert :
    (k : String) (app : App) (m : Dict App) → app.guid ≡ k → IsKeyed m → IsKeyed (insert k app m)
IsKeyed-insert k app m e h j other found =
    ground (arith, lookup-insert k j app m, eq_iff k j, h j other)

-- What is relied on of the database and the codec: a read after a write gives what was written, or,
-- if the write failed or was to another key, what was there; an app is decoded with the guid that it
-- was encoded with.
pub record StorageLaws (st : Storage) : Type 0 where
  pub get-put :
      (db : st.Db) (k v j : String)
      → (st.get (st.put db k v) j ≡ st.get db j) ⊎ ((k ≡ j) × (st.get (st.put db k v) j ≡ some v))
  pub guid-unmarshal :
      (app app' : App) (text : String)
      → st.marshal app ≡ some text
      → st.unmarshal text ≡ ok app'
      → app'.guid ≡ app.guid

module _ (st : Storage) where
  abbrev pub IsDbKeyed : st.Db → Type 0
  IsDbKeyed db =
      (k text : String) (app : App)
      → st.get db k ≡ some text
      → st.unmarshal text ≡ ok app
      → app.guid ≡ k

  pub record Inv (s : Boltdb st) : Type 0 where
    pub cache_map : IsMap s.cache
    pub cache_keyed : IsKeyed s.cache
    pub db_keyed : IsDbKeyed s.appdb

  decode_app-found :
      (found : Option String) (app : App)
      → decode_app st found ≡ ok (some app)
      → (text : String) × (found ≡ some text) × (st.unmarshal text ≡ ok app)
  unfolding decode_app
  decode_app-found none app h = absurd (ground arith)
  decode_app-found (some text) app h = (text, refl, ground arith)

  Inv-missing :
      (ignored : Bool) (missing : Dict Bool) (s : Boltdb st)
      → Inv s
      → Inv (if ignored then record s { missing_apps = missing } else s)
  Inv-missing true missing s h = record {
    cache_map = h.cache_map;
    cache_keyed = h.cache_keyed;
    db_keyed = h.db_keyed;
  }
  Inv-missing false missing s h = h

module _ (st : Storage) (laws : StorageLaws st) where
  put-IsDbKeyed :
      (app : App) (text : String) (db : st.Db)
      → st.marshal app ≡ some text
      → IsDbKeyed st db
      → IsDbKeyed st (st.put db app.guid text)
  put-IsDbKeyed app text db m h k text' app' g u = elim (laws.get-put db app.guid text k) [
    | inl same ↦ h k text' app' (sym same ∙ g) u
    | inr (e, written) ↦
        let read : text ≡ text' = cc in laws.guid-unmarshal app app' text m (rw read u) ∙ e
  ]

  pub store_app-IsDbKeyed :
      (app : App) (db : st.Db) → IsDbKeyed st db → IsDbKeyed st (store_app st app db)
  unfolding store_app
  store_app-IsDbKeyed app db h = elim (Option-cases (st.marshal app)) [
    | inl lost ↦ rw (lost, store_app) h
    | inr (text, made) ↦ rw (made, store_app) (put-IsDbKeyed app text db made h)
  ]

  pub fill_database-IsDbKeyed :
      (apps : Dict App) (db : st.Db) → IsDbKeyed st db → IsDbKeyed st (fill_database st apps db)
  unfolding fill_database
  fill_database-IsDbKeyed [] db h = h
  fill_database-IsDbKeyed ((guid, app) ∷ apps) db h =
      fill_database-IsDbKeyed apps (store_app st app db) (store_app-IsDbKeyed app db h)

  module _ (config : BoltdbConfig) (client : AppClient) (now : ℤ) (guid : String) where
    pub guid-fill :
        (app : App) (s : Boltdb st) → (fill st config client now app s).0.guid ≡ app.guid
    unfolding fill
    guid-fill app s = fill_org_and_space-guid config.org_space_cache_ttl client now app s.names

    cache_filled-Inv :
        (app : App) (s : Boltdb st)
        → app.guid ≡ guid
        → Inv st s
        → Inv st (cache_filled st config client now guid app s).1
    unfolding cache_filled fill
    cache_filled-Inv app s e h = record {
      cache_map = insert-IsMap guid _ s.cache h.cache_map;
      cache_keyed = IsKeyed-insert guid _ s.cache (guid-fill app s ∙ e) h.cache_keyed;
      db_keyed = h.db_keyed;
    }

    remember_remote-Inv :
        (r : Result String CfApp) (s : Boltdb st)
        → Inv st s
        → Inv st (remember_remote st config client now r s).1
    unfolding remember_remote from_pcf_app fill
    remember_remote-Inv (err e) s h = h
    remember_remote-Inv (ok cf) s h = record {
      cache_map = h.cache_map;
      cache_keyed = h.cache_keyed;
      db_keyed = fill_database-IsDbKeyed _ s.appdb h.db_keyed;
    }

    fall_back-Inv :
        (e : CacheError) (found : Result CacheError (Option App)) (s : Boltdb st)
        → get_app_from_database st guid s ≡ found
        → Inv st s
        → Inv st (fall_back st config client now guid e found s).1
    unfolding fall_back
    fall_back-Inv e (ok (some app)) s g h = cache_filled-Inv app s (stored_guid) h
      where
        stored_guid : app.guid ≡ guid
        stored_guid =
            let (text, read, decoded) =
              decode_app-found st (st.get s.appdb guid) app (unfold get_app_from_database in g) in
            h.db_keyed guid text app read decoded
    fall_back-Inv e _ s g h =
        Inv-missing st config.ignore_missing_apps (insert guid true s.missing_apps) s h

    after_remote-Inv :
        (r : Result CacheError App × Boltdb st)
        → Inv st r.1
        → Inv st (after_remote st config client now guid r).1
    unfolding after_remote
    after_remote-Inv (ok app, s) h = record {
      cache_map = insert-IsMap app.guid app s.cache h.cache_map;
      cache_keyed = IsKeyed-insert app.guid app s.cache refl h.cache_keyed;
      db_keyed = h.db_keyed;
    }
    after_remote-Inv (err e, s) h = fall_back-Inv e _ s refl h

    after_cache-Inv :
        (r : Result CacheError (Option App)) (s : Boltdb st)
        → get_app_from_cache st config guid s ≡ r
        → Inv st s
        → Inv st (after_cache st config client now guid r s).1
    unfolding after_cache
    after_cache-Inv (err e) s g h = h
    after_cache-Inv (ok (some app)) s g h =
        cache_filled-Inv app s (h.cache_keyed guid app (unfold get_app_from_cache in ground arith))
          h
    after_cache-Inv (ok none) s g h =
        after_remote-Inv (get_app_from_remote st config client now guid s)
          (unfold get_app_from_remote in remember_remote-Inv (client.app_by_guid guid) s h)

  -- With a database whose put writes one key, and a codec that keeps the guid: where every app stands
  -- under its own guid, once in memory and in the database, a lookup keeps it so, whatever the API answers.
  pub get_app-Inv :
      (config : BoltdbConfig) (client : AppClient) (now : ℤ) (guid : String) (s : Boltdb st)
      → Inv st s
      → Inv st (get_app st config client now guid s).1
  unfolding get_app
  get_app-Inv config client now guid s h =
      after_cache-Inv config client now guid (get_app_from_cache st config guid s) s refl h
