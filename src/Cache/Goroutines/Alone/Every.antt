-- ===== src/Cache/Goroutines/Alone/Every.antt =====
-- Every operation of the cache, step by step and as a whole.
use splunk_firehose_nozzle.Base.{
  ℕ, suc, String, true, false, List, [], ◌∷◌, ◌≡◌, refl, sym, ◌∙◌, arith, subst, inl, inr,
}
use splunk_firehose_nozzle.Base.Int.{ℤ}
use splunk_firehose_nozzle.Base.Dict.{Dict, lookup, insert}
use splunk_firehose_nozzle.Base.Result.{Result-cases}
use splunk_firehose_nozzle.Cache.App.{App}
use splunk_firehose_nozzle.Cache.Names.{AppClient, NameCaches}
use splunk_firehose_nozzle.Cache.Boltdb.{BoltdbConfig, Storage, Boltdb, get_app}
use splunk_firehose_nozzle.Cache.Boltdb.Lifetime.{
  forget_names, manually_invalidate_caches, missing_app_tick, app_tick, org_space_tick, tick,
  decode_all, get_all_apps_from_boltdb, populate_from, populate_cache,
}
use splunk_firehose_nozzle.Cache.Goroutines.{
  looks, forgets_missing, forgets_names, populates, loads, lists, finished, Memory, allocate, load,
  advance,
}
use splunk_firehose_nozzle.Cache.Goroutines.Safe.{AllHold}
use splunk_firehose_nozzle.Cache.Goroutines.Alone.Agrees.{
  pointed-others, fresh_other, Agrees, whole, Agrees-whole, Ends,
}
use splunk_firehose_nozzle.Cache.Goroutines.Alone.Names.{replaced}
use splunk_firehose_nozzle.Cache.Goroutines.Alone.Whole.{looks-Ends}
use splunk_firehose_nozzle.Cache.Goroutines.Alone.Refresh.{
  apps_at, AllBelow, lookup-apps_at, apps_at-insert, apps_at-others, AllBelow-suc, AllBelow-insert,
  Settles, Settles-step, IsShared, lists-Settles,
}

module _ (st : Storage) (config : BoltdbConfig) (client : AppClient) (now : ℤ) where
  -- An app of the database, at a fresh address of its own.
  loaded_app :
      (app : App) (entries : Dict ℕ) (m : Memory st)
      → AllBelow m.fresh entries
      → apps_at (allocate st app m).apps (insert app.guid m.fresh entries)
        ≡ insert app.guid app (apps_at m.apps entries)
  loaded_app app entries m below =
      let n : Memory st = allocate st app m in
      apps_at-insert n.apps app.guid m.fresh entries
      ∙ rw
          (
            replaced m.apps m.fresh app,
            apps_at-others m.apps n.apps m.fresh entries
                (λ q lt. fresh_other m.apps m.fresh app q lt) below,
          )
          refl

  IsShared-allocate :
      (app : App) (m : Memory st) (cache : Dict App)
      → IsShared st config client now cache m
      → IsShared st config client now cache (allocate st app m)
  IsShared-allocate app m cache (view, used) = (
    λ k.
        view k
        ∙ pointed-others m.apps (allocate st app m).apps (lookup k m.cache)
            (λ q found. fresh_other m.apps m.fresh app q (used k q found)),
    λ k q found. omega (arith, used k q found),
  )

  -- A goroutine that is at its end.
  stopped :
      (m : Memory st) (cache : Dict App)
      → IsShared st config client now cache m
      → Settles st config client now (finished, m) (whole st cache m)
  stopped m cache (view, used) = record {
    after_all = m;
    comes = (0, refl);
    its_state = record {
      cache_agrees = view;
      missing_agrees = refl;
      names_agree = refl;
      db_agrees = refl;
    };
  }

  loaded-Settles :
      (rows : List (String × String)) (entries : Dict ℕ) (m : Memory st) (cache : Dict App)
      → IsShared st config client now cache m
      → AllBelow m.fresh entries
      → Settles st config client now
          (loads rows entries, m)
          (populate_from st config client now
            (decode_all st rows (apps_at m.apps entries))
            (whole st cache m)).1
  unfolding advance load decode_all populate_from
  loaded-Settles [] [] m cache shared below =
      Settles-step st config client now (loads [] []) m
        (lists-Settles st config client now m cache shared)
  loaded-Settles [] ((guid, p) ∷ entries) m cache shared below = record {
    after_all = record m { cache = (guid, p) ∷ entries };
    comes = (2, refl);
    its_state = record {
      cache_agrees = λ k. lookup-apps_at m.apps ((guid, p) ∷ entries) k;
      missing_agrees = refl;
      names_agree = refl;
      db_agrees = refl;
    };
  }
  loaded-Settles ((guid, text) ∷ rows) entries m cache shared below =
      Settles-step st config client now (loads ((guid, text) ∷ rows) entries) m
        (elim (Result-cases (st.unmarshal text)) [
          | inl (app, read) ↦
              let more =
                loaded-Settles rows (insert app.guid m.fresh entries) (allocate st app m) cache
                  (IsShared-allocate app m cache shared)
                  (AllBelow-insert (suc m.fresh) app.guid m.fresh entries (omega arith)
                    (AllBelow-suc m.fresh entries below)) in
              rw (read, load, decode_all)
                (subst
                  (λ (x : Dict App).
                    Settles st config client now
                      (loads rows (insert app.guid m.fresh entries), allocate st app m)
                      (populate_from st config client now (decode_all st rows x)
                        (whole st cache m)).1)
                  (loaded_app app entries m below) more)
          | inr (why, failed) ↦ rw (failed, load, decode_all) (stopped m cache shared)
        ])

  -- The ticks, ManuallyInvalidateCaches and populateCache come to their end, in the state that the
  -- operation as a whole leaves.
  abbrev pub AllSettle : Memory st → Boltdb st → Type 0
  AllSettle m s =
      Settles st config client now (forgets_missing, m)
        (tick st config client now missing_app_tick s)
      × Settles st config client now (forgets_names false, m)
          (tick st config client now org_space_tick s)
      × Settles st config client now (lists, m) (tick st config client now app_tick s)
      × Settles st config client now (forgets_names true, m)
          (manually_invalidate_caches st config client now s).1
      × Settles st config client now (populates, m) (populate_cache st config client now s).1

  settled :
      (m : Memory st) (cache : Dict App)
      → IsShared st config client now cache m
      → AllSettle m (whole st cache m)
  unfolding advance tick forget_names manually_invalidate_caches populate_cache
      get_all_apps_from_boltdb
  settled m cache (view, used) =
      let forgotten : NameCaches = record { orgs = []; spaces = [] } in
      (
        Settles-step st config client now forgets_missing m
            (stopped (record m { missing_apps = [] }) cache (view, used)),
        Settles-step st config client now (forgets_names false) m
            (stopped (record m { names = forgotten }) cache (view, used)),
        lists-Settles st config client now m cache (view, used),
        Settles-step st config client now (forgets_names true) m (
            lists-Settles st config client now (record m { names = forgotten }) cache (view, used)),
        Settles-step st config client now populates m
            (loaded-Settles (st.for_each m.appdb) [] m cache (view, used) tt),
      )

  -- Each operation of the cache in steps, with no other goroutine between them and the clock standing
  -- still, from a memory whose apps stand under their guids and a state that agrees with it: GetApp
  -- returns, with the answer of GetApp as a whole; the ticks, ManuallyInvalidateCaches and populateCache
  -- come to their end; and each leaves the cache, the missing apps, the names and the database as the
  -- operation as a whole does.
  pub advance-alone :
      (guid : String) (m : Memory st) (s : Boltdb st)
      → AllHold st m m.cache
      → Agrees st m s
      → Ends st config client now (looks guid, m) guid (get_app st config client now guid s)
        × AllSettle m s
  advance-alone guid m s all agree = (
    looks-Ends st config client now guid m s all agree,
    subst (λ (t : Boltdb st). AllSettle m t) (sym (Agrees-whole st m s agree))
        (settled m s.cache (agree.cache_agrees, λ k q found. (all k q found).0)),
  )
