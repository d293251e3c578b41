-- ===== src/Cache/Goroutines/Moves.antt =====
-- A step of one goroutine keeps what holds of the memory, for itself and for the others.
use splunk_firehose_nozzle.Base.{
  ℕ, String, Bool, true, false, Option, none, some, List, [], ◌∷◌, ◌≡◌, refl, arith, ◌&&◌, is_some,
  if◌then◌else◌, Bool-cases, inl, inr,
}
use splunk_firehose_nozzle.Base.Int.{ℤ}
use splunk_firehose_nozzle.Base.Dict.{Dict, lookup}
use splunk_firehose_nozzle.Base.Result.{Result, ok, err, Result-cases}
use splunk_firehose_nozzle.Cache.App.{App, CacheError, missing_and_ignored}
use splunk_firehose_nozzle.Cache.Names.{expired, CfApp, AppClient, CfSpace, CfOrg, Org, Space}
use splunk_firehose_nozzle.Cache.Boltdb.{BoltdbConfig, Storage, plain_app}
use splunk_firehose_nozzle.Cache.Boltdb.Found.{AnswersGuid}
use splunk_firehose_nozzle.Cache.Boltdb.Keyed.{IsDbKeyed, StorageLaws, store_app-IsDbKeyed}
use splunk_firehose_nozzle.Cache.Goroutines.{
  After, collects, Pc, looks, asks, reads, caches, marks, stores_app, keeps, returned, fills_space,
  asks_space, sets_space, fills_org, asks_org, sets_org, forgets_missing, forgets_names, populates,
  loads, lists, collecting, stores_all, swaps, finished, Memory, allocate, write_app, filled, look,
  ask, read_back, mark, fill_space, ask_space, fill_org, ask_org, list_all, load, advance,
}
use splunk_firehose_nozzle.Cache.Goroutines.Safe.{
  AllHold, IsSafe, AfterIsSafe, PcIsSafe, Extends, AfterIsSafe-Extends, PcIsSafe-Extends, Keeps,
  Extends-allocate, Extends-write_app, AllHold-insert, AllHold-nil, Holds-allocate, AllHold-Extends,
  filled-IsSafe,
}

module _ (st : Storage) where
  module _ (m : Memory st) (safe : IsSafe st m) where
    stays : (pc : Pc) → PcIsSafe st m pc → Keeps st m (pc, m)
    stays pc h = record { keeps_memory = safe; keeps_pc = h; extends = λ guid p h. h }

    allocates :
        (app : App) (pc : Pc)
        → PcIsSafe st (allocate st app m) pc
        → Keeps st m (pc, allocate st app m)
    allocates app pc h = record {
      keeps_memory = record {
        cache_safe =
            AllHold-Extends st m (allocate st app m) m.cache (Extends-allocate st app m)
              safe.cache_safe;
        db_safe = safe.db_safe;
      };
      keeps_pc = h;
      extends = Extends-allocate st app m;
    }

    writes_app :
        (q : ℕ) (app : App) (pc : Pc)
        → app.guid ≡ (m.apps q).guid
        → PcIsSafe st (write_app st q app m) pc
        → Keeps st m (pc, write_app st q app m)
    writes_app q app pc same h = record {
      keeps_memory = record {
        cache_safe =
            AllHold-Extends st m (write_app st q app m) m.cache (Extends-write_app st q app m same)
              safe.cache_safe;
        db_safe = safe.db_safe;
      };
      keeps_pc = h;
      extends = Extends-write_app st q app m same;
    }

    -- a step that changes neither the apps nor their addresses
    changes :
        (pc : Pc) (m' : Memory st)
        → m'.apps ≡ m.apps
        → m'.fresh ≡ m.fresh
        → PcIsSafe st m pc
        → AllHold st m m'.cache
        → IsDbKeyed st m'.appdb
        → Keeps st m (pc, m')
    changes pc m' same_apps same_fresh h cache db =
        let ext : Extends st m m' = λ guid p (lt, is). (rw same_fresh lt, rw same_apps is) in
        record {
          keeps_memory = record {
            cache_safe = AllHold-Extends st m m' m'.cache ext cache;
            db_safe = db;
          };
          keeps_pc = PcIsSafe-Extends st m m' pc ext h;
          extends = ext;
        }

    either_way :
        (b : Bool) (x y : Pc × Memory st)
        → Keeps st m x
        → Keeps st m y
        → Keeps st m (if b then x else y)
    either_way true x y hx hy = hx
    either_way false x y hx hy = hy

    either_pc :
        (b : Bool) (x y : Pc)
        → PcIsSafe st m x
        → PcIsSafe st m y
        → PcIsSafe st m (if b then x else y)
    either_pc true x y hx hy = hx
    either_pc false x y hx hy = hy

    module _ (config : BoltdbConfig) (client : AppClient) (now : ℤ) where
      look-Keeps :
          (guid : String) (found : Option ℕ)
          → lookup guid m.cache ≡ found
          → Keeps st m (look st config client now guid m found)
      unfolding look
      look-Keeps guid (some p) f = stays _ (safe.cache_safe guid p f)
      look-Keeps guid none f =
          let missed = config.ignore_missing_apps && is_some (lookup guid m.missing_apps) in
          let gone : Pc = returned guid (err missing_and_ignored) in
          either_way missed (gone, m) (asks guid, m) (stays gone tt) (stays (asks guid) tt)

      mark-Keeps :
          (guid : String) (pc : Pc)
          → PcIsSafe st m pc
          → Keeps st m (pc, mark st config client now guid m)
      unfolding mark
      mark-Keeps guid pc h = elim (Bool-cases config.ignore_missing_apps) [
        | inl on ↦ rw (on, mark) (changes pc _ refl refl h safe.cache_safe safe.db_safe)
        | inr off ↦ rw (off, mark) (stays pc h)
      ]

      ask-Keeps :
          (guid : String) (r : Result String CfApp)
          → ((cf : CfApp) → r ≡ ok cf → cf.guid ≡ guid)
          → Keeps st m (ask st config client now guid m r)
      unfolding ask
      ask-Keeps guid (err e) answers = stays _ tt
      ask-Keeps guid (ok cf) answers = allocates _ _ (Holds-allocate st _ guid m (answers cf refl))

      read_back-Keeps :
          (guid : String) (e : CacheError) (found : Option String)
          → st.get m.appdb guid ≡ found
          → Keeps st m (read_back st config client now guid e m found)
      unfolding read_back
      read_back-Keeps guid e none f = stays _ tt
      read_back-Keeps guid e (some text) f = elim (Result-cases (st.unmarshal text)) [
        | inl (app, read) ↦
            rw (read, read_back)
              (allocates app _ (Holds-allocate st app guid m (safe.db_safe guid text app f read)))
        | inr (why, failed) ↦ rw (failed, read_back) (stays _ tt)
      ]

      fill_space-IsSafe :
          (start : ℤ) (p : ℕ) (a : After) (found : Option Space)
          → AfterIsSafe st m a p
          → PcIsSafe st m (fill_space st config client now start p a found)
      unfolding fill_space
      fill_space-IsSafe start p a none h = h
      fill_space-IsSafe start p a (some space) h =
          either_pc (expired config.org_space_cache_ttl start space.last_updated)
            (asks_space start p a) (sets_space start p space a) h h

      fill_org-IsSafe :
          (start : ℤ) (p : ℕ) (space : Space) (a : After) (found : Option Org)
          → AfterIsSafe st m a p
          → PcIsSafe st m (fill_org st config client now start p space a found)
      unfolding fill_org
      fill_org-IsSafe start p space a none h = h
      fill_org-IsSafe start p space a (some org) h =
          either_pc (expired config.org_space_cache_ttl start org.last_updated)
            (asks_org start p space a) (sets_org p space org a) h h

      ask_space-Keeps :
          (start : ℤ) (p : ℕ) (a : After) (r : Result String CfSpace)
          → AfterIsSafe st m a p
          → Keeps st m (ask_space st config client now start p a m r)
      unfolding ask_space
      ask_space-Keeps start p a (err e) h = stays _ (filled-IsSafe st m a p h)
      ask_space-Keeps start p a (ok cf) h =
          changes (sets_space start p _ a) _ refl refl h safe.cache_safe safe.db_safe

      ask_org-Keeps :
          (start : ℤ) (p : ℕ) (space : Space) (a : After) (r : Result String CfOrg)
          → AfterIsSafe st m a p
          → Keeps st m (ask_org st config client now start p space a m r)
      unfolding ask_org
      ask_org-Keeps start p space a (err e) h = stays _ (filled-IsSafe st m a p h)
      ask_org-Keeps start p space a (ok cf) h =
          changes (sets_org p space _ a) _ refl refl h safe.cache_safe safe.db_safe

      list_all-Keeps :
          (r : Result String (List CfApp)) → Keeps st m (list_all st config client now m r)
      unfolding list_all
      list_all-Keeps (err e) = stays _ tt
      list_all-Keeps (ok cf_apps) = stays _ (AllHold-nil st m)

      load-Keeps :
          (rows : List (String × String)) (apps : Dict ℕ)
          → AllHold st m apps
          → Keeps st m (load st config client now rows apps m)
      unfolding load
      load-Keeps [] [] h = stays _ tt
      load-Keeps [] (a ∷ apps) h = stays _ h
      load-Keeps ((guid, text) ∷ rows) apps h = elim (Result-cases (st.unmarshal text)) [
        | inl (app, read) ↦
            rw (read, load)
              (allocates app _ (
                AllHold-insert st (allocate st app m) app.guid m.fresh apps
                  (Holds-allocate st app app.guid m refl)
                  (AllHold-Extends st m (allocate st app m) apps (Extends-allocate st app m) h)))
        | inr (why, failed) ↦ rw (failed, load) (stays _ tt)
      ]

module _ (st : Storage) (laws : StorageLaws st) (config : BoltdbConfig) (client : AppClient)
    (now : ℤ) where
  -- The step of a goroutine, wherever it is.
  pub advance-Keeps :
      (m : Memory st) (pc : Pc)
      → ((guid : String) → AnswersGuid client guid)
      → IsSafe st m
      → PcIsSafe st m pc
      → Keeps st m (advance st config client now pc m)
  unfolding advance
  advance-Keeps m (looks guid) answers safe h = look-Keeps st m safe config client now guid _ refl
  advance-Keeps m (asks guid) answers safe h =
      ask-Keeps st m safe config client now guid _ (answers guid)
  advance-Keeps m (reads guid e) answers safe h =
      read_back-Keeps st m safe config client now guid e _ refl
  advance-Keeps m (caches guid p) answers safe h =
      changes st m safe _ _ refl refl h (AllHold-insert st m guid p m.cache h safe.cache_safe)
        safe.db_safe
  advance-Keeps m (marks guid e) answers safe h =
      mark-Keeps st m safe config client now guid (returned guid (err e)) tt
  advance-Keeps m (stores_app guid p) answers safe h =
      changes st m safe _ _ refl refl h safe.cache_safe
        (store_app-IsDbKeyed st laws (m.apps p) m.appdb safe.db_safe)
  advance-Keeps m (keeps guid p) answers safe (lt, is) =
      changes st m safe (returned guid (ok p)) _ refl refl (lt, is)
        (AllHold-insert st m (m.apps p).guid p m.cache (lt, refl) safe.cache_safe) safe.db_safe
  advance-Keeps m (returned guid r) answers safe h = stays st m safe _ h
  advance-Keeps m (fills_space start p a) answers safe h =
      stays st m safe _ (fill_space-IsSafe st m safe config client now start p a _ h)
  advance-Keeps m (asks_space start p a) answers safe h =
      ask_space-Keeps st m safe config client now start p a _ h
  advance-Keeps m (sets_space start p space a) answers safe h =
      let app : App = record (m.apps p) { space_name = space.name; org_guid = space.org_guid } in
      writes_app st m safe p app (fills_org start p space a) refl
        (AfterIsSafe-Extends st m (write_app st p app m) a p (Extends-write_app st p app m refl) h)
  advance-Keeps m (fills_org start p space a) answers safe h =
      stays st m safe _ (fill_org-IsSafe st m safe config client now start p space a _ h)
  advance-Keeps m (asks_org start p space a) answers safe h =
      ask_org-Keeps st m safe config client now start p space a _ h
  advance-Keeps m (sets_org p space org a) answers safe h =
      let app : App = record (m.apps p) { org_guid = space.org_guid; org_name = org.name } in
      let m' : Memory st = write_app st p app m in
      writes_app st m safe p app (filled st a p m') refl (
        filled-IsSafe st m' a p
          (AfterIsSafe-Extends st m m' a p (Extends-write_app st p app m refl) h))
  advance-Keeps m forgets_missing answers safe h =
      changes st m safe finished _ refl refl tt safe.cache_safe safe.db_safe
  advance-Keeps m (forgets_names again) answers safe h =
      changes st m safe _ _ refl refl (either_pc st m safe again lists finished tt tt)
        safe.cache_safe safe.db_safe
  advance-Keeps m populates answers safe h = stays st m safe _ (AllHold-nil st m)
  advance-Keeps m (loads rows apps) answers safe h =
      load-Keeps st m safe config client now rows apps h
  advance-Keeps m lists answers safe h = list_all-Keeps st m safe config client now _
  advance-Keeps m (collecting [] apps) answers safe h = stays st m safe _ h
  advance-Keeps m (collecting (cf ∷ rest) apps) answers safe h =
      let app : App = plain_app st cf in
      allocates st m safe app (fills_space now m.fresh (collects rest apps))
        (omega arith, AllHold-Extends st m (allocate st app m) apps (Extends-allocate st app m) h)
  advance-Keeps m (stores_all [] apps) answers safe h = stays st m safe _ h
  advance-Keeps m (stores_all ((guid, p) ∷ left) apps) answers safe h =
      changes st m safe _ _ refl refl h safe.cache_safe
        (store_app-IsDbKeyed st laws (m.apps p) m.appdb safe.db_safe)
  advance-Keeps m (swaps apps) answers safe h =
      changes st m safe finished _ refl refl tt h safe.db_safe
  advance-Keeps m finished answers safe h = stays st m safe _ tt
