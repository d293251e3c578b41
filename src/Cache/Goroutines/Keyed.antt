-- ===== src/Cache/Goroutines/Keyed.antt =====
-- What holds of the cache while any number of goroutines use it at the same time.
use splunk_firehose_nozzle.Base.{ℕ, String, [], ◌≡◌, subst, eqb, true, Bool-cases, inl, inr}
use splunk_firehose_nozzle.Base.Family.{replace}
use splunk_firehose_nozzle.Base.Result.{ok}
use splunk_firehose_nozzle.Cache.Boltdb.{BoltdbConfig, Storage}
use splunk_firehose_nozzle.Cache.Boltdb.Keyed.{IsDbKeyed, StorageLaws}
use splunk_firehose_nozzle.Cache.Json.{zero_app}
use splunk_firehose_nozzle.Cache.Goroutines.{
  Pc, looks, returned, forgets_missing, forgets_names, populates, lists, finished, Memory, Crew,
  is_entry, advance, CrewStep, starts, moves, CrewRun, rests, goes_on,
}
use splunk_firehose_nozzle.Cache.Goroutines.Safe.{
  AllHold, IsSafe, PcIsSafe, PcIsSafe-Extends, AllHold-nil,
}
use splunk_firehose_nozzle.Cache.Goroutines.Moves.{advance-Keeps}

module _ (st : Storage) where
  record CrewIsSafe (c : Crew st) : Type 0 where
    memory_safe : IsSafe st c.memory
    all_safe : (i : ℕ) → PcIsSafe st c.memory (c.at i)

  -- Open's state: nothing in memory yet, and no goroutine at work.
  abbrev pub opened_crew : st.Db → Crew st
  opened_crew db = record {
    memory = record {
      apps = λ p. zero_app;
      fresh = 0;
      cache = [];
      missing_apps = [];
      names = record { orgs = []; spaces = [] };
      appdb = db;
    };
    at = λ i. finished;
  }

  opened_crew-IsSafe : (db : st.Db) → IsDbKeyed st db → CrewIsSafe (opened_crew db)
  opened_crew-IsSafe db keyed = record {
    memory_safe = record { cache_safe = AllHold-nil st (opened_crew db).memory; db_safe = keyed };
    all_safe = λ i. tt;
  }

  entry-IsSafe : (m : Memory st) (pc : Pc) → is_entry st pc ≡ true → PcIsSafe st m pc
  entry-IsSafe m (looks guid) h = tt
  entry-IsSafe m forgets_missing h = tt
  entry-IsSafe m (forgets_names again) h = tt
  entry-IsSafe m populates h = tt
  entry-IsSafe m lists h = tt
  entry-IsSafe m _ h = cc

  replace-IsSafe :
      (m : Memory st) (at : ℕ → Pc) (i : ℕ) (pc : Pc)
      → PcIsSafe st m pc
      → ((j : ℕ) → PcIsSafe st m (at j))
      → (j : ℕ) → PcIsSafe st m (replace at i pc j)
  replace-IsSafe m at i pc h all j = elim (Bool-cases (eqb i j)) [
    | inl here ↦ rw here h
    | inr other ↦ rw other (all j)
  ]

  module _ (laws : StorageLaws st) (config : BoltdbConfig) where
    CrewStep-IsSafe : (c d : Crew st) → CrewStep st config c d → CrewIsSafe c → CrewIsSafe d
    CrewStep-IsSafe c d (starts i pc over entry) safe = record {
      memory_safe = safe.memory_safe;
      all_safe = replace-IsSafe c.memory c.at i pc (entry-IsSafe c.memory pc entry) safe.all_safe;
    }
    CrewStep-IsSafe c d (moves i client now answers) safe =
        let moved = advance st config client now (c.at i) c.memory in
        let kept =
          advance-Keeps st laws config client now c.memory (c.at i) answers safe.memory_safe
            (safe.all_safe i) in
        record {
          memory_safe = kept.keeps_memory;
          all_safe =
              replace-IsSafe moved.1 c.at i moved.0 kept.keeps_pc
                (λ j. PcIsSafe-Extends st c.memory moved.1 (c.at j) kept.extends (safe.all_safe j));
        }

    CrewRun-IsSafe : (c d : Crew st) → CrewRun st config c d → CrewIsSafe c → CrewIsSafe d
    CrewRun-IsSafe c d rests safe = safe
    CrewRun-IsSafe c d (goes_on run step) safe =
        CrewStep-IsSafe _ d step (CrewRun-IsSafe c _ run safe)

    -- Whatever goroutines do at the same time between the locks, lookups, populating, refreshing and
    -- forgetting, from a database whose apps stand under their guids, and with an API that answers a
    -- query by guid with the app of that guid: a GetApp that returned an app returned one with the guid
    -- that it was asked for, which is then still so; and each app, in memory and in the database, stands
    -- under its own guid.
    pub CrewRun-keyed :
        (db : st.Db) (c : Crew st) (i p : ℕ) (guid : String)
        → IsDbKeyed st db
        → CrewRun st config (opened_crew db) c
        → c.at i ≡ returned guid (ok p)
        → ((c.memory.apps p).guid ≡ guid)
          × AllHold st c.memory c.memory.cache
          × IsDbKeyed st c.memory.appdb
    CrewRun-keyed db c i p guid keyed run at =
        let safe = CrewRun-IsSafe (opened_crew db) c run (opened_crew-IsSafe db keyed) in
        (
          (subst (λ (pc : Pc). PcIsSafe st c.memory pc) at (safe.all_safe i)).1,
          safe.memory_safe.cache_safe,
          safe.memory_safe.db_safe,
        )
