-- ===== src/Cache/Goroutines.antt =====
-- The operations of cache/boltdb.go as goroutines that run at the same time: one step is one access to
-- what they share, under the lock that the code takes for it. Apps are objects at addresses, which the
-- maps and the goroutines point to.
pub mod Safe
pub mod Moves
pub mod Keyed
pub mod Alone
use splunk_firehose_nozzle.Base.{
  ℕ, suc, String, Bool, true, false, ◌&&◌, Option, none, some, is_some, List, [], ◌∷◌, ◌≡◌,
  if◌then◌else◌,
}
use splunk_firehose_nozzle.Base.Int.{ℤ}
use splunk_firehose_nozzle.Base.Dict.{Dict, lookup, insert}
use splunk_firehose_nozzle.Base.Family.{replace}
use splunk_firehose_nozzle.Base.Result.{Result, ok, err}
use splunk_firehose_nozzle.Cache.App.{App, CacheError, missing_and_ignored, remote}
use splunk_firehose_nozzle.Cache.Names.{
  CfApp, AppClient, CfSpace, CfOrg, Org, Space, NameCaches, expired,
}
use splunk_firehose_nozzle.Cache.Boltdb.{BoltdbConfig, Storage, plain_app, store_app, query_of}
use splunk_firehose_nozzle.Cache.Boltdb.Found.{AnswersGuid}

-- What follows fillOrgAndSpace: GetApp(guid) returns the app, getAppFromRemote stores it, or the loop
-- of getAllAppsFromRemote adds it to its map and goes on.
pub data After : Type 0 where
  returns : String → After
  stores : String → After
  collects : List CfApp → Dict ℕ → After

-- Where a goroutine is. In fillOrgAndSpace it has the time of its start and the address of the app.
pub data Pc : Type 0 where
  looks : String → Pc
  asks : String → Pc
  reads : String → CacheError → Pc
  caches : String → ℕ → Pc
  marks : String → CacheError → Pc
  stores_app : String → ℕ → Pc
  keeps : String → ℕ → Pc
  returned : String → Result CacheError ℕ → Pc
  fills_space : ℤ → ℕ → After → Pc
  asks_space : ℤ → ℕ → After → Pc
  sets_space : ℤ → ℕ → Space → After → Pc
  fills_org : ℤ → ℕ → Space → After → Pc
  asks_org : ℤ → ℕ → Space → After → Pc
  sets_org : ℕ → Space → Org → After → Pc
  forgets_missing : Pc
  forgets_names : Bool → Pc
  populates : Pc
  loads : List (String × String) → Dict ℕ → Pc
  lists : Pc
  collecting : List CfApp → Dict ℕ → Pc
  stores_all : Dict ℕ → Dict ℕ → Pc
  swaps : Dict ℕ → Pc
  finished : Pc

module _ (st : Storage) where
  -- What the goroutines share. An address below `fresh` holds an app.
  pub record Memory : Type 0 where
    pub apps : ℕ → App
    pub fresh : ℕ
    pub cache : Dict ℕ
    pub missing_apps : Dict Bool
    pub names : NameCaches
    pub appdb : st.Db

  -- &App{...}
  abbrev pub allocate : App → Memory → Memory
  allocate app m = record m { apps = replace m.apps m.fresh app; fresh = suc m.fresh }

  abbrev pub write_app : ℕ → App → Memory → Memory
  write_app p app m = record m { apps = replace m.apps p app }

  -- the end of fillOrgAndSpace, whose error all callers ignore
  abbrev pub filled : After → ℕ → Memory → Pc
  filled (returns guid) p m = returned guid (ok p)
  filled (stores guid) p m = stores_app guid p
  filled (collects rest apps) p m = collecting rest (insert (m.apps p).guid p apps)

  module _ (config : BoltdbConfig) (client : AppClient) (now : ℤ) where
    -- The pieces of GetApp.
    unfoldable pub look : String → Memory → Option ℕ → Pc × Memory
    look guid m (some p) = (fills_space now p (returns guid), m)
    look guid m none =
        if config.ignore_missing_apps && is_some (lookup guid m.missing_apps)
        then (returned guid (err missing_and_ignored), m)
        else (asks guid, m)

    unfoldable pub ask : String → Memory → Result String CfApp → Pc × Memory
    ask guid m (err e) = (reads guid (remote e), m)
    ask guid m (ok cf) = (fills_space now m.fresh (stores guid), allocate (plain_app st cf) m)

    unfoldable pub read_back : String → CacheError → Memory → Option String → Pc × Memory
    read_back guid e m none = (marks guid e, m)
    read_back guid e m (some text) = elim (st.unmarshal text) [
      | err why ↦ (marks guid e, m)
      | ok app ↦ (caches guid m.fresh, allocate app m)
    ]

    unfoldable pub mark : String → Memory → Memory
    mark guid m =
        if config.ignore_missing_apps
        then record m { missing_apps = insert guid true m.missing_apps }
        else m

    -- The pieces of fillOrgAndSpace.
    unfoldable pub fill_space : ℤ → ℕ → After → Option Space → Pc
    fill_space start p a none = asks_space start p a
    fill_space start p a (some space) =
        if expired config.org_space_cache_ttl start space.last_updated
        then asks_space start p a
        else sets_space start p space a

    unfoldable pub ask_space : ℤ → ℕ → After → Memory → Result String CfSpace → Pc × Memory
    ask_space start p a m (err e) = (filled a p m, m)
    ask_space start p a m (ok cf) =
        let space : Space = record {
          name = cf.name;
          org_guid = cf.organization_guid;
          last_updated = start;
        } in
        (
          sets_space start p space a,
          record m {
            names = record m.names { spaces = insert (m.apps p).space_guid space m.names.spaces };
          },
        )

    unfoldable pub fill_org : ℤ → ℕ → Space → After → Option Org → Pc
    fill_org start p space a none = asks_org start p space a
    fill_org start p space a (some org) =
        if expired config.org_space_cache_ttl start org.last_updated
        then asks_org start p space a
        else sets_org p space org a

    unfoldable pub ask_org : ℤ → ℕ → Space → After → Memory → Result String CfOrg → Pc × Memory
    ask_org start p space a m (err e) = (filled a p m, m)
    ask_org start p space a m (ok cf) =
        let org : Org = record { name = cf.name; last_updated = start } in
        (
          sets_org p space org a,
          record m { names = record m.names { orgs = insert space.org_guid org m.names.orgs } },
        )

    unfoldable pub list_all : Memory → Result String (List CfApp) → Pc × Memory
    list_all m (err e) = (finished, m)
    list_all m (ok cf_apps) = (collecting cf_apps [], m)

    -- The apps of the database, or those of the API if there are none.
    unfoldable pub load : List (String × String) → Dict ℕ → Memory → Pc × Memory
    load [] [] m = (lists, m)
    load [] (a ∷ apps) m = (swaps (a ∷ apps), m)
    load ((guid, text) ∷ rows) apps m = elim (st.unmarshal text) [
      | err why ↦ (finished, m)
      | ok app ↦ (loads rows (insert app.guid m.fresh apps), allocate app m)
    ]

    -- One access of a goroutine to the memory. A call of the API answers at once, as the memory is not
    -- looked at in the meantime.
    unfoldable pub advance : Pc → Memory → Pc × Memory
    unfolding look ask read_back mark fill_space ask_space fill_org ask_org list_all load
    advance (looks guid) m = look guid m (lookup guid m.cache)
    advance (asks guid) m = ask guid m (client.app_by_guid guid)
    advance (reads guid e) m = read_back guid e m (st.get m.appdb guid)
    advance (caches guid p) m =
        (fills_space now p (returns guid), record m { cache = insert guid p m.cache })
    advance (marks guid e) m = (returned guid (err e), mark guid m)
    advance (stores_app guid p) m =
        (keeps guid p, record m { appdb = store_app st (m.apps p) m.appdb })
    advance (keeps guid p) m =
        (returned guid (ok p), record m { cache = insert (m.apps p).guid p m.cache })
    advance (returned guid r) m = (returned guid r, m)
    advance (fills_space start p a) m =
        (fill_space start p a (lookup (m.apps p).space_guid m.names.spaces), m)
    advance (asks_space start p a) m =
        ask_space start p a m (client.get_space_by_guid (m.apps p).space_guid)
    advance (sets_space start p space a) m = (
      fills_org start p space a,
      write_app p (record (m.apps p) { space_name = space.name; org_guid = space.org_guid }) m,
    )
    advance (fills_org start p space a) m =
        (fill_org start p space a (lookup space.org_guid m.names.orgs), m)
    advance (asks_org start p space a) m =
        ask_org start p space a m (client.get_org_by_guid space.org_guid)
    advance (sets_org p space org a) m =
        let m' =
          write_app p (record (m.apps p) { org_guid = space.org_guid; org_name = org.name }) m in
        (filled a p m', m')
    advance forgets_missing m = (finished, record m { missing_apps = [] })
    advance (forgets_names again) m =
        (if again then lists else finished, record m { names = record { orgs = []; spaces = [] } })
    advance populates m = (loads (st.for_each m.appdb) [], m)
    advance (loads rows apps) m = load rows apps m
    advance lists m = list_all m (client.list_apps (query_of st config))
    advance (collecting [] apps) m = (stores_all apps apps, m)
    advance (collecting (cf ∷ rest) apps) m =
        (fills_space now m.fresh (collects rest apps), allocate (plain_app st cf) m)
    advance (stores_all [] apps) m = (swaps apps, m)
    advance (stores_all ((guid, p) ∷ left) apps) m =
        (stores_all left apps, record m { appdb = store_app st (m.apps p) m.appdb })
    advance (swaps apps) m = (finished, record m { cache = apps })
    advance finished m = (finished, m)

  -- Goroutines by number, most of which have not begun.
  pub record Crew : Type 0 where
    pub memory : Memory
    pub at : ℕ → Pc

  -- Where a goroutine begins: GetApp, a tick of a background loop, ManuallyInvalidateCaches, populateCache.
  abbrev pub is_entry : Pc → Bool
  is_entry (looks guid) = true
  is_entry forgets_missing = true
  is_entry (forgets_names again) = true
  is_entry lists = true
  is_entry populates = true
  is_entry _ = false

  abbrev pub is_over : Pc → Bool
  is_over (returned guid r) = true
  is_over finished = true
  is_over _ = false

  -- A step of any goroutine, with what the API answers and what the clock shows at that moment.
  pub data CrewStep (config : BoltdbConfig) (c : Crew) : Crew → Type 0 where
    starts :
        (i : ℕ) (pc : Pc)
        → is_over (c.at i) ≡ true
        → is_entry pc ≡ true
        → CrewStep config c (record c { at = replace c.at i pc })
    moves :
        (i : ℕ) (client : AppClient) (now : ℤ)
        → ((guid : String) → AnswersGuid client guid)
        → CrewStep config c (record {
          memory = (advance config client now (c.at i) c.memory).1;
          at = replace c.at i (advance config client now (c.at i) c.memory).0;
        })

  pub data CrewRun (config : BoltdbConfig) (c : Crew) : Crew → Type 0 where
    rests : CrewRun config c c
    goes_on : {d e : Crew} → CrewRun config c d → CrewStep config d e → CrewRun config c e
