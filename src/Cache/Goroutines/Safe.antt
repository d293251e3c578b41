-- ===== src/Cache/Goroutines/Safe.antt =====
-- What holds of the memory and of each goroutine, wherever it is.
use splunk_firehose_nozzle.Base.{ℕ, ◌<◌, String, some, [], ◌≡◌, refl, arith, eq_iff}
use splunk_firehose_nozzle.Base.Dict.{Dict, lookup, insert, lookup-insert, lookup-nil}
use splunk_firehose_nozzle.Base.Result.{ok, err}
use splunk_firehose_nozzle.Cache.App.{App}
use splunk_firehose_nozzle.Cache.Boltdb.{Storage}
use splunk_firehose_nozzle.Cache.Boltdb.Keyed.{IsDbKeyed}
use splunk_firehose_nozzle.Cache.Goroutines.{
  After, returns, stores, collects, Pc, looks, asks, reads, caches, marks, stores_app, keeps,
  returned, fills_space, asks_space, sets_space, fills_org, asks_org, sets_org, forgets_missing,
  forgets_names, populates, loads, lists, collecting, stores_all, swaps, finished, Memory, allocate,
  write_app, filled,
}

module _ (st : Storage) where
  -- The address holds an app of that guid.
  abbrev pub Holds : Memory st → String → ℕ → Type 0
  Holds m guid p = (p < m.fresh) × ((m.apps p).guid ≡ guid)

  abbrev pub AllHold : Memory st → Dict ℕ → Type 0
  AllHold m apps = (guid : String) (p : ℕ) → lookup guid apps ≡ some p → Holds m guid p

  pub record IsSafe (m : Memory st) : Type 0 where
    pub cache_safe : AllHold m m.cache
    pub db_safe : IsDbKeyed st m.appdb

  -- What the goroutine relies on behind fillOrgAndSpace.
  abbrev pub AfterIsSafe : Memory st → After → ℕ → Type 0
  AfterIsSafe m (returns guid) p = Holds m guid p
  AfterIsSafe m (stores guid) p = Holds m guid p
  AfterIsSafe m (collects rest apps) p = (p < m.fresh) × AllHold m apps

  abbrev pub PcIsSafe : Memory st → Pc → Type 0
  PcIsSafe m (looks guid) = Unit
  PcIsSafe m (asks guid) = Unit
  PcIsSafe m (reads guid e) = Unit
  PcIsSafe m (caches guid p) = Holds m guid p
  PcIsSafe m (marks guid e) = Unit
  PcIsSafe m (stores_app guid p) = Holds m guid p
  PcIsSafe m (keeps guid p) = Holds m guid p
  PcIsSafe m (returned guid (ok p)) = Holds m guid p
  PcIsSafe m (returned guid (err e)) = Unit
  PcIsSafe m (fills_space start p a) = AfterIsSafe m a p
  PcIsSafe m (asks_space start p a) = AfterIsSafe m a p
  PcIsSafe m (sets_space start p space a) = AfterIsSafe m a p
  PcIsSafe m (fills_org start p space a) = AfterIsSafe m a p
  PcIsSafe m (asks_org start p space a) = AfterIsSafe m a p
  PcIsSafe m (sets_org p space org a) = AfterIsSafe m a p
  PcIsSafe m forgets_missing = Unit
  PcIsSafe m (forgets_names again) = Unit
  PcIsSafe m populates = Unit
  PcIsSafe m (loads rows apps) = AllHold m apps
  PcIsSafe m lists = Unit
  PcIsSafe m (collecting rest apps) = AllHold m apps
  PcIsSafe m (stores_all left apps) = AllHold m apps
  PcIsSafe m (swaps apps) = AllHold m apps
  PcIsSafe m finished = Unit

  -- No app goes away or gets another guid.
  abbrev pub Extends : Memory st → Memory st → Type 0
  Extends m m' = (guid : String) (p : ℕ) → Holds m guid p → Holds m' guid p

  pub AfterIsSafe-Extends :
      (m m' : Memory st) (a : After) (p : ℕ) → Extends m m' → AfterIsSafe m a p → AfterIsSafe m' a p
  AfterIsSafe-Extends m m' (returns guid) p ext h = ext guid p h
  AfterIsSafe-Extends m m' (stores guid) p ext h = ext guid p h
  AfterIsSafe-Extends m m' (collects rest apps) p ext (lt, h) =
      ((ext (m.apps p).guid p (lt, refl)).0, λ guid q found. ext guid q (h guid q found))

  pub PcIsSafe-Extends :
      (m m' : Memory st) (pc : Pc) → Extends m m' → PcIsSafe m pc → PcIsSafe m' pc
  PcIsSafe-Extends m m' (looks guid) ext h = tt
  PcIsSafe-Extends m m' (asks guid) ext h = tt
  PcIsSafe-Extends m m' (reads guid e) ext h = tt
  PcIsSafe-Extends m m' (caches guid p) ext h = ext guid p h
  PcIsSafe-Extends m m' (marks guid e) ext h = tt
  PcIsSafe-Extends m m' (stores_app guid p) ext h = ext guid p h
  PcIsSafe-Extends m m' (keeps guid p) ext h = ext guid p h
  PcIsSafe-Extends m m' (returned guid (ok p)) ext h = ext guid p h
  PcIsSafe-Extends m m' (returned guid (err e)) ext h = tt
  PcIsSafe-Extends m m' (fills_space start p a) ext h = AfterIsSafe-Extends m m' a p ext h
  PcIsSafe-Extends m m' (asks_space start p a) ext h = AfterIsSafe-Extends m m' a p ext h
  PcIsSafe-Extends m m' (sets_space start p space a) ext h = AfterIsSafe-Extends m m' a p ext h
  PcIsSafe-Extends m m' (fills_org start p space a) ext h = AfterIsSafe-Extends m m' a p ext h
  PcIsSafe-Extends m m' (asks_org start p space a) ext h = AfterIsSafe-Extends m m' a p ext h
  PcIsSafe-Extends m m' (sets_org p space org a) ext h = AfterIsSafe-Extends m m' a p ext h
  PcIsSafe-Extends m m' forgets_missing ext h = tt
  PcIsSafe-Extends m m' (forgets_names again) ext h = tt
  PcIsSafe-Extends m m' populates ext h = tt
  PcIsSafe-Extends m m' (loads rows apps) ext h = λ guid q found. ext guid q (h guid q found)
  PcIsSafe-Extends m m' lists ext h = tt
  PcIsSafe-Extends m m' (collecting rest apps) ext h = λ guid q found. ext guid q (h guid q found)
  PcIsSafe-Extends m m' (stores_all left apps) ext h = λ guid q found. ext guid q (h guid q found)
  PcIsSafe-Extends m m' (swaps apps) ext h = λ guid q found. ext guid q (h guid q found)
  PcIsSafe-Extends m m' finished ext h = tt

  -- A goroutine's step from m to m', where it then is at pc.
  pub record Keeps (m : Memory st) (moved : Pc × Memory st) : Type 0 where
    pub keeps_memory : IsSafe moved.1
    pub keeps_pc : PcIsSafe moved.1 moved.0
    pub extends : Extends m moved.1

  pub Extends-allocate : (app : App) (m : Memory st) → Extends m (allocate st app m)
  Extends-allocate app m guid p h = ground (arith, h)

  pub Extends-write_app :
      (q : ℕ) (app : App) (m : Memory st)
      → app.guid ≡ (m.apps q).guid
      → Extends m (write_app st q app m)
  Extends-write_app q app m same guid p h = ground (arith, h, same)

  pub AllHold-insert :
      (m : Memory st) (guid : String) (p : ℕ) (apps : Dict ℕ)
      → Holds m guid p
      → AllHold m apps
      → AllHold m (insert guid p apps)
  AllHold-insert m guid p apps own h other q found =
      ground (arith, lookup-insert guid other p apps, eq_iff guid other, found, h other q, own)

  pub AllHold-nil : (m : Memory st) → AllHold m []
  AllHold-nil m guid p found = absurd (ground (arith, found, lookup-nil {V = ℕ} guid))

  pub Holds-allocate :
      (app : App) (guid : String) (m : Memory st)
      → app.guid ≡ guid
      → Holds (allocate st app m) guid m.fresh
  Holds-allocate app guid m h = ground (arith, h)

  pub AllHold-Extends :
      (m m' : Memory st) (apps : Dict ℕ) → Extends m m' → AllHold m apps → AllHold m' apps
  AllHold-Extends m m' apps ext h guid p found = ext guid p (h guid p found)

  pub filled-IsSafe :
      (m : Memory st) (a : After) (p : ℕ) → AfterIsSafe m a p → PcIsSafe m (filled st a p m)
  filled-IsSafe m (returns guid) p h = h
  filled-IsSafe m (stores guid) p h = h
  filled-IsSafe m (collects rest apps) p (lt, h) =
      AllHold-insert m (m.apps p).guid p apps (lt, refl) h
