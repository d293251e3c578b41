-- ===== src/Cache/Goroutines/Alone/Agrees.antt =====
-- The memory of the goroutines and the state of the operations as wholes.
use splunk_firehose_nozzle.Base.{
  ℕ, suc, ◌<◌, String, Bool, true, false, Option, none, some, ◌≡◌, refl, sym, arith, ◌==◌,
  Bool-cases, inl, inr, eqb, ap, if◌then◌else◌,
}
use splunk_firehose_nozzle.Base.Int.{ℤ}
use splunk_firehose_nozzle.Base.Dict.{Dict, lookup, insert, lookup-insert}
use splunk_firehose_nozzle.Base.Family.{replace}
use splunk_firehose_nozzle.Base.Result.{Result, ok, err}
use splunk_firehose_nozzle.Cache.App.{App, CacheError}
use splunk_firehose_nozzle.Cache.Names.{AppClient}
use splunk_firehose_nozzle.Cache.Boltdb.{BoltdbConfig, Storage, Boltdb}
use splunk_firehose_nozzle.Cache.Goroutines.{Pc, returned, Memory, advance}
use splunk_firehose_nozzle.Cache.Goroutines.Alone.{Comes}

-- What an address stands for.
abbrev pub pointed : (ℕ → App) → Option ℕ → Option App
pointed apps none = none
pointed apps (some p) = some (apps p)

abbrev pub answered : (ℕ → App) → Result CacheError ℕ → Result CacheError (Option App)
answered apps (ok p) = ok (some (apps p))
answered apps (err e) = err e

pub pointed-others :
    (apps apps' : ℕ → App) (found : Option ℕ)
    → ((q : ℕ) → found ≡ some q → apps' q ≡ apps q)
    → pointed apps found ≡ pointed apps' found
pointed-others apps apps' none h = refl
pointed-others apps apps' (some q) h = ap some (sym (h q refl))

pub fresh_other :
    (apps : ℕ → App) (fresh : ℕ) (app : App) (q : ℕ) → q < fresh → replace apps fresh app q ≡ apps q
fresh_other apps fresh app q below = ground (arith, below)

pub fresh_apart : (fresh q : ℕ) → q < fresh → eqb fresh q ≡ false
fresh_apart fresh q below = ground (arith, below)

pub same_guid : (apps : ℕ → App) (p q : ℕ) → p ≡ q → (apps p).guid ≡ (apps q).guid
same_guid apps p q e = rw e refl

-- An app that is cached, on both sides.
pub kept_agrees :
    (apps : ℕ → App) (p : ℕ) (cache : Dict App) (addresses : Dict ℕ) (k : String)
    → lookup k cache ≡ pointed apps (lookup k addresses)
    → lookup k (insert (apps p).guid (apps p) cache)
      ≡ pointed apps (lookup k (insert (apps p).guid p addresses))
kept_agrees apps p cache addresses k h =
    rw (lookup-insert (apps p).guid k (apps p) cache, lookup-insert (apps p).guid k p addresses)
      (elim (Bool-cases ((apps p).guid == k)) [ inl at ↦ rw at refl | inr other ↦ rw other h ])

module _ (st : Storage) where
  -- The memory of the goroutines, and the state of the operations as wholes: the same, with each app in
  -- the place of its address.
  pub record Agrees (m : Memory st) (s : Boltdb st) : Type 0 where
    pub cache_agrees : (k : String) → lookup k s.cache ≡ pointed m.apps (lookup k m.cache)
    pub missing_agrees : s.missing_apps ≡ m.missing_apps
    pub names_agree : s.names ≡ m.names
    pub db_agrees : s.appdb ≡ m.appdb

  abbrev pub whole : Dict App → Memory st → Boltdb st
  whole cache m = record {
    appdb = m.appdb;
    cache = cache;
    missing_apps = m.missing_apps;
    names = m.names;
  }

  pub Agrees-whole : (m : Memory st) (s : Boltdb st) → Agrees m s → s ≡ whole s.cache m
  Agrees-whole m s h = rw (sym h.missing_agrees, sym h.names_agree, sym h.db_agrees) refl

  pub Agrees-if :
      {m m' : Memory st} {s s' : Boltdb st} (b : Bool)
      → Agrees m s
      → Agrees m' s'
      → Agrees (if b then m else m') (if b then s else s')
  Agrees-if true h h' = h
  Agrees-if false h h' = h'

  module _ (config : BoltdbConfig) (client : AppClient) (now : ℤ) where
    -- From x on, the goroutine returns that answer, and leaves the memory in that state.
    pub record Ends (x : Pc × Memory st) (guid : String)
        (r : Result CacheError (Option App) × Boltdb st) : Type 0 where
      pub after_all : Memory st
      pub address : Result CacheError ℕ
      pub comes : Comes st config client now x (returned guid address, after_all)
      pub its_answer : answered after_all.apps address ≡ r.0
      pub its_state : Agrees after_all r.1

    pub Ends-step :
        {guid : String} {r : Result CacheError (Option App) × Boltdb st} (pc : Pc) (m : Memory st)
        → Ends (advance st config client now pc m) guid r
        → Ends (pc, m) guid r
    Ends-step pc m h = record {
      after_all = h.after_all;
      address = h.address;
      comes = (suc h.comes.0, h.comes.1);
      its_answer = h.its_answer;
      its_state = h.its_state;
    }
