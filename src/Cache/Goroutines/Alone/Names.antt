-- ===== src/Cache/Goroutines/Alone/Names.antt =====
-- fillOrgAndSpace, step by step.
use splunk_firehose_nozzle.Base.{
  ℕ, suc, String, false, Option, none, some, ◌≡◌, refl, sym, ◌∙◌, arith, Bool-cases, inl, inr, eqb,
  subst, ap,
}
use splunk_firehose_nozzle.Base.Int.{ℤ}
use splunk_firehose_nozzle.Base.Dict.{lookup, insert}
use splunk_firehose_nozzle.Base.Family.{replace}
use splunk_firehose_nozzle.Base.Result.{Result, ok, err}
use splunk_firehose_nozzle.Cache.App.{App}
use splunk_firehose_nozzle.Cache.Names.{
  AppClient, CfSpace, CfOrg, Org, Space, NameCaches, expired, fill_org_and_space, store_space,
  space_from, store_org, org_from, with_org, with_space,
}
use splunk_firehose_nozzle.Cache.Boltdb.{BoltdbConfig, Storage}
use splunk_firehose_nozzle.Cache.Goroutines.{
  After, Pc, fills_space, asks_space, sets_space, fills_org, asks_org, sets_org, Memory, filled,
  fill_space, ask_space, fill_org, ask_org, advance, write_app, allocate,
}
use splunk_firehose_nozzle.Cache.Goroutines.Alone.{Comes}

pub replaced : (apps : ℕ → App) (p : ℕ) (app : App) → replace apps p app p ≡ app
replaced apps p app = ground arith

org_named :
    (app : App) (guid name : String)
    → app.org_guid ≡ guid
    → record app { org_guid = guid; org_name = name } ≡ record app { org_name = name }
org_named app guid name same = rw (sym same) refl

module _ (st : Storage) where
  -- All but the names, and the app at p.
  pub record Same (p : ℕ) (m n : Memory st) : Type 0 where
    pub other_apps : (q : ℕ) → eqb p q ≡ false → n.apps q ≡ m.apps q
    pub same_fresh : n.fresh ≡ m.fresh
    pub same_cache : n.cache ≡ m.cache
    pub same_missing : n.missing_apps ≡ m.missing_apps
    pub same_db : n.appdb ≡ m.appdb

  Same-then : (p : ℕ) (l m n : Memory st) → Same p l m → Same p m n → Same p l n
  Same-then p l m n h k = record {
    other_apps = λ q other. k.other_apps q other ∙ h.other_apps q other;
    same_fresh = k.same_fresh ∙ h.same_fresh;
    same_cache = k.same_cache ∙ h.same_cache;
    same_missing = k.same_missing ∙ h.same_missing;
    same_db = k.same_db ∙ h.same_db;
  }

  Same-names : (p : ℕ) (m : Memory st) (names : NameCaches) → Same p m (record m { names = names })
  Same-names p m names = record {
    other_apps = λ q other. refl;
    same_fresh = refl;
    same_cache = refl;
    same_missing = refl;
    same_db = refl;
  }

  Same-write_app : (p : ℕ) (app : App) (m : Memory st) → Same p m (write_app st p app m)
  Same-write_app p app m = record {
    other_apps = λ q other. rw other refl;
    same_fresh = refl;
    same_cache = refl;
    same_missing = refl;
    same_db = refl;
  }

module _ (st : Storage) (config : BoltdbConfig) (client : AppClient) (now : ℤ) where
  -- From x on, with the memory as in m but for p, the goroutine comes to the end of fillOrgAndSpace with
  -- that app and those names.
  pub record Lands (m : Memory st) (a : After) (p : ℕ) (x : Pc × Memory st) (r : App × NameCaches)
      : Type 0 where
    pub lands : Memory st
    pub comes : Comes st config client now x (filled st a p lands, lands)
    pub its_app : lands.apps p ≡ r.0
    pub its_names : lands.names ≡ r.1
    pub rest : Same st p m lands

  Lands-step :
      {m : Memory st} {a : After} {p : ℕ} {r : App × NameCaches} (pc : Pc) (n : Memory st)
      → Lands m a p (advance st config client now pc n) r
      → Lands m a p (pc, n) r
  Lands-step pc n h = record {
    lands = h.lands;
    comes = (suc h.comes.0, h.comes.1);
    its_app = h.its_app;
    its_names = h.its_names;
    rest = h.rest;
  }

  Lands-from :
      {m n : Memory st} {a : After} {p : ℕ} {x : Pc × Memory st} {r : App × NameCaches}
      → Same st p m n
      → Lands n a p x r
      → Lands m a p x r
  Lands-from {m} {n} {p} same h = record {
    lands = h.lands;
    comes = h.comes;
    its_app = h.its_app;
    its_names = h.its_names;
    rest = Same-then st p m n h.lands same h.rest;
  }

  module _ (a : After) (p : ℕ) where
    -- Nothing more is written behind an error of the API.
    Lands-here : (m : Memory st) → Lands m a p (filled st a p m, m) (m.apps p, m.names)
    Lands-here m = record {
      lands = m;
      comes = (0, refl);
      its_app = refl;
      its_names = refl;
      rest = Same-names st p m m.names;
    }

    org_set :
        (m : Memory st) (space : Space) (org : Org)
        → (m.apps p).org_guid ≡ space.org_guid
        → Lands m a p (sets_org p space org a, m) (with_org (m.apps p) (ok org, m.names))
    unfolding advance with_org
    org_set m space org same =
        let app : App = record (m.apps p) { org_guid = space.org_guid; org_name = org.name } in
        record {
          lands = write_app st p app m;
          comes = (1, refl);
          its_app = replaced m.apps p app ∙ org_named (m.apps p) space.org_guid org.name same;
          its_names = refl;
          rest = Same-write_app st p app m;
        }

    org_answered :
        (m : Memory st) (space : Space) (answer : Result String CfOrg)
        → (m.apps p).org_guid ≡ space.org_guid
        → Lands m a p
            (ask_org st config client now now p space a m answer)
            (with_org (m.apps p) (store_org now space.org_guid answer m.names))
    unfolding ask_org store_org with_org
    org_answered m space (err e) same = Lands-here m
    org_answered m space (ok cf) same =
        let org : Org = record { name = cf.name; last_updated = now } in
        let names = record m.names { orgs = insert space.org_guid org m.names.orgs } in
        Lands-from (Same-names st p m names) (org_set (record m { names = names }) space org same)

    org_chosen :
        (m : Memory st) (space : Space) (found : Option Org)
        → (m.apps p).org_guid ≡ space.org_guid
        → Lands m a p
            (fill_org st config client now now p space a found, m)
            (with_org
              (m.apps p)
              (org_from config.org_space_cache_ttl client now space.org_guid found m.names))
    unfolding fill_org org_from advance
    org_chosen m space none same =
        Lands-step (asks_org now p space a) m
          (org_answered m space (client.get_org_by_guid space.org_guid) same)
    org_chosen m space (some org) same =
        elim (Bool-cases (expired config.org_space_cache_ttl now org.last_updated)) [
          | inl old ↦ rw old (
              Lands-step (asks_org now p space a) m
                (org_answered m space (client.get_org_by_guid space.org_guid) same))
          | inr fresh ↦ rw fresh (org_set m space org same)
        ]

    space_set :
        (m : Memory st) (space : Space)
        → Lands m a p
            (sets_space now p space a, m)
            (with_space config.org_space_cache_ttl client now (m.apps p) (ok space, m.names))
    unfolding advance with_space
    space_set m space =
        let app : App = record (m.apps p) { space_name = space.name; org_guid = space.org_guid } in
        let n : Memory st = write_app st p app m in
        let org =
          org_from config.org_space_cache_ttl client now space.org_guid
            (lookup space.org_guid m.names.orgs) m.names in
        let written = replaced m.apps p app in
        Lands-step (sets_space now p space a) m (
          Lands-from (Same-write_app st p app m) (
            Lands-step (fills_org now p space a) n (
              subst
                (λ (x : App).
                  Lands n a p
                    (
                      fill_org st config client now now p space a
                          (lookup space.org_guid m.names.orgs),
                      n,
                    )
                    (with_org x org))
                written
                (org_chosen n space (lookup space.org_guid m.names.orgs)
                  (ap (λ (x : App). x.org_guid) written)))))

    space_answered :
        (m : Memory st) (answer : Result String CfSpace)
        → Lands m a p (ask_space st config client now now p a m answer) (
            with_space config.org_space_cache_ttl client now
              (m.apps p)
              (store_space now (m.apps p).space_guid answer m.names))
    unfolding ask_space store_space with_space
    space_answered m (err e) = Lands-here m
    space_answered m (ok cf) =
        let space : Space = record {
          name = cf.name;
          org_guid = cf.organization_guid;
          last_updated = now;
        } in
        let names = record m.names { spaces = insert (m.apps p).space_guid space m.names.spaces } in
        Lands-from (Same-names st p m names) (space_set (record m { names = names }) space)

    space_chosen :
        (m : Memory st) (found : Option Space)
        → Lands m a p
            (fill_space st config client now now p a found, m)
            (with_space config.org_space_cache_ttl client now (m.apps p) (
              space_from config.org_space_cache_ttl client now (m.apps p).space_guid found m.names))
    unfolding fill_space space_from advance
    space_chosen m none =
        Lands-step (asks_space now p a) m
          (space_answered m (client.get_space_by_guid (m.apps p).space_guid))
    space_chosen m (some space) =
        elim (Bool-cases (expired config.org_space_cache_ttl now space.last_updated)) [
          | inl old ↦ rw old (
              Lands-step (asks_space now p a) m
                (space_answered m (client.get_space_by_guid (m.apps p).space_guid)))
          | inr fresh ↦ rw fresh (space_set m space)
        ]

    -- fillOrgAndSpace as a whole.
    pub fills_space-Lands :
        (m : Memory st)
        → Lands m a p
            (fills_space now p a, m)
            (fill_org_and_space config.org_space_cache_ttl client now (m.apps p) m.names)
    unfolding advance fill_org_and_space
    fills_space-Lands m =
        Lands-step (fills_space now p a) m
          (space_chosen m (lookup (m.apps p).space_guid m.names.spaces))

  -- An app at a fresh address.
  pub fresh-Lands :
      (a : After) (m : Memory st) (app : App)
      → Lands
          (allocate st app m)
          a
          m.fresh
          (fills_space now m.fresh a, allocate st app m)
          (fill_org_and_space config.org_space_cache_ttl client now app m.names)
  fresh-Lands a m app =
      subst
        (λ (x : App).
          Lands (allocate st app m) a m.fresh (fills_space now m.fresh a, allocate st app m)
            (fill_org_and_space config.org_space_cache_ttl client now x m.names))
        (replaced m.apps m.fresh app) (fills_space-Lands a m.fresh (allocate st app m))
