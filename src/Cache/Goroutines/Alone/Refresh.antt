-- ===== src/Cache/Goroutines/Alone/Refresh.antt =====
-- A refresh of the cache, step by step and as a whole.
use splunk_firehose_nozzle.Base.{
  ℕ, suc, ◌<◌, String, some, List, [], ◌∷◌, ◌≡◌, refl, sym, ◌∙◌, arith, ◌==◌, Bool-cases, inl, inr,
  subst, ap,
}
use splunk_firehose_nozzle.Base.Int.{ℤ}
use splunk_firehose_nozzle.Base.Dict.{Dict, lookup, insert}
use splunk_firehose_nozzle.Base.Result.{Result, ok, err}
use splunk_firehose_nozzle.Cache.App.{App}
use splunk_firehose_nozzle.Cache.Names.{AppClient, CfApp, fill_org_and_space}
use splunk_firehose_nozzle.Cache.Boltdb.{
  BoltdbConfig, Storage, Boltdb, plain_app, store_app, from_pcf_app, fill, fill_database,
  collect_apps, remember_all, get_all_apps_from_remote, query_of,
}
use splunk_firehose_nozzle.Cache.Boltdb.Lifetime.{replace_cache}
use splunk_firehose_nozzle.Cache.Goroutines.{
  collects, Pc, fills_space, lists, collecting, stores_all, finished, Memory, allocate, list_all,
  advance,
}
use splunk_firehose_nozzle.Cache.Goroutines.Alone.{Comes, Comes-then}
use splunk_firehose_nozzle.Cache.Goroutines.Alone.Names.{fresh-Lands}
use splunk_firehose_nozzle.Cache.Goroutines.Alone.Agrees.{
  pointed, pointed-others, fresh_other, fresh_apart, Agrees, whole,
}

-- A map of addresses as a map of apps.
abbrev pub apps_at : (ℕ → App) → Dict ℕ → Dict App
apps_at apps [] = []
apps_at apps ((guid, p) ∷ entries) = (guid, apps p) ∷ apps_at apps entries

-- Each address in it is in use.
abbrev pub AllBelow : ℕ → Dict ℕ → Type 0
AllBelow fresh [] = Unit
AllBelow fresh ((guid, p) ∷ entries) = (p < fresh) × AllBelow fresh entries

pub lookup-apps_at :
    (apps : ℕ → App) (entries : Dict ℕ) (k : String)
    → lookup k (apps_at apps entries) ≡ pointed apps (lookup k entries)
unfolding lookup
lookup-apps_at apps [] k = refl
lookup-apps_at apps ((at, p) ∷ entries) k = elim (Bool-cases (at == k)) [
  | inl here ↦ rw here refl
  | inr other ↦ rw other (lookup-apps_at apps entries k)
]

pub apps_at-insert :
    (apps : ℕ → App) (guid : String) (p : ℕ) (entries : Dict ℕ)
    → apps_at apps (insert guid p entries) ≡ insert guid (apps p) (apps_at apps entries)
unfolding insert
apps_at-insert apps guid p [] = refl
apps_at-insert apps guid p ((at, q) ∷ entries) = elim (Bool-cases (at == guid)) [
  | inl here ↦ rw here refl
  | inr other ↦
      rw other (ap (λ (rest : Dict App). (at, apps q) ∷ rest) (apps_at-insert apps guid p entries))
]

pub apps_at-others :
    (apps apps' : ℕ → App) (fresh : ℕ) (entries : Dict ℕ)
    → ((q : ℕ) → q < fresh → apps' q ≡ apps q)
    → AllBelow fresh entries
    → apps_at apps' entries ≡ apps_at apps entries
apps_at-others apps apps' fresh [] h below = refl
apps_at-others apps apps' fresh ((at, p) ∷ entries) h (lt, below) =
    rw (h p lt, apps_at-others apps apps' fresh entries h below) refl

pub AllBelow-suc :
    (fresh : ℕ) (entries : Dict ℕ) → AllBelow fresh entries → AllBelow (suc fresh) entries
AllBelow-suc fresh [] below = tt
AllBelow-suc fresh ((at, p) ∷ entries) (lt, below) =
    (omega (arith, lt), AllBelow-suc fresh entries below)

pub AllBelow-insert :
    (fresh : ℕ) (guid : String) (p : ℕ) (entries : Dict ℕ)
    → p < fresh
    → AllBelow fresh entries
    → AllBelow fresh (insert guid p entries)
unfolding insert
AllBelow-insert fresh guid p [] lt below = (lt, tt)
AllBelow-insert fresh guid p ((at, q) ∷ entries) lt (first, below) =
    elim (Bool-cases (at == guid)) [
      | inl here ↦ rw here (lt, below)
      | inr other ↦ rw other (first, AllBelow-insert fresh guid p entries lt below)
    ]

module _ (st : Storage) (config : BoltdbConfig) (client : AppClient) (now : ℤ) where
  -- From x on, the goroutine comes to its end, and leaves the memory in that state.
  pub record Settles (x : Pc × Memory st) (s : Boltdb st) : Type 0 where
    pub after_all : Memory st
    pub comes : Comes st config client now x (finished, after_all)
    pub its_state : Agrees st after_all s

  pub Settles-step :
      {s : Boltdb st} (pc : Pc) (m : Memory st)
      → Settles (advance st config client now pc m) s
      → Settles (pc, m) s
  Settles-step pc m h = record {
    after_all = h.after_all;
    comes = (suc h.comes.0, h.comes.1);
    its_state = h.its_state;
  }

  Settles-after :
      {s : Boltdb st} (x y : Pc × Memory st)
      → Comes st config client now x y
      → Settles y s
      → Settles x s
  Settles-after x y before h = record {
    after_all = h.after_all;
    comes = Comes-then st config client now x y (finished, h.after_all) before h.comes;
    its_state = h.its_state;
  }

  abbrev pub IsShared : Dict App → Memory st → Type 0
  IsShared cache m =
      ((k : String) → lookup k cache ≡ pointed m.apps (lookup k m.cache))
      × ((k : String) (q : ℕ) → lookup k m.cache ≡ some q → q < m.fresh)

  -- fillDatabase, and the new map in the place of the cache.
  stored-Settles :
      (left entries : Dict ℕ) (m : Memory st) (cache : Dict App)
      → Settles
          (stores_all left entries, m)
          (record (whole st cache m) {
            appdb = fill_database st (apps_at m.apps left) m.appdb;
            cache = apps_at m.apps entries;
          })
  unfolding advance fill_database
  stored-Settles [] entries m cache = record {
    after_all = record m { cache = entries };
    comes = (2, refl);
    its_state = record {
      cache_agrees = λ k. lookup-apps_at m.apps entries k;
      missing_agrees = refl;
      names_agree = refl;
      db_agrees = refl;
    };
  }
  stored-Settles ((guid, p) ∷ left) entries m cache =
      Settles-step (stores_all ((guid, p) ∷ left) entries) m
        (stored-Settles left entries (record m { appdb = store_app st (m.apps p) m.appdb }) cache)

  -- What follows the loop of getAllAppsFromRemote.
  abbrev refreshed : Dict App × Boltdb st → Boltdb st
  refreshed (apps, s) = record s { appdb = fill_database st apps s.appdb; cache = apps }

  collected-Settles :
      (cfs : List CfApp) (entries : Dict ℕ) (m : Memory st) (cache : Dict App)
      → IsShared cache m
      → AllBelow m.fresh entries
      → Settles
          (collecting cfs entries, m)
          (refreshed
            (collect_apps st config client now cfs (apps_at m.apps entries) (whole st cache m)))
  unfolding advance collect_apps from_pcf_app fill
  collected-Settles [] entries m cache shared below =
      Settles-step (collecting [] entries) m (stored-Settles entries entries m cache)
  collected-Settles (cf ∷ cfs) entries m cache (view, used) below =
      let p = m.fresh in
      let l = fresh-Lands st config client now (collects cfs entries) m (plain_app st cf) in
      let apps' = l.lands.apps in
      let old : (q : ℕ) → q < p → apps' q ≡ m.apps q = λ q lt.
        l.rest.other_apps q (fresh_apart p q lt) ∙ fresh_other m.apps p (plain_app st cf) q lt in
      let shared : IsShared cache l.lands = (
        λ k. rw l.rest.same_cache (
            view k
            ∙ pointed-others m.apps apps' (lookup k m.cache) (λ q found. old q (used k q found))),
        λ k q found. omega (
          arith,
          l.rest.same_fresh,
          used k q (ap (λ (c : Dict ℕ). lookup k c) (sym l.rest.same_cache) ∙ found),
        ),
      ) in
      let entries' = insert (apps' p).guid p entries in
      let bound : AllBelow l.lands.fresh entries' =
        subst (λ (f : ℕ). AllBelow f entries') (sym l.rest.same_fresh)
          (AllBelow-insert (suc p) (apps' p).guid p entries (omega arith)
            (AllBelow-suc p entries below)) in
      let (app, names) =
        fill_org_and_space config.org_space_cache_ttl client now (plain_app st cf) m.names in
      let same_apps : apps_at apps' entries' ≡ insert app.guid app (apps_at m.apps entries) =
        apps_at-insert apps' (apps' p).guid p entries
        ∙ rw (l.its_app, apps_at-others m.apps apps' p entries old below) refl in
      let same_state : whole st cache l.lands ≡ record (whole st cache m) { names = names } =
        rw (l.rest.same_db, l.rest.same_missing, l.its_names) refl in
      Settles-step (collecting (cf ∷ cfs) entries) m (
        Settles-after (fills_space now p (collects cfs entries), allocate st (plain_app st cf) m)
          (collecting cfs entries', l.lands) l.comes
          (subst
            (λ (x : Dict App).
              Settles (collecting cfs entries', l.lands)
                (refreshed (
                  collect_apps st config client now cfs x
                    (record (whole st cache m) { names = names }))))
            same_apps
            (subst
              (λ (t : Boltdb st).
                Settles (collecting cfs entries', l.lands)
                  (refreshed (collect_apps st config client now cfs (apps_at apps' entries') t)))
              same_state (collected-Settles cfs entries' l.lands cache shared bound))))

  answered-Settles :
      (m : Memory st) (cache : Dict App) (answer : Result String (List CfApp))
      → IsShared cache m
      → Settles
          (list_all st config client now m answer)
          (replace_cache st (remember_all st config client now answer (whole st cache m))).1
  unfolding list_all remember_all replace_cache
  answered-Settles m cache (err e) (view, used) = record {
    after_all = m;
    comes = (0, refl);
    its_state = record {
      cache_agrees = view;
      missing_agrees = refl;
      names_agree = refl;
      db_agrees = refl;
    };
  }
  answered-Settles m cache (ok cfs) shared = collected-Settles cfs [] m cache shared tt

  pub lists-Settles :
      (m : Memory st) (cache : Dict App)
      → IsShared cache m
      → Settles
          (lists, m)
          (replace_cache st (get_all_apps_from_remote st config client now (whole st cache m))).1
  unfolding advance get_all_apps_from_remote
  lists-Settles m cache shared =
      Settles-step lists m (answered-Settles m cache (client.list_apps (query_of st config)) shared)
