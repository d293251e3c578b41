-- ===== src/Cache/Goroutines/Alone/Whole.antt =====
-- GetApp, step by step and as a whole.
use splunk_firehose_nozzle.Base.{
  ℕ, ◌<◌, String, true, false, ◌&&◌, is_some, Option, none, some, ◌≡◌, refl, sym, ◌∙◌, arith, ◌==◌,
  eq_iff, Bool-cases, inl, inr, eqb, subst, ap, if◌then◌else◌,
}
use splunk_firehose_nozzle.Base.Int.{ℤ}
use splunk_firehose_nozzle.Base.Dict.{Dict, lookup, insert, lookup-insert, lookup-insert_self}
use splunk_firehose_nozzle.Base.Result.{Result, ok, err, Result-cases}
use splunk_firehose_nozzle.Cache.App.{App, CacheError, missing_and_ignored, remote}
use splunk_firehose_nozzle.Cache.Names.{AppClient, CfApp}
use splunk_firehose_nozzle.Cache.Boltdb.{
  BoltdbConfig, Storage, Boltdb, plain_app, store_app, get_app, get_app_from_cache,
  get_app_from_remote, get_app_from_database, remember_remote, decode_app, cache_filled, fall_back,
  after_remote, after_cache, from_pcf_app, fill, fill_database,
}
use splunk_firehose_nozzle.Cache.Goroutines.{
  returns, stores, looks, asks, reads, caches, marks, stores_app, fills_space, Memory, allocate,
  look, ask, read_back, mark, advance,
}
use splunk_firehose_nozzle.Cache.Goroutines.Safe.{AllHold}
use splunk_firehose_nozzle.Cache.Goroutines.Alone.{Comes-then}
use splunk_firehose_nozzle.Cache.Goroutines.Alone.Names.{replaced, fills_space-Lands, fresh-Lands}
use splunk_firehose_nozzle.Cache.Goroutines.Alone.Agrees.{
  pointed, pointed-others, fresh_other, fresh_apart, same_guid, kept_agrees, Agrees, whole,
  Agrees-whole, Agrees-if, Ends, Ends-step,
}

module _ (st : Storage) where
  module _ (config : BoltdbConfig) (client : AppClient) (now : ℤ) where
    -- An app at p, which no other key of the cache points to, is filled.
    filled-Ends :
        (guid : String) (p : ℕ) (m : Memory st) (cache : Dict App)
        → lookup guid m.cache ≡ some p
        → ((k : String) → (guid == k) ≡ false → lookup k cache ≡ pointed m.apps (lookup k m.cache))
        → ((k : String) (q : ℕ) → (guid == k) ≡ false → lookup k m.cache ≡ some q → eqb p q ≡ false)
        → Ends st config client now
            (fills_space now p (returns guid), m)
            guid
            (cache_filled st config client now guid (m.apps p) (whole st cache m))
    unfolding cache_filled fill
    filled-Ends guid p m cache here same apart =
        let l = fills_space-Lands st config client now (returns guid) p m in
        record {
          after_all = l.lands;
          address = ok p;
          comes = l.comes;
          its_answer = rw l.its_app refl;
          its_state = record {
            cache_agrees = λ k. elim (Bool-cases (guid == k)) [
              | inl at ↦
                  let stays : lookup k l.lands.cache ≡ some p =
                    ap (λ (c : Dict ℕ). lookup k c) l.rest.same_cache
                    ∙ subst (λ (j : String). lookup j m.cache ≡ some p) ((eq_iff guid k).0 at)
                        here in
                  rw (lookup-insert, at, stays, l.its_app) refl
              | inr other ↦
                  rw (lookup-insert, other, l.rest.same_cache)
                    (same k other
                      ∙ pointed-others m.apps l.lands.apps (lookup k m.cache)
                          (λ q found. l.rest.other_apps q (apart k q other found)))
            ];
            missing_agrees = sym l.rest.same_missing;
            names_agree = sym l.its_names;
            db_agrees = sym l.rest.same_db;
          };
        }

    -- The cache of a memory whose apps all stand below `fresh`.
    abbrev IsView : Dict App → Memory st → Type 0
    IsView cache m =
        ((k : String) → lookup k cache ≡ pointed m.apps (lookup k m.cache))
        × ((k : String) (q : ℕ) → lookup k m.cache ≡ some q → q < m.fresh)

    marked-Ends :
        (guid : String) (e : CacheError) (m : Memory st) (cache : Dict App)
        → IsView cache m
        → Ends st config client now
            (marks guid e, m)
            guid
            (
              err e,
              if config.ignore_missing_apps
                  then record (whole st cache m) { missing_apps = insert guid true m.missing_apps }
                  else whole st cache m,
            )
    unfolding advance mark
    marked-Ends guid e m cache (view, below) = record {
      after_all = mark st config client now guid m;
      address = err e;
      comes = (1, refl);
      its_answer = refl;
      its_state =
          Agrees-if st config.ignore_missing_apps
            (record {
              cache_agrees = view;
              missing_agrees = refl;
              names_agree = refl;
              db_agrees = refl;
            })
            (record {
              cache_agrees = view;
              missing_agrees = refl;
              names_agree = refl;
              db_agrees = refl;
            });
    }

    -- An app of the database, at a fresh address.
    restored-Ends :
        (guid : String) (app : App) (m : Memory st) (cache : Dict App)
        → IsView cache m
        → Ends st config client now
            (caches guid m.fresh, allocate st app m)
            guid
            (cache_filled st config client now guid app (whole st cache m))
    unfolding advance
    restored-Ends guid app m cache (view, below) =
        let n : Memory st = allocate st app m in
        let held : Memory st = record n { cache = insert guid m.fresh m.cache } in
        Ends-step st config client now (caches guid m.fresh) n (
          subst
            (λ (a : App).
              Ends st config client now (fills_space now m.fresh (returns guid), held) guid
                (cache_filled st config client now guid a (whole st cache m)))
            (replaced m.apps m.fresh app)
            (filled-Ends guid m.fresh held cache (lookup-insert_self guid m.fresh m.cache)
              (λ k other.
                rw (lookup-insert, other)
                  (view k
                    ∙ pointed-others m.apps n.apps (lookup k m.cache)
                        (λ q found. fresh_other m.apps m.fresh app q (below k q found))))
              (λ k q other found.
                fresh_apart m.fresh q (below k q (rw (lookup-insert, other) at found)))))

    read_back-Ends :
        (guid : String) (e : CacheError) (m : Memory st) (cache : Dict App) (text : Option String)
        → IsView cache m
        → Ends st config client now
            (read_back st config client now guid e m text)
            guid
            (fall_back st config client now guid e (decode_app st text) (whole st cache m))
    unfolding read_back fall_back decode_app
    read_back-Ends guid e m cache none view = marked-Ends guid e m cache view
    read_back-Ends guid e m cache (some text) view = elim (Result-cases (st.unmarshal text)) [
      | inl (app, read) ↦
          rw (read, read_back, fall_back, decode_app) (restored-Ends guid app m cache view)
      | inr (why, failed) ↦
          rw (failed, read_back, fall_back, decode_app) (marked-Ends guid e m cache view)
    ]

    -- An app of the API, at a fresh address: it is filled, stored and cached.
    stored-Ends :
        (guid : String) (cf : CfApp) (m : Memory st) (cache : Dict App)
        → IsView cache m
        → Ends st config client now
            (fills_space now m.fresh (stores guid), allocate st (plain_app st cf) m)
            guid
            (after_remote st config client now guid
              (remember_remote st config client now (ok cf) (whole st cache m)))
    unfolding after_remote remember_remote from_pcf_app fill fill_database advance
    stored-Ends guid cf m cache (view, below) =
        let n : Memory st = allocate st (plain_app st cf) m in
        let l = fresh-Lands st config client now (stores guid) m (plain_app st cf) in
        rw (sym l.its_app, sym l.its_names)
          (record {
            after_all = record l.lands {
              appdb = store_app st (l.lands.apps m.fresh) l.lands.appdb;
              cache = insert (l.lands.apps m.fresh).guid m.fresh l.lands.cache;
            };
            address = ok m.fresh;
            comes =
                Comes-then st config client now _ (stores_app guid m.fresh, l.lands) _ l.comes
                  (2, refl);
            its_answer = refl;
            its_state = record {
              cache_agrees = λ k. kept_agrees l.lands.apps m.fresh cache l.lands.cache k (
                  rw l.rest.same_cache (
                    view k
                    ∙ pointed-others m.apps l.lands.apps (lookup k m.cache) (λ q found.
                      l.rest.other_apps q (fresh_apart m.fresh q (below k q found))
                      ∙ fresh_other m.apps m.fresh (plain_app st cf) q (below k q found))));
              missing_agrees = sym l.rest.same_missing;
              names_agree = refl;
              db_agrees = rw l.rest.same_db refl;
            };
          })

    asked-Ends :
        (guid : String) (m : Memory st) (cache : Dict App) (answer : Result String CfApp)
        → IsView cache m
        → Ends st config client now (ask st config client now guid m answer) guid (
            after_remote st config client now guid
              (remember_remote st config client now answer (whole st cache m)))
    unfolding ask after_remote remember_remote get_app_from_database advance
    asked-Ends guid m cache (ok cf) view = stored-Ends guid cf m cache view
    asked-Ends guid m cache (err e) view =
        Ends-step st config client now (reads guid (remote e)) m
          (read_back-Ends guid (remote e) m cache (st.get m.appdb guid) view)

    missed-Ends :
        (guid : String) (m : Memory st) (cache : Dict App)
        → IsView cache m
        → lookup guid cache ≡ none
        → Ends st config client now (look st config client now guid m none) guid (
            after_cache st config client now guid
              (get_app_from_cache st config guid (whole st cache m))
              (whole st cache m))
    unfolding look after_cache get_app_from_cache get_app_from_remote advance
    missed-Ends guid m cache view missing =
        elim (Bool-cases (config.ignore_missing_apps && is_some (lookup guid m.missing_apps))) [
          | inl ignored ↦
              rw (get_app_from_cache, missing, ignored)
                (record {
                  after_all = m;
                  address = err missing_and_ignored;
                  comes = (0, refl);
                  its_answer = refl;
                  its_state = record {
                    cache_agrees = view.0;
                    missing_agrees = refl;
                    names_agree = refl;
                    db_agrees = refl;
                  };
                })
          | inr wanted ↦
              rw (get_app_from_cache, missing, wanted)
                (Ends-step st config client now (asks guid) m
                  (asked-Ends guid m cache (client.app_by_guid guid) view))
        ]

    -- Two keys of the cache do not share an app, as it has one guid.
    keys_apart :
        (m : Memory st) (guid : String) (p : ℕ) (k : String) (q : ℕ)
        → AllHold st m m.cache
        → lookup guid m.cache ≡ some p
        → (guid == k) ≡ false
        → lookup k m.cache ≡ some q
        → eqb p q ≡ false
    keys_apart m guid p k q all here other found =
        let one = (all guid p here).1 in
        let two = (all k q found).1 in
        ground (arith, one, two, other, eq_iff guid k, same_guid m.apps p q)

    looked-Ends :
        (guid : String) (m : Memory st) (cache : Dict App) (found : Option ℕ)
        → AllHold st m m.cache
        → IsView cache m
        → lookup guid m.cache ≡ found
        → Ends st config client now (look st config client now guid m found) guid (
            after_cache st config client now guid
              (get_app_from_cache st config guid (whole st cache m))
              (whole st cache m))
    unfolding look after_cache get_app_from_cache
    looked-Ends guid m cache none all view at =
        missed-Ends guid m cache view (view.0 guid ∙ rw at refl)
    looked-Ends guid m cache (some p) all view at =
        let seen : lookup guid cache ≡ some (m.apps p) = view.0 guid ∙ rw at refl in
        rw (get_app_from_cache, seen)
          (filled-Ends guid p m cache at (λ k other. view.0 k)
            (λ k q other found. keys_apart m guid p k q all at other found))

    -- GetApp in steps, with no other goroutine between them and the clock standing still, returns, and
    -- with the answer of GetApp as a whole; it leaves the same cache, missing apps, names and database.
    pub looks-Ends :
        (guid : String) (m : Memory st) (s : Boltdb st)
        → AllHold st m m.cache
        → Agrees st m s
        → Ends st config client now (looks guid, m) guid (get_app st config client now guid s)
    unfolding advance get_app
    looks-Ends guid m s all agree =
        subst
          (λ (t : Boltdb st).
            Ends st config client now (looks guid, m) guid (get_app st config client now guid t))
          (sym (Agrees-whole st m s agree))
          (Ends-step st config client now (looks guid) m (
            looked-Ends guid m s.cache (lookup guid m.cache) all
              (agree.cache_agrees, λ k q found. (all k q found).0) refl))
