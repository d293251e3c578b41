-- ===== src/Cache/Boltdb/Missing.antt =====
-- An app that was not found is not asked for again while missing apps are ignored.
use splunk_firehose_nozzle.Base.{String, true, Option, none, some, ◌≡◌, refl, ◌∙◌, ap, arith}
use splunk_firehose_nozzle.Base.Int.{ℤ}
use splunk_firehose_nozzle.Base.Dict.{lookup, lookup-insert_self}
use splunk_firehose_nozzle.Base.Result.{Result, ok, err}
use splunk_firehose_nozzle.Cache.App.{App, CacheError, missing_and_ignored}
use splunk_firehose_nozzle.Cache.Names.{AppClient, CfApp}
use splunk_firehose_nozzle.Cache.Boltdb.{
  BoltdbConfig, Storage, Boltdb, remember_remote, get_app_from_remote, get_app_from_cache,
  cache_filled, fall_back, after_remote, after_cache, get_app,
}

module _ (st : Storage) (config : BoltdbConfig) (client : AppClient) (now : ℤ) (guid : String) where
  -- The state answers that the app is missing.
  abbrev IsMissing : Boltdb st → Type 0
  IsMissing s = get_app_from_cache st config guid s ≡ err missing_and_ignored

  remember_remote_err :
      (r : Result String CfApp) (e : CacheError) (s s' : Boltdb st)
      → remember_remote st config client now r s ≡ (err e, s')
      → s' ≡ s
  unfolding remember_remote
  remember_remote_err (err x) e s s' h = ground arith
  remember_remote_err (ok cf) e s s' h = cc

  fall_back-IsMissing :
      (x e : CacheError) (found : Result CacheError (Option App)) (s s' : Boltdb st)
      → config.ignore_missing_apps ≡ true
      → lookup guid s.cache ≡ none
      → fall_back st config client now guid x found s ≡ (err e, s')
      → IsMissing s'
  unfolding fall_back get_app_from_cache
  fall_back-IsMissing x e (ok (some app)) s s' i l h = unfold cache_filled in cc
  fall_back-IsMissing x e _ s s' i l h = ground (arith, lookup-insert_self guid true s.missing_apps)

  after_remote-IsMissing :
      (e : CacheError) (r : Result CacheError App) (s s' : Boltdb st)
      → config.ignore_missing_apps ≡ true
      → lookup guid s.cache ≡ none
      → after_remote st config client now guid (r, s) ≡ (err e, s')
      → IsMissing s'
  unfolding after_remote
  after_remote-IsMissing e (ok app) s s' i l h = cc
  after_remote-IsMissing e (err x) s s' i l h = fall_back-IsMissing x e _ s s' i l h

  cache_miss :
      (s : Boltdb st) → get_app_from_cache st config guid s ≡ ok none → lookup guid s.cache ≡ none
  unfolding get_app_from_cache
  cache_miss s h = ground arith

  cache_err :
      (e : CacheError) (s : Boltdb st)
      → get_app_from_cache st config guid s ≡ err e
      → e ≡ missing_and_ignored
  unfolding get_app_from_cache
  cache_err e s h = ground arith

  remote-IsMissing :
      (e : CacheError) (r : Result CacheError App) (s s1 s' : Boltdb st)
      → config.ignore_missing_apps ≡ true
      → lookup guid s.cache ≡ none
      → get_app_from_remote st config client now guid s ≡ (r, s1)
      → after_remote st config client now guid (r, s1) ≡ (err e, s')
      → IsMissing s'
  remote-IsMissing e (ok app) s s1 s' i l g h = unfold after_remote in cc
  remote-IsMissing e (err x) s s1 s' i l g h =
      after_remote-IsMissing e (err x) s1 s' i (rw same l) h
    where
      same : s1 ≡ s
      same = remember_remote_err (client.app_by_guid guid) x s s1 (unfold get_app_from_remote in g)

  after_cache-IsMissing :
      (e : CacheError) (r : Result CacheError (Option App)) (s s' : Boltdb st)
      → config.ignore_missing_apps ≡ true
      → get_app_from_cache st config guid s ≡ r
      → after_cache st config client now guid r s ≡ (err e, s')
      → IsMissing s'
  unfolding after_cache
  after_cache-IsMissing e (err x) s s' i g h = rw (← same) (g ∙ ap err (cache_err x s g))
    where
      same : s ≡ s'
      same = ap (λ (p : Result CacheError (Option App) × Boltdb st). p.1) h
  after_cache-IsMissing e (ok (some app)) s s' i g h = unfold cache_filled in cc
  after_cache-IsMissing e (ok none) s s' i g h =
      remote-IsMissing e (get_app_from_remote st config client now guid s).0 s
        (get_app_from_remote st config client now guid s).1 s' i (cache_miss s g) refl h

  -- Where missing apps are ignored, a failed lookup leaves a state in which the app is looked up to no
  -- effect: the next lookup of it, at any time and whatever the API would answer, returns the error
  -- ErrMissingAndIgnored and changes nothing.
  pub get_app_missing :
      (e : CacheError) (s s' : Boltdb st) (client' : AppClient) (later : ℤ)
      → config.ignore_missing_apps ≡ true
      → get_app st config client now guid s ≡ (err e, s')
      → get_app st config client' later guid s' ≡ (err missing_and_ignored, s')
  unfolding get_app
  get_app_missing e s s' client' later i h =
      rw (after_cache-IsMissing e (get_app_from_cache st config guid s) s s' i refl h, get_app)
