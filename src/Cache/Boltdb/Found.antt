-- ===== src/Cache/Boltdb/Found.antt =====
-- An app that GetApp found is found again.
use splunk_firehose_nozzle.Base.{
  String, Bool, true, false, Option, none, some, ◌≡◌, refl, ◌∙◌, sym, ap, arith, is_some,
  Option-cases, inl, inr,
}
use splunk_firehose_nozzle.Base.Int.{ℤ}
use splunk_firehose_nozzle.Base.Dict.{lookup, lookup-insert_self}
use splunk_firehose_nozzle.Base.Result.{Result, ok, err}
use splunk_firehose_nozzle.Cache.App.{App, CacheError}
use splunk_firehose_nozzle.Cache.Names.{AppClient, CfApp}
use splunk_firehose_nozzle.Cache.Names.Fresh.{fill_org_and_space-guid}
use splunk_firehose_nozzle.Cache.Boltdb.{
  BoltdbConfig, Storage, Boltdb, cache_filled, fall_back, after_remote, after_cache, get_app,
  get_app_from_cache, get_app_from_database, get_app_from_remote, remember_remote, from_pcf_app,
  fill,
}

abbrev pub is_found : Result CacheError (Option App) → Bool
is_found (ok (some app)) = true
is_found (ok none) = false
is_found (err e) = false

abbrev found_guid : Result CacheError App → String
found_guid (ok app) = app.guid
found_guid (err e) = ""

-- The client answers a query for an app with that app.
abbrev pub AnswersGuid : AppClient → String → Type 0
AnswersGuid client guid = (cf : CfApp) → client.app_by_guid guid ≡ ok cf → cf.guid ≡ guid

module _ (st : Storage) (config : BoltdbConfig) (guid : String) where
  abbrev pub IsCached : Boltdb st → Type 0
  IsCached s = is_some (lookup guid s.cache) ≡ true

  -- What was found is in memory.
  abbrev Stays : Result CacheError (Option App) × Boltdb st → Type 0
  Stays r = is_found r.0 ≡ true → IsCached r.1

  module _ (client : AppClient) (now : ℤ) where
    cache_filled-IsCached :
        (app : App) (s : Boltdb st) → IsCached (cache_filled st config client now guid app s).1
    unfolding cache_filled
    cache_filled-IsCached app s = rw lookup-insert_self refl

    fall_back-Stays :
        (e : CacheError) (found : Result CacheError (Option App)) (s : Boltdb st)
        → Stays (fall_back st config client now guid e found s)
    unfolding fall_back
    fall_back-Stays e (ok (some app)) s h = cache_filled-IsCached app s
    fall_back-Stays e (ok none) s h = absurd (ground arith)
    fall_back-Stays e (err d) s h = absurd (ground arith)

    after_remote-Stays :
        (r : Result CacheError App × Boltdb st)
        → ((app : App) → r.0 ≡ ok app → app.guid ≡ guid)
        → Stays (after_remote st config client now guid r)
    unfolding after_remote
    after_remote-Stays (ok app, s) own h = rw (own app refl, lookup-insert_self) refl
    after_remote-Stays (err e, s) own h = fall_back-Stays e (get_app_from_database st guid s) s h

    remember_remote-guid :
        (r : Result String CfApp) (s : Boltdb st) (app : App)
        → ((cf : CfApp) → r ≡ ok cf → cf.guid ≡ guid)
        → (remember_remote st config client now r s).0 ≡ ok app
        → app.guid ≡ guid
    unfolding remember_remote from_pcf_app fill
    remember_remote-guid (err e) s app own h = absurd (ground arith)
    remember_remote-guid (ok cf) s app own h =
        sym (ap found_guid h)
        ∙ (fill_org_and_space-guid config.org_space_cache_ttl client now _ s.names ∙ own cf refl)

    after_cache-Stays :
        (r : Result CacheError (Option App)) (s : Boltdb st)
        → AnswersGuid client guid
        → Stays (after_cache st config client now guid r s)
    unfolding after_cache
    after_cache-Stays (err e) s own h = absurd (ground arith)
    after_cache-Stays (ok (some app)) s own h = cache_filled-IsCached app s
    after_cache-Stays (ok none) s own h =
        after_remote-Stays (get_app_from_remote st config client now guid s)
          (λ app k.
            remember_remote-guid (client.app_by_guid guid) s app own
              (unfold get_app_from_remote in k))
          h

    found_in_cache :
        (s : Boltdb st) (app : App)
        → lookup guid s.cache ≡ some app
        → get_app_from_cache st config guid s ≡ ok (some app)
    unfolding get_app_from_cache
    found_in_cache s app h = rw (h, get_app_from_cache) refl

    is_found-after_cache :
        (r : Result CacheError (Option App)) (s : Boltdb st)
        → is_found r ≡ true
        → is_found (after_cache st config client now guid r s).0 ≡ true
    unfolding after_cache cache_filled
    is_found-after_cache (ok (some app)) s h = refl
    is_found-after_cache (ok none) s h = absurd (ground arith)
    is_found-after_cache (err e) s h = absurd (ground arith)

    is_found-cached :
        (s : Boltdb st) → IsCached s → is_found (get_app st config client now guid s).0 ≡ true
    unfolding get_app
    is_found-cached s h = elim (Option-cases (lookup guid s.cache)) [
      | inl missing ↦ absurd (ground arith)
      | inr (app, cached) ↦
          is_found-after_cache (get_app_from_cache st config guid s) s
            (ap is_found (found_in_cache s app cached))
    ]

  -- Once a lookup found an app, with a client that answers a query for an app with that app, the next
  -- lookup of it finds it too, at any time and whatever the API would answer then.
  pub get_app_again :
      (client : AppClient) (now : ℤ) (later_client : AppClient) (later : ℤ) (s : Boltdb st)
      → AnswersGuid client guid
      → is_found (get_app st config client now guid s).0 ≡ true
      → is_found
          (get_app st config later_client later guid (get_app st config client now guid s).1).0
        ≡ true
  get_app_again client now later_client later s own h =
      is_found-cached later_client later (get_app st config client now guid s).1 (
        unfold get_app in
        after_cache-Stays client now (get_app_from_cache st config guid s) s own h)
