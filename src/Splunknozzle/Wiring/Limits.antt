-- ===== src/Splunknozzle/Wiring/Limits.antt =====
-- The limit of apps that a configuration asks for.
use splunk_firehose_nozzle.Base.{◌≡◌, [], ◌∷◌, arith}
use splunk_firehose_nozzle.Base.Int.{pos}
use splunk_firehose_nozzle.Cache.Boltdb.{BoltdbConfig, Storage, query_of}
use splunk_firehose_nozzle.Splunknozzle.Config.{Config}
use splunk_firehose_nozzle.Splunknozzle.Wiring.{boltdb, app_cache}

limits_zero :
    (c : Config) (cache : BoltdbConfig) → app_cache c ≡ boltdb cache → cache.app_limits ≡ pos 0
unfolding app_cache
limits_zero c cache h = ground arith

-- Whatever limit of apps a configuration asks for, the cache that is made of it queries the API for all
-- apps, on every page.
query_of-app_cache :
    (st : Storage) (c : Config) (cache : BoltdbConfig)
    → app_cache c ≡ boltdb cache
    → query_of st cache
      ≡ record { values = ("inline-relations-depth", "0") ∷ []; total_pages = pos 0 }
unfolding query_of
query_of-app_cache st c cache h = ground (arith, limits_zero c cache h)
