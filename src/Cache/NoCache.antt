-- ===== src/Cache/NoCache.antt =====
-- cache/no_cache.go: the cache that knows no app.
use splunk_firehose_nozzle.Base.{none, []}
use splunk_firehose_nozzle.Base.Dict.{Dict}
use splunk_firehose_nozzle.Base.Result.{Result, ok}
use splunk_firehose_nozzle.Cache.App.{App, CacheError, GetApp}

unfoldable pub get_app : GetApp (Unit {0})
get_app app_guid c = (ok none, c)

-- a nil map reads as an empty one
unfoldable pub get_all_apps : Result CacheError (Dict App)
get_all_apps = ok []
