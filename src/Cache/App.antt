-- ===== src/Cache/App.antt =====
-- cache/cache.go: an application, and the operations that the other packages use of a cache.
use splunk_firehose_nozzle.Base.{String, Bool, Option}
use splunk_firehose_nozzle.Base.Dict.{Dict}
use splunk_firehose_nozzle.Base.Result.{Result}
use splunk_firehose_nozzle.Value.{Value}

pub record App : Type 0 where
  pub name : String
  pub guid : String
  pub space_name : String
  pub space_guid : String
  pub org_name : String
  pub org_guid : String
  pub cf_app_env : Dict Value
  pub ignored_app : Bool

-- ErrMissingAndIgnored, the errors of the remote API, of the database and of its decoder.
pub data CacheError : Type 0 where
  missing_and_ignored : CacheError
  remote : String → CacheError
  database : String → CacheError
  decoding : String → CacheError

-- The method GetApp of the interface, over the state that a cache keeps.
abbrev pub GetApp : Type 0 → Type 0
GetApp C = String → C → Result CacheError (Option App) × C
