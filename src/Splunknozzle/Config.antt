-- ===== src/Splunknozzle/Config.antt =====
-- splunknozzle/config.go: the configuration, its command-line flags, and ToMap.
pub mod Secrets
pub mod Host
use splunk_firehose_nozzle.Base.{
  ℕ, String, Bool, true, false, Option, none, some, List, [], ◌∷◌, ◌==◌, if◌then◌else◌,
}
use splunk_firehose_nozzle.Base.Int.{ℤ}
use splunk_firehose_nozzle.Base.Dict.{Dict}
use splunk_firehose_nozzle.Value.{Value, str, bool, float64}
use splunk_firehose_nozzle.Utils.Text.{trim_space, trim_slashes}

-- Durations are in nanoseconds.
pub record Config : Type 0 where
  pub api_endpoint : String
  pub user : String
  pub password : String
  pub client_id : String
  pub client_secret : String
  pub splunk_token : String
  pub splunk_host : String
  pub splunk_index : String
  pub splunk_logging_index : String
  pub job_host : String
  pub skip_ssl_cf : Bool
  pub skip_ssl_splunk : Bool
  pub subscription_id : String
  pub keep_alive : ℤ
  pub add_app_info : String
  pub ignore_missing_apps : Bool
  pub missing_app_cache_ttl : ℤ
  pub app_cache_ttl : ℤ
  pub org_space_cache_ttl : ℤ
  pub app_limits : ℤ
  pub add_tags : Bool
  pub boltdb_path : String
  pub wanted_events : String
  pub extra_fields : String
  pub flush_interval : ℤ
  pub queue_size : ℤ
  pub batch_size : ℤ
  pub retries : ℤ
  pub hec_workers : ℤ
  pub version : String
  pub branch : String
  pub commit : String
  pub build_os : String
  pub trace_logging : Bool
  pub debug : Bool
  pub status_monitor_interval : ℤ
  pub drop_warn_threshold : ℤ

-- A flag of the command line: its name, its environment variable, its default, and whether it has to
-- be given. Its help text is left out.
pub record Flag : Type 0 where
  pub name : String
  pub env : String
  pub default : Option String
  required : Bool

abbrev needed : String → String → Flag
needed name env = record { name = name; env = env; default = none; required = true }

abbrev optional : String → String → Flag
optional name env = record { name = name; env = env; default = none; required = false }

abbrev defaulted : String → String → String → Flag
defaulted name env value = record { name = name; env = env; default = some value; required = false }

unfoldable pub flags : List Flag
flags =
    needed "api-endpoint" "API_ENDPOINT"
    ∷ optional "user" "API_USER"
    ∷ optional "password" "API_PASSWORD"
    ∷ needed "client-id" "CLIENT_ID"
    ∷ needed "client-secret" "CLIENT_SECRET"
    ∷ needed "splunk-host" "SPLUNK_HOST"
    ∷ needed "splunk-token" "SPLUNK_TOKEN"
    ∷ needed "splunk-index" "SPLUNK_INDEX"
    ∷ optional "splunk-logging-index" "SPLUNK_LOGGING_INDEX"
    ∷ defaulted "job-host" "JOB_HOST" ""
    ∷ defaulted "skip-ssl-validation-cf" "SKIP_SSL_VALIDATION_CF" "false"
    ∷ defaulted "skip-ssl-validation-splunk" "SKIP_SSL_VALIDATION_SPLUNK" "false"
    ∷ defaulted "subscription-id" "FIREHOSE_SUBSCRIPTION_ID" "splunk-firehose"
    ∷ defaulted "firehose-keep-alive" "FIREHOSE_KEEP_ALIVE" "25s"
    ∷ defaulted "add-app-info" "ADD_APP_INFO" ""
    ∷ defaulted "ignore-missing-app" "IGNORE_MISSING_APP" "true"
    ∷ defaulted "missing-app-cache-invalidate-ttl" "MISSING_APP_CACHE_INVALIDATE_TTL" "0s"
    ∷ defaulted "app-cache-invalidate-ttl" "APP_CACHE_INVALIDATE_TTL" "0s"
    ∷ defaulted "org-space-cache-invalidate-ttl" "ORG_SPACE_CACHE_INVALIDATE_TTL" "72h"
    ∷ defaulted "app-limits" "APP_LIMITS" "0"
    ∷ defaulted "add-tags" "ADD_TAGS" "false"
    ∷ defaulted "boltdb-path" "BOLTDB_PATH" "cache.db"
    ∷ defaulted "events" "EVENTS" "ValueMetric,CounterEvent,ContainerMetric"
    ∷ defaulted "extra-fields" "EXTRA_FIELDS" ""
    ∷ defaulted "flush-interval" "FLUSH_INTERVAL" "5s"
    ∷ defaulted "consumer-queue-size" "CONSUMER_QUEUE_SIZE" "10000"
    ∷ defaulted "hec-batch-size" "HEC_BATCH_SIZE" "100"
    ∷ defaulted "hec-retries" "HEC_RETRIES" "5"
    ∷ defaulted "hec-workers" "HEC_WORKERS" "8"
    ∷ defaulted "enable-event-tracing" "ENABLE_EVENT_TRACING" "false"
    ∷ defaulted "debug" "DEBUG" "false"
    ∷ defaulted "status-monitor-interval" "STATUS_MONITOR_INTERVAL" "0s"
    ∷ defaulted "drop-warn-threshold" "DROP_WARN_THRESHOLD" "1000"
    ∷ []

-- What kingpin.Parse stores for a flag, by the flags that are declared and the type of its variable.
pub record CommandLine : Type 0 where
  pub text : List Flag → String → String
  pub switch : List Flag → String → Bool
  pub duration : List Flag → String → ℤ
  pub number : List Flag → String → ℤ

unfoldable pub new_config_from_cmd_flags : CommandLine → String → String → String → String → Config
new_config_from_cmd_flags line version branch commit build_os = record {
  version = version;
  branch = branch;
  commit = commit;
  build_os = build_os;
  api_endpoint = trim_space (line.text flags "api-endpoint");
  user = line.text flags "user";
  password = line.text flags "password";
  client_id = line.text flags "client-id";
  client_secret = line.text flags "client-secret";
  splunk_host = trim_slashes (trim_space (line.text flags "splunk-host"));
  splunk_token = line.text flags "splunk-token";
  splunk_index = line.text flags "splunk-index";
  splunk_logging_index = line.text flags "splunk-logging-index";
  job_host = line.text flags "job-host";
  skip_ssl_cf = line.switch flags "skip-ssl-validation-cf";
  skip_ssl_splunk = line.switch flags "skip-ssl-validation-splunk";
  subscription_id = line.text flags "subscription-id";
  keep_alive = line.duration flags "firehose-keep-alive";
  add_app_info = line.text flags "add-app-info";
  ignore_missing_apps = line.switch flags "ignore-missing-app";
  missing_app_cache_ttl = line.duration flags "missing-app-cache-invalidate-ttl";
  app_cache_ttl = line.duration flags "app-cache-invalidate-ttl";
  org_space_cache_ttl = line.duration flags "org-space-cache-invalidate-ttl";
  app_limits = line.number flags "app-limits";
  add_tags = line.switch flags "add-tags";
  boltdb_path = line.text flags "boltdb-path";
  wanted_events = line.text flags "events";
  extra_fields = line.text flags "extra-fields";
  flush_interval = line.duration flags "flush-interval";
  queue_size = line.number flags "consumer-queue-size";
  batch_size = line.number flags "hec-batch-size";
  retries = line.number flags "hec-retries";
  hec_workers = line.number flags "hec-workers";
  trace_logging = line.switch flags "enable-event-tracing";
  debug = line.switch flags "debug";
  status_monitor_interval = line.duration flags "status-monitor-interval";
  drop_warn_threshold = line.number flags "drop-warn-threshold";
}

-- The map that json.Unmarshal reads back from json.Marshal: the members by their tags, less those with
-- the tag "-". A number comes back as the float64 nearest to it, which `to_float` gives as its bits.
unfoldable pub to_map : (ℤ → ℕ) → Config → Dict Value
to_map to_float c =
    ("api-endpoint", str c.api_endpoint)
    ∷ ("splunk-host", str c.splunk_host)
    ∷ ("splunk-index", str c.splunk_index)
    ∷ ("splunk-logging-index", str c.splunk_logging_index)
    ∷ ("job-host", str c.job_host)
    ∷ ("skip-ssl-cf", bool c.skip_ssl_cf)
    ∷ ("skip-ssl-splunk", bool c.skip_ssl_splunk)
    ∷ ("subscription-id", str c.subscription_id)
    ∷ ("keep-alive", float64 (to_float c.keep_alive))
    ∷ ("add-app-info", str c.add_app_info)
    ∷ ("ignore-missing-apps", bool c.ignore_missing_apps)
    ∷ ("missing-app-cache-ttl", float64 (to_float c.missing_app_cache_ttl))
    ∷ ("app-cache-ttl", float64 (to_float c.app_cache_ttl))
    ∷ ("org-space-cache-ttl", float64 (to_float c.org_space_cache_ttl))
    ∷ ("app-limits", float64 (to_float c.app_limits))
    ∷ ("add-tags", bool c.add_tags)
    ∷ ("boltdb-path", str c.boltdb_path)
    ∷ ("wanted-events", str c.wanted_events)
    ∷ ("extra-fields", str c.extra_fields)
    ∷ ("flush-interval", float64 (to_float c.flush_interval))
    ∷ ("queue-size", float64 (to_float c.queue_size))
    ∷ ("batch-size", float64 (to_float c.batch_size))
    ∷ ("retries", float64 (to_float c.retries))
    ∷ ("hec-workers", float64 (to_float c.hec_workers))
    ∷ ("version", str c.version)
    ∷ ("branch", str c.branch)
    ∷ ("commit", str c.commit)
    ∷ ("buildos", str c.build_os)
    ∷ ("trace-logging", bool c.trace_logging)
    ∷ ("debug", bool c.debug)
    ∷ ("mem-queue-monitor-interval", float64 (to_float c.status_monitor_interval))
    ∷ ("drop-warn-threshold", float64 (to_float c.drop_warn_threshold))
    ∷ []
