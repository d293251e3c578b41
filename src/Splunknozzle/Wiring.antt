-- ===== src/Splunknozzle/Wiring.antt =====
-- The methods of splunknozzle/nozzle.go that make the parts of a configuration.
pub mod Limits
use splunk_firehose_nozzle.Base.{
  ℕ, ◌+◌, String, Char, Bool, true, false, Option, none, some, List, [], ◌==◌, ltb, if◌then◌else◌,
}
use splunk_firehose_nozzle.Base.Int.{ℤ, pos, pos_part, neg_part, ltb_ℤ}
use splunk_firehose_nozzle.Base.Dict.{Dict}
use splunk_firehose_nozzle.Base.Result.{Result, ok, err}
use splunk_firehose_nozzle.Utils.Text.{to_lower, contains}
use splunk_firehose_nozzle.Utils.Host.{Network, get_host_ip_info}
use splunk_firehose_nozzle.Events.Annotate
use splunk_firehose_nozzle.Events.Extra.{ExtraError, parse_extra_fields}
use splunk_firehose_nozzle.Events.Select.{SelectError}
use splunk_firehose_nozzle.Cache.Boltdb.{BoltdbConfig}
use splunk_firehose_nozzle.Sink.Build.{SinkConfig}
use splunk_firehose_nozzle.Writer.{WriterConfig}
use splunk_firehose_nozzle.Router
use splunk_firehose_nozzle.Router.{Router}
use splunk_firehose_nozzle.Eventsource.{FirehoseConfig}
use splunk_firehose_nozzle.Nozzle.{RouteFn, Turn, Started, start}
use splunk_firehose_nozzle.Splunknozzle.Config.{Config}

-- The literal that EventRouter and EventSink both write out. `fold` is as in strings.ToLower.
unfoldable pub parse_config : (Char → Char) → Config → Annotate.Config
parse_config fold c =
    let lower_add_app_info = to_lower fold c.add_app_info in
    record {
      selected_events = c.wanted_events;
      add_app_name = contains lower_add_app_info "appname";
      add_org_name = contains lower_add_app_info "orgname";
      add_org_guid = contains lower_add_app_info "orgguid";
      add_space_name = contains lower_add_app_info "spacename";
      add_space_guid = contains lower_add_app_info "spaceguid";
      add_tags = c.add_tags;
    }

unfoldable pub event_router :
    (String → Option (List String)) → (Char → Char) → Config → Result SelectError Router
unfolding parse_config
event_router decode fold c = Router.new decode (parse_config fold c)

pub data AppCache : Type 0 where
  boltdb : BoltdbConfig → AppCache
  no_cache : AppCache

-- The literal of AppCache has no AppLimits, which is zero then.
unfoldable pub app_cache : Config → AppCache
app_cache c =
    if c.add_app_info == ""
    then no_cache
    else boltdb (record {
      path = c.boltdb_path;
      ignore_missing_apps = c.ignore_missing_apps;
      missing_app_cache_ttl = c.missing_app_cache_ttl;
      app_cache_ttl = c.app_cache_ttl;
      org_space_cache_ttl = c.org_space_cache_ttl;
      app_limits = pos 0;
    })

-- What eventwriter gets: no Fields are set.
unfoldable pub writer_config : Config → WriterConfig
writer_config c = record {
  host = c.splunk_host;
  token = c.splunk_token;
  index = c.splunk_index;
  fields = [];
  skip_ssl = c.skip_ssl_splunk;
  debug = c.debug;
  version = c.version;
}

-- A sink as EventSink makes it: one more writer than workers, the last one for the sink's own log.
pub record EventSink : Type 0 where
  pub config : SinkConfig
  pub parse_config : Annotate.Config
  pub writer_config : WriterConfig
  pub ip : String
  pub workers : ℕ

-- The numbers of the sink. A batch limit or a number of retries below zero acts as zero does, and a
-- threshold below zero as its magnitude: they are only compared, and divided by.
unfoldable pub sink_config : Network → String → Dict String → Config → SinkConfig
sink_config network uuid extra c = record {
  flush_interval = c.flush_interval;
  queue_size = pos_part c.queue_size;
  batch_size = pos_part c.batch_size;
  retries = pos_part c.retries;
  hostname = (get_host_ip_info network c.job_host).0;
  subscription_id = c.subscription_id;
  extra_fields = extra;
  trace_logging = c.trace_logging;
  uuid = uuid;
  status_monitor_interval = c.status_monitor_interval;
  drop_warn_threshold = pos_part c.drop_warn_threshold + neg_part c.drop_warn_threshold;
  logging_index = c.splunk_logging_index;
}

pub data SinkError : Type 0 where
  extra_error : ExtraError → SinkError
  panicked : SinkError

-- make(chan, n) panics for n below zero, and so does the slice of Open if there is no writer.
unfoldable pub make_sink :
    (Char → Char) → Network → String → Dict String → Config → Result SinkError EventSink
unfolding sink_config parse_config writer_config
make_sink fold network uuid extra c =
    if ltb_ℤ c.queue_size (pos 0)
    then err panicked
    else if ltb_ℤ c.hec_workers (pos 0)
    then err panicked
    else ok (record {
      config = sink_config network uuid extra c;
      parse_config = parse_config fold c;
      writer_config = writer_config c;
      ip = (get_host_ip_info network c.job_host).1;
      workers = pos_part c.hec_workers;
    })

-- `uuid` is what uuid.New returns.
unfoldable pub event_sink : (Char → Char) → Network → String → Config → Result SinkError EventSink
event_sink fold network uuid c = elim (parse_extra_fields c.extra_fields) [
  | err e ↦ err (extra_error e)
  | ok extra ↦ make_sink fold network uuid extra c
]

-- PCFClient: the configuration of the Cloud Foundry client.
pub record CfConfig : Type 0 where
  pub api_address : String
  pub username : String
  pub password : String
  pub skip_ssl_validation : Bool
  pub client_id : String
  pub client_secret : String

unfoldable pcf_config : Config → CfConfig
pcf_config c = record {
  api_address = c.api_endpoint;
  username = c.user;
  password = c.password;
  skip_ssl_validation = c.skip_ssl_cf;
  client_id = c.client_id;
  client_secret = c.client_secret;
}

-- The endpoint is the one that the client was told.
unfoldable pub event_source : Config → String → FirehoseConfig
event_source c doppler_endpoint = record {
  keep_alive = c.keep_alive;
  skip_ssl = c.skip_ssl_cf;
  endpoint = doppler_endpoint;
  subscription_id = c.subscription_id;
}

-- Nozzle, started: its configuration has the interval of the status log. The source is the firehose of
-- event_source, whose Open has no error.
unfoldable pub start_nozzle : {R : Type 0} → Config → RouteFn R → List Turn → R → Started R
start_nozzle c route turns r = start route c.status_monitor_interval none turns r
