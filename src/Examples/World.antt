-- ===== src/Examples/World.antt =====
-- Concrete inputs that the examples share: an app, a cache of one app, a log message, configurations.
use splunk_firehose_nozzle.Base.{String, true, false, none, some, [], ◌==◌, if◌then◌else◌}
use splunk_firehose_nozzle.Base.Int.{pos}
use splunk_firehose_nozzle.Base.Result.{ok, err}
use splunk_firehose_nozzle.Utils.Json.{Decoder}
use splunk_firehose_nozzle.Cache.App.{App, GetApp, remote}
use splunk_firehose_nozzle.Events.Envelope.{Envelope, EventType}
use splunk_firehose_nozzle.Events.Annotate
use splunk_firehose_nozzle.Base.{ℕ, ◌+◌, ltb}
use splunk_firehose_nozzle.Sink.Build.{SinkConfig, Runtime}
use splunk_firehose_nozzle.Sink.Index.{Writer}
use splunk_firehose_nozzle.Sink.Consume.{Parts}
use splunk_firehose_nozzle.Writer.{WriterConfig}

-- An app that logs too much and is ignored, and one that the cache does not know.
abbrev pub noisy_app : App
noisy_app = record {
  name = "noisy";
  guid = "app-1";
  space_name = "dev";
  space_guid = "space-1";
  org_name = "org";
  org_guid = "org-1";
  cf_app_env = [];
  ignored_app = true;
}

abbrev pub table_cache : GetApp (Unit {0})
table_cache guid c =
    (if guid == "app-1" then ok (some noisy_app) else err (remote "no such app"), c)

abbrev pub some_config : Annotate.Config
some_config = record {
  selected_events = "LogMessage";
  add_app_name = true;
  add_org_name = false;
  add_org_guid = false;
  add_space_name = false;
  add_space_guid = false;
  add_tags = false;
}

abbrev pub log_of : String → String → Envelope
log_of app_id message = record {
  origin = "rep";
  event_type = EventType.log_message;
  deployment = "cf";
  job = "cell";
  index = "0";
  ip = "10.0.0.1";
  tags = [];
  http_start = record {
    timestamp = pos 0;
    request_id = none;
    method = "GET";
    uri = "";
    remote_address = "";
    user_agent = "";
    parent_request_id = none;
    application_id = none;
    instance_index = pos 0;
    instance_id = "";
  };
  http_stop = record {
    timestamp = pos 0;
    uri = "";
    request_id = none;
    peer_type = "Client";
    status_code = pos 0;
    content_length = pos 0;
    application_id = none;
  };
  http_start_stop = record {
    start_timestamp = pos 0;
    stop_timestamp = pos 0;
    request_id = none;
    peer_type = "Client";
    method = "GET";
    uri = "";
    remote_address = "";
    user_agent = "";
    status_code = pos 0;
    content_length = pos 0;
    application_id = none;
    instance_index = pos 0;
    instance_id = "";
    forwarded = [];
  };
  log_message = record {
    message = message;
    message_type = "OUT";
    timestamp = pos 1467128185055072010;
    app_id = app_id;
    source_type = "RTR";
    source_instance = "1";
  };
  value_metric = record { name = ""; value = 0; unit = "" };
  counter_event = record { name = ""; delta = 0; total = 0 };
  error = record { source = ""; code = pos 0; message = "" };
  container_metric = record {
    application_id = "";
    instance_index = pos 0;
    cpu_percentage = 0;
    memory_bytes = 0;
    disk_bytes = 0;
    memory_bytes_quota = 0;
    disk_bytes_quota = 0;
  };
}

abbrev pub sink_config : SinkConfig
sink_config = record {
  flush_interval = pos 5000000000;
  queue_size = 2;
  batch_size = 2;
  retries = 5;
  hostname = "localhost";
  subscription_id = "splunk-firehose";
  extra_fields = [];
  trace_logging = true;
  uuid = "u";
  status_monitor_interval = pos 0;
  drop_warn_threshold = 10;
  logging_index = "";
}

abbrev pub no_json : Decoder
no_json = record { object = λ s. none; array = λ s. none }

-- A writer that fails until its state, the number of its calls, is `n`.
abbrev pub flaky : {B : Type 0} → ℕ → Writer B String ℕ
flaky n batch w =
    (record { batch = batch; error = if ltb w n then some "timeout" else none; count = 1 }, w + 1)

abbrev pub runtime : Runtime
runtime = record { json = no_json; fold = λ c. c }

abbrev pub writer_config : WriterConfig
writer_config = record {
  host = "https://splunk:8088";
  token = "t";
  index = "main";
  fields = [];
  skip_ssl = false;
  debug = false;
  version = "1";
}

abbrev pub parts : Parts String (Unit {0}) ℕ
parts = record {
  get_app = table_cache;
  writer = flaky 0;
  config = sink_config;
  parse_config = some_config;
  runtime = runtime;
}
