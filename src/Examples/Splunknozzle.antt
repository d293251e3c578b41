-- ===== src/Examples/Splunknozzle.antt =====
-- The theorems about the configuration and Run at concrete inputs, and runs.
use splunk_firehose_nozzle.Base.{
  suc, String, true, false, not, Option, none, some, List, [], ◌∷◌, ◌≡◌, refl, is_some, ◌==◌,
  if◌then◌else◌,
}
use splunk_firehose_nozzle.Base.Int.{pos}
use splunk_firehose_nozzle.Base.Result.{ok}
use splunk_firehose_nozzle.Utils.Text.{trim_space, trim_left, trim_right, trim_slashes}
use splunk_firehose_nozzle.Utils.Text.Slashes.{IsTrimmed}
use splunk_firehose_nozzle.Splunknozzle.Config.{
  Config, CommandLine, flags, new_config_from_cmd_flags, to_map,
}
use splunk_firehose_nozzle.Splunknozzle.Config.Host.{new_config_from_cmd_flags-IsTrimmed}
use splunk_firehose_nozzle.Splunknozzle.Config.Secrets.{to_map_secrets}
use splunk_firehose_nozzle.Splunknozzle.Wiring.{event_source, start_nozzle}
use splunk_firehose_nozzle.Nozzle.{
  turn, event_received, events_closed, gave_up, ran, returned, start, run_loop, take_choice,
  report_count, note_routed, count_event,
}
use splunk_firehose_nozzle.Examples.World.{log_of}
use splunk_firehose_nozzle.Splunknozzle.Run.{Environment, client_error, run}
use splunk_firehose_nozzle.Splunknozzle.Run.Brackets.{Brackets, run-Brackets}
use splunk_firehose_nozzle.Splunknozzle.Run.Starts.{starts, can_start, run-starts}
use splunk_firehose_nozzle.Eventsource.{
  ConsumerApi, Firehose, new_firehose, open_firehose, close_firehose, read,
}
use splunk_firehose_nozzle.Main.{Build, running, apps_not_cached, failed, main}

-- A command line that gives the host and the events, and zero or no text for all else.
abbrev some_line : CommandLine
some_line = record {
  text = λ flags name.
      if name == "splunk-host"
      then " https://splunk:8088// "
      else if name == "events"
      then "LogMessage"
      else "";
  switch = λ flags name. false;
  duration = λ flags name. pos 0;
  number = λ flags name. pos 8;
}

abbrev pub some_config : Config
some_config = record {
  api_endpoint = "https://api.example.com";
  user = "admin";
  password = "secret";
  client_id = "id";
  client_secret = "hidden";
  splunk_token = "token";
  splunk_host = "https://splunk:8088";
  splunk_index = "main";
  splunk_logging_index = "";
  job_host = "nozzle";
  skip_ssl_cf = false;
  skip_ssl_splunk = false;
  subscription_id = "splunk-firehose";
  keep_alive = pos 25000000000;
  add_app_info = "AppName,OrgName";
  ignore_missing_apps = true;
  missing_app_cache_ttl = pos 0;
  app_cache_ttl = pos 0;
  org_space_cache_ttl = pos 0;
  app_limits = pos 500;
  add_tags = false;
  boltdb_path = "cache.db";
  wanted_events = "LogMessage";
  extra_fields = "env:dev";
  flush_interval = pos 5000000000;
  queue_size = pos 10000;
  batch_size = pos 100;
  retries = pos 5;
  hec_workers = pos 8;
  version = "1.3";
  branch = "";
  commit = "";
  build_os = "";
  trace_logging = false;
  debug = false;
  status_monitor_interval = pos 0;
  drop_warn_threshold = pos 1000;
}

abbrev pub some_environment : Environment
some_environment = record {
  pcf_client = none;
  open_boltdb = λ config. none;
  network = record { hostname = ok "nozzle"; lookup_ip = λ name. ok ("10.0.0.9" ∷ []) };
  uuid = "u";
  fold = λ c. c;
  decode = λ text. none;
  to_float = λ n. 0;
}

host_read : (new_config_from_cmd_flags some_line "1" "" "" "").splunk_host ≡ "https://splunk:8088"
unfolding new_config_from_cmd_flags trim_space trim_left trim_right trim_slashes
host_read = refl

new_config_from_cmd_flags-IsTrimmed_example :
    IsTrimmed
      (trim_space (some_line.text flags "splunk-host"))
      (new_config_from_cmd_flags some_line "1" "" "" "").splunk_host
new_config_from_cmd_flags-IsTrimmed_example =
    new_config_from_cmd_flags-IsTrimmed some_line "1" "" "" ""

to_map_secrets_example :
    to_map
      (λ n. 0)
      (record some_config {
        user = "u";
        password = "p";
        client_id = "i";
        client_secret = "s";
        splunk_token = "t";
      })
    ≡ to_map (λ n. 0) some_config
to_map_secrets_example = to_map_secrets (λ n. 0) some_config "u" "p" "i" "s" "t"

run-Brackets_example : Brackets (run some_environment some_config).0
run-Brackets_example = run-Brackets some_environment some_config

run-starts_example :
    (starts (run some_environment some_config).0 ≡ can_start some_environment some_config)
    × (is_some (run some_environment some_config).1 ≡ not (can_start some_environment some_config))
run-starts_example = run-starts some_environment some_config

-- With an interval for the names and none for the apps, main says that it has no effect.
abbrev names_line : CommandLine
names_line = record some_line {
  duration = λ flags name. if name == "org-space-cache-invalidate-ttl" then pos 5 else pos 0;
}

abbrev build : Build
build = record { version = "1"; branch = ""; commit = ""; buildos = "" }

main_warns :
    (main names_line build (record some_environment { pcf_client = some "refused" })).0
    ≡ running ∷ apps_not_cached ∷ failed (client_error "refused") ∷ []
unfolding main new_config_from_cmd_flags run
main_warns = refl

abbrev consumer : ConsumerApi (List String) String
consumer = record {
  new_consumer = λ endpoint skip. endpoint ∷ [];
  set_idle_timeout = λ d c. "timeout" ∷ c;
  close_consumer = λ c. (none, "closed" ∷ c);
  streams = λ subscription token c. (subscription, "read" ∷ c);
}

-- A firehose that is made, opened, read and closed.
abbrev used_firehose : Option String × Firehose (List String)
unfolding new_firehose open_firehose read close_firehose
used_firehose =
    close_firehose consumer
      (read consumer
        (open_firehose consumer
          (new_firehose consumer (event_source some_config "wss://doppler"))).1).1

firehose_used :
    used_firehose.1.event_consumer ≡ "closed" ∷ "read" ∷ "timeout" ∷ "wss://doppler" ∷ []
unfolding new_firehose open_firehose read close_firehose event_source
firehose_used = refl

-- Without an interval for the status the nozzle does not count what it receives.
uncounted :
    start_nozzle some_config
      (λ e n. (none, suc n))
      (turn true (event_received (log_of "app-1" "one")) ∷ turn true events_closed ∷ [])
      0
    ≡ ran (
        returned (record { router = 1; last_error = none; received_count = 0; log = gave_up ∷ [] }))
unfolding start_nozzle start run_loop take_choice report_count note_routed count_event
uncounted = refl
