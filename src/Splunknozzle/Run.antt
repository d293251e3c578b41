-- ===== src/Splunknozzle/Run.antt =====
-- Run of splunknozzle/nozzle.go: what is opened and closed, in order, and with what error it returns.
pub mod Brackets
pub mod Starts
use splunk_firehose_nozzle.Base.{
  ℕ, String, Char, Bool, Option, none, some, List, [], ◌∷◌, ◌++◌, if◌then◌else◌,
}
use splunk_firehose_nozzle.Base.Int.{ℤ, pos, ltb_ℤ}
use splunk_firehose_nozzle.Base.Dict.{Dict}
use splunk_firehose_nozzle.Base.Result.{Result, ok, err}
use splunk_firehose_nozzle.Value.{Value}
use splunk_firehose_nozzle.Utils.Host.{Network}
use splunk_firehose_nozzle.Events.Select.{SelectError}
use splunk_firehose_nozzle.Cache.Boltdb.{BoltdbConfig}
use splunk_firehose_nozzle.Router.{Router}
use splunk_firehose_nozzle.Splunknozzle.Config.{Config, to_map}
use splunk_firehose_nozzle.Splunknozzle.Wiring.{
  AppCache, boltdb, no_cache, app_cache, EventSink, SinkError, event_sink, event_router,
}

-- What Run finds: the errors of the client and of the database, and what the libraries answer.
pub record Environment : Type 0 where
  pub pcf_client : Option String
  pub open_boltdb : BoltdbConfig → Option String
  pub network : Network
  pub uuid : String
  pub fold : Char → Char
  pub decode : String → Option (List String)
  pub to_float : ℤ → ℕ

pub data Act : Type 0 where
  cache_opened cache_closed : Act
  workers_started : ℕ → Act
  status_started : Act
  config_logged : Dict Value → Act
  nozzle_started nozzle_closed sink_closed : Act

pub data RunError : Type 0 where
  client_error : String → RunError
  cache_error : String → RunError
  sink_error : SinkError → RunError
  router_error : SelectError → RunError

abbrev pub Outcome : Type 0
Outcome = List Act × Option RunError

-- NoCache opens with no error.
pub open_cache : Environment → AppCache → Option String
open_cache env (boltdb config) = env.open_boltdb config
open_cache env no_cache = none

-- defer appCache.Close(), behind an Open without an error
with_cache : Outcome → Outcome
with_cache (acts, e) = (cache_opened ∷ (acts ++ cache_closed ∷ []), e)

-- EventSink starts the workers, and the status log if it has an interval; Run logs the configuration.
sink_acts : Environment → Config → EventSink → List Act
sink_acts env c sink =
    workers_started sink.workers
    ∷ ((if ltb_ℤ (pos 0) c.status_monitor_interval then status_started ∷ [] else [])
        ++ config_logged (to_map env.to_float c) ∷ [])

-- Behind the start of the nozzle Run waits for a signal, or for the end of the nozzle. It ignores the
-- error of the nozzle's Close, and the sink's returns none.
run_router : Environment → Config → EventSink → Result SelectError Router → Outcome
unfolding sink_acts
run_router env c sink (err e) = (sink_acts env c sink, some (router_error e))
run_router env c sink (ok router) =
    (sink_acts env c sink ++ nozzle_started ∷ nozzle_closed ∷ sink_closed ∷ [], none)

run_sink : Environment → Config → Result SinkError EventSink → Outcome
unfolding run_router
run_sink env c (err e) = ([], some (sink_error e))
run_sink env c (ok sink) = run_router env c sink (event_router env.decode env.fold c)

run_cache : Environment → Config → Option String → Outcome
unfolding run_sink with_cache
run_cache env c (some e) = ([], some (cache_error e))
run_cache env c none = with_cache (run_sink env c (event_sink env.fold env.network env.uuid c))

-- A panic of EventSink closes the cache too, and ends the program with `panicked`.
unfoldable pub run : Environment → Config → Outcome
unfolding run_cache open_cache
run env c = elim env.pcf_client [
  | some e ↦ ([], some (client_error e))
  | none ↦ run_cache env c (open_cache env (app_cache c))
]
