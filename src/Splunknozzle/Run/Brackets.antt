-- ===== src/Splunknozzle/Run/Brackets.antt =====
-- The cache is closed where it was opened.
use splunk_firehose_nozzle.Base.{
  String, Option, none, some, List, [], ◌∷◌, ◌++◌, ◌≡◌, refl, ◌⊎◌, inl, inr, All, All-append,
  Bool-cases,
}
use splunk_firehose_nozzle.Base.Int.{pos, ltb_ℤ}
use splunk_firehose_nozzle.Base.Result.{Result, ok, err}
use splunk_firehose_nozzle.Events.Select.{SelectError}
use splunk_firehose_nozzle.Router.{Router}
use splunk_firehose_nozzle.Splunknozzle.Config.{Config}
use splunk_firehose_nozzle.Splunknozzle.Wiring.{
  SinkError, EventSink, event_sink, event_router, app_cache,
}
use splunk_firehose_nozzle.Splunknozzle.Run.{
  Environment, Act, cache_opened, cache_closed, workers_started, status_started, config_logged,
  nozzle_started, nozzle_closed, sink_closed, open_cache, with_cache, sink_acts, run_router,
  run_sink, run_cache, run,
}

-- An act of another part than the cache.
abbrev pub IsOther : Act → Type 0
IsOther cache_opened = ⊥
IsOther cache_closed = ⊥
IsOther (workers_started n) = Unit
IsOther status_started = Unit
IsOther (config_logged m) = Unit
IsOther nozzle_started = Unit
IsOther nozzle_closed = Unit
IsOther sink_closed = Unit

-- The cache is opened first and closed last, or nothing is done at all.
abbrev pub Brackets : List Act → Type 0
Brackets acts =
    (acts ≡ [])
    ⊎ ((inner : List Act) × (acts ≡ cache_opened ∷ (inner ++ cache_closed ∷ []))
        × All IsOther inner)

sink_acts-IsOther :
    (env : Environment) (c : Config) (sink : EventSink) → All IsOther (sink_acts env c sink)
unfolding sink_acts
sink_acts-IsOther env c sink = elim (Bool-cases (ltb_ℤ (pos 0) c.status_monitor_interval)) [
  | inl monitored ↦ rw monitored (tt, (tt, (tt, tt)))
  | inr quiet ↦ rw quiet (tt, (tt, tt))
]

run_router-IsOther :
    (env : Environment) (c : Config) (sink : EventSink) (r : Result SelectError Router)
    → All IsOther (run_router env c sink r).0
unfolding run_router
run_router-IsOther env c sink (err e) = sink_acts-IsOther env c sink
run_router-IsOther env c sink (ok router) =
    All-append IsOther (sink_acts env c sink) (nozzle_started ∷ nozzle_closed ∷ sink_closed ∷ [])
      (sink_acts-IsOther env c sink) (tt, (tt, (tt, tt)))

run_sink-IsOther :
    (env : Environment) (c : Config) (r : Result SinkError EventSink)
    → All IsOther (run_sink env c r).0
unfolding run_sink
run_sink-IsOther env c (err e) = tt
run_sink-IsOther env c (ok sink) =
    run_router-IsOther env c sink (event_router env.decode env.fold c)

run_cache-Brackets :
    (env : Environment) (c : Config) (o : Option String) → Brackets (run_cache env c o).0
unfolding run_cache with_cache
run_cache-Brackets env c (some e) = inl refl
run_cache-Brackets env c none =
    let made = event_sink env.fold env.network env.uuid c in
    inr ((run_sink env c made).0, refl, run_sink-IsOther env c made)

client_first :
    (env : Environment) (c : Config) (o : Option String)
    → env.pcf_client ≡ o
    → Brackets (run env c).0
unfolding run
client_first env c (some e) h = rw (h, run) (inl refl)
client_first env c none h = rw (h, run) (run_cache-Brackets env c (open_cache env (app_cache c)))

-- However Run returns, it has closed the cache last of all if it had opened it, and it opened it before
-- anything else; else it did nothing.
pub run-Brackets : (env : Environment) (c : Config) → Brackets (run env c).0
run-Brackets env c = client_first env c env.pcf_client refl
