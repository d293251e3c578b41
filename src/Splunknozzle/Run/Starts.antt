-- ===== src/Splunknozzle/Run/Starts.antt =====
-- When Run starts the nozzle.
use splunk_firehose_nozzle.Base.{
  String, Bool, true, false, ◌&&◌, ◌||◌, not, Option, none, some, List, [], ◌∷◌, ◌++◌, ◌≡◌, refl,
  is_some, arith, Bool-cases, inl, inr,
}
use splunk_firehose_nozzle.Base.Int.{pos, ltb_ℤ}
use splunk_firehose_nozzle.Base.Dict.{Dict}
use splunk_firehose_nozzle.Base.Result.{is_ok, Result, ok, err}
use splunk_firehose_nozzle.Events.Extra.{ExtraError, parse_extra_fields}
use splunk_firehose_nozzle.Events.Select.{SelectError}
use splunk_firehose_nozzle.Events.Select.Laws.{all_authorized, wanted_names}
use splunk_firehose_nozzle.Router.{Router, is_ok-new}
use splunk_firehose_nozzle.Splunknozzle.Config.{Config}
use splunk_firehose_nozzle.Splunknozzle.Wiring.{
  SinkError, EventSink, make_sink, event_sink, event_router, app_cache, parse_config,
}
use splunk_firehose_nozzle.Splunknozzle.Run.{
  Environment, Act, cache_opened, cache_closed, workers_started, status_started, config_logged,
  nozzle_started, nozzle_closed, sink_closed, Outcome, open_cache, with_cache, sink_acts,
  run_router, run_sink, run_cache, run,
}

abbrev is_start : Act → Bool
is_start nozzle_started = true
is_start cache_opened = false
is_start cache_closed = false
is_start (workers_started n) = false
is_start status_started = false
is_start (config_logged m) = false
is_start nozzle_closed = false
is_start sink_closed = false

abbrev pub starts : List Act → Bool
starts [] = false
starts (a ∷ acts) = is_start a || starts acts

starts-append : (xs ys : List Act) → starts (xs ++ ys) ≡ starts xs || starts ys
starts-append [] ys = refl
starts-append (x ∷ xs) ys = ground (arith, starts-append xs ys)

-- The nozzle was started, and no error is returned.
abbrev Tells : Bool → Outcome → Type 0
Tells b r = (starts r.0 ≡ b) × (is_some r.1 ≡ not b)

sink_acts-starts :
    (env : Environment) (c : Config) (sink : EventSink) → starts (sink_acts env c sink) ≡ false
unfolding sink_acts
sink_acts-starts env c sink = elim (Bool-cases (ltb_ℤ (pos 0) c.status_monitor_interval)) [
  | inl monitored ↦ rw monitored
  | inr quiet ↦ rw quiet
]

run_router-Tells :
    (env : Environment) (c : Config) (sink : EventSink) (r : Result SelectError Router)
    → Tells (is_ok r) (run_router env c sink r)
unfolding run_router
run_router-Tells env c sink (err e) = (sink_acts-starts env c sink, refl)
run_router-Tells env c sink (ok router) = (
  ground (
    arith,
    starts-append (sink_acts env c sink) (nozzle_started ∷ nozzle_closed ∷ sink_closed ∷ []),
  ),
  refl,
)

run_sink-Tells :
    (env : Environment) (c : Config) (r : Result SinkError EventSink)
    → Tells (is_ok r && is_ok (event_router env.decode env.fold c)) (run_sink env c r)
unfolding run_sink
run_sink-Tells env c (err e) = (refl, refl)
run_sink-Tells env c (ok sink) = run_router-Tells env c sink (event_router env.decode env.fold c)

with_cache-Tells : (b : Bool) (r : Outcome) → Tells b r → Tells b (with_cache r)
unfolding with_cache
with_cache-Tells b (acts, e) (h, k) = (ground (arith, starts-append acts (cache_closed ∷ []), h), k)

run_cache-Tells :
    (env : Environment) (c : Config) (o : Option String)
    → Tells
        (not (is_some o)
          && (is_ok (event_sink env.fold env.network env.uuid c)
              && is_ok (event_router env.decode env.fold c)))
        (run_cache env c o)
unfolding run_cache
run_cache-Tells env c (some e) = (refl, refl)
run_cache-Tells env c none =
    with_cache-Tells _ (run_sink env c (event_sink env.fold env.network env.uuid c))
      (run_sink-Tells env c (event_sink env.fold env.network env.uuid c))

run-Tells :
    (env : Environment) (c : Config) (o : Option String)
    → env.pcf_client ≡ o
    → Tells
        (not (is_some o)
          && (not (is_some (open_cache env (app_cache c)))
              && (is_ok (event_sink env.fold env.network env.uuid c)
                  && is_ok (event_router env.decode env.fold c))))
        (run env c)
unfolding run run_cache open_cache
run-Tells env c (some e) h = rw (h, run) (refl, refl)
run-Tells env c none h = rw (h, run) (run_cache-Tells env c (open_cache env (app_cache c)))

is_ok-make_sink :
    (env : Environment) (extra : Dict String) (c : Config)
    → is_ok (make_sink env.fold env.network env.uuid extra c)
      ≡ not (ltb_ℤ c.queue_size (pos 0)) && not (ltb_ℤ c.hec_workers (pos 0))
unfolding make_sink
is_ok-make_sink env extra c = elim (Bool-cases (ltb_ℤ c.queue_size (pos 0))) [
  | inl a ↦ rw a
  | inr a ↦ elim (Bool-cases (ltb_ℤ c.hec_workers (pos 0))) [
    | inl b ↦ rw (a, b)
    | inr b ↦ rw (a, b)
  ]
]

event_sink_cases :
    (env : Environment) (c : Config) (r : Result ExtraError (Dict String))
    → parse_extra_fields c.extra_fields ≡ r
    → is_ok (event_sink env.fold env.network env.uuid c)
      ≡ is_ok r && (not (ltb_ℤ c.queue_size (pos 0)) && not (ltb_ℤ c.hec_workers (pos 0)))
unfolding event_sink
event_sink_cases env c (err e) h = rw (h, event_sink)
event_sink_cases env c (ok extra) h = rw (h, event_sink) (is_ok-make_sink env extra c)

is_ok-event_router :
    (env : Environment) (c : Config)
    → is_ok (event_router env.decode env.fold c)
      ≡ all_authorized (wanted_names env.decode c.wanted_events)
unfolding event_router
is_ok-event_router env c = is_ok-new env.decode (parse_config env.fold c)

-- What has to hold for the nozzle to be started.
abbrev pub can_start : Environment → Config → Bool
can_start env c =
    not (is_some env.pcf_client)
    && (not (is_some (open_cache env (app_cache c)))
        && ((is_ok (parse_extra_fields c.extra_fields)
              && (not (ltb_ℤ c.queue_size (pos 0)) && not (ltb_ℤ c.hec_workers (pos 0))))
            && all_authorized (wanted_names env.decode c.wanted_events)))

-- Run starts the nozzle, and returns no error, exactly if the client was made, the cache opens, the
-- extra fields can be parsed, neither the size of the queue nor the number of workers is negative,
-- and every event that the configuration asks for is known.
pub run-starts :
    (env : Environment) (c : Config)
    → (starts (run env c).0 ≡ can_start env c) × (is_some (run env c).1 ≡ not (can_start env c))
run-starts env c =
    rw
      (
        ← is_ok-event_router env c,
        ← event_sink_cases env c (parse_extra_fields c.extra_fields) refl,
      )
      (run-Tells env c env.pcf_client refl)
