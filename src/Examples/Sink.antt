-- ===== src/Examples/Sink.antt =====
-- The theorems about the sink at concrete inputs.
use splunk_firehose_nozzle.Base.{ℕ, false, some, List, [], ◌∷◌, ◌≡◌, refl, arith, is_some}
use splunk_firehose_nozzle.Base.Int.{pos}
use splunk_firehose_nozzle.Base.Dict.{lookup}
use splunk_firehose_nozzle.Value.{str}
use splunk_firehose_nozzle.Sink.Build.{build_event}
use splunk_firehose_nozzle.Sink.Build.Posted.{index_for, prepare-build_event}
use splunk_firehose_nozzle.Writer
use splunk_firehose_nozzle.Writer.{WriterConfig, prepare}
use splunk_firehose_nozzle.Sink.Parse.{parse_event}
use splunk_firehose_nozzle.Sink.Parse.Filter.{parse_event_passes}
use splunk_firehose_nozzle.Sink.Index.{index_events}
use splunk_firehose_nozzle.Sink.Index.Retry.{after_calls, index_events-FailsFor}
use splunk_firehose_nozzle.Sink.Index.Backoff.{sleeps, waited, backoff}
use splunk_firehose_nozzle.Sink.Queue.{Queue}
use splunk_firehose_nozzle.Sink.Queue.Burst.{Bursts, write_all-Bursts}
use splunk_firehose_nozzle.Sink.Consume.{Signal, received, timer, consume}
use splunk_firehose_nozzle.Sink.Consume.Order.{posted, produced}
use splunk_firehose_nozzle.Sink.Consume.Calls.{observed, fresh, AllAttempts, consume-calls}
use splunk_firehose_nozzle.Examples.World.{
  flaky, runtime, writer_config, parts, table_cache, some_config, log_of, sink_config,
}

parse_event_passes_example :
    is_some (parse_event table_cache some_config (log_of "app-1" "hello") tt).0 ≡ false
parse_event_passes_example = parse_event_passes table_cache some_config (log_of "app-1" "hello") tt

index_events-FailsFor_example :
    let r = index_events (flaky {B = ℕ} 9) sink_config (7 ∷ []) 0 in
    (r.accepted ≡ false)
    × (r.state ≡ (after_calls (flaky {B = ℕ} 9) 5 (7 ∷ []) 0).1)
    × (sleeps r.actions ≡ 5)
    × (waited r.actions ≡ backoff 0 5)
index_events-FailsFor_example = index_events-FailsFor (flaky 9) sink_config 7 [] 0 (omega arith) (
  ("timeout", refl),
  (("timeout", refl), (("timeout", refl), (("timeout", refl), (("timeout", refl), tt)))),
)

abbrev one_queued : Queue ℕ
one_queued = record { events = 1 ∷ []; dropped_events = 0; warnings = [] }

write_all-Bursts_example : Bursts sink_config (2 ∷ 3 ∷ 4 ∷ []) one_queued
write_all-Bursts_example =
    write_all-Bursts sink_config (2 ∷ 3 ∷ 4 ∷ []) one_queued (omega arith) (omega arith)
      (omega arith)

abbrev traffic : List Signal
traffic =
    received (log_of "app-2" "one") (pos 1)
    ∷ received (log_of "app-1" "ignored") (pos 2)
    ∷ timer
    ∷ received (log_of "" "two") (pos 3)
    ∷ received (log_of "app-2" "three") (pos 4)
    ∷ received (log_of "app-2" "four") (pos 5)
    ∷ []

consume-calls_example :
    let end = consume (observed parts) (fresh parts tt 0 0) traffic in
    (posted end.posts ≡ produced (observed parts) traffic tt 0)
    × AllAttempts 5 end.posts end.state.0
consume-calls_example = consume-calls parts tt 0 0 traffic

prepare-build_event_example :
    (e : Writer.Event) × (prepare writer_config
        (build_event sink_config runtime (pos 7) (("msg", str "hi") ∷ []) 0).0
      ≡ some e)
    × (lookup "index" e ≡ index_for writer_config (("msg", str "hi") ∷ []))
prepare-build_event_example =
    prepare-build_event writer_config sink_config runtime (pos 7) (("msg", str "hi") ∷ []) 0
