-- ===== src/Splunknozzle/Pipeline/Arrival.antt =====
-- From the source to HTTP: what the parts that Run starts say to Splunk.
use splunk_firehose_nozzle.Base.{ℕ, ◌+◌, ◌%◌, ◌^◌, Bool, false, List, [], ◌++◌, length, ◌≡◌, subst}
use splunk_firehose_nozzle.Events.Envelope.{Envelope}
use splunk_firehose_nozzle.Nozzle.Loop.{reached}
use splunk_firehose_nozzle.Router.{Router}
use splunk_firehose_nozzle.Sink.Consume.{Parts}
use splunk_firehose_nozzle.Sink.Consume.Order.{posted}
use splunk_firehose_nozzle.Sink.Workers.{Label}
use splunk_firehose_nozzle.Sink.Workers.Fifo.{all_taken}
use splunk_firehose_nozzle.Sink.Workers.Made.{all_taken_at, Makes, Run-AllMade}
use splunk_firehose_nozzle.Sink.Http.{Exchange, recorded, IsWrite, AllTried}
use splunk_firehose_nozzle.Sink.Http.Workers.{Run-AllTried}
use splunk_firehose_nozzle.Writer.{WriterConfig, Encoder, Transport, WriteError}
use splunk_firehose_nozzle.Splunknozzle.Pipeline.{Program, started, AdvanceRun}
use splunk_firehose_nozzle.Splunknozzle.Pipeline.Wanted.{wanted, IsPart}
use splunk_firehose_nozzle.Splunknozzle.Pipeline.Delivery.{AdvanceRun-Sunk, AdvanceRun-delivers}

module _ {C T : Type 0} (transport : Transport T) (marshal : Encoder) (config : WriterConfig)
    (parts : Parts WriteError C (List Exchange × T))
    (is_write : IsWrite (recorded transport) marshal config parts.writer)
    (sends : config.debug ≡ false) (router : Router) (monitored : Bool) where
  -- However the loop and any number of workers, whose writers are Write, not in debug mode, over any
  -- transport, take their turns: what the workers took, and then what waits in the queue, are envelopes
  -- of the selected types that the source sent, in its order, and none of these types is missing but
  -- those that the sink dropped and counted, modulo 2 ^ 64. What each worker has posted or holds in its
  -- batch is what it made of the envelopes that it took itself, in order: of each at most one event,
  -- which is what buildEvent makes of the fields of parseEvent, and none only where parseEvent gives no
  -- fields. And what it said over HTTP is, for each of its posts, the tries of the one request that the
  -- post's events are prepared to: up to the first that is answered without an error, or as many as
  -- retries are configured, of which there can be none.
  pub AdvanceRun-arrives :
      (cache : C) (states : ℕ → T) {n : ℕ} {es : List Envelope} {ks : List Label}
      {p : Program WriteError C (List Exchange × T)}
      → AdvanceRun parts router monitored n (started cache (λ i. ([], states i))) es ks p
      → let sink = (reached p).router in
        (lost : ℕ) × IsPart (all_taken ks ++ sink.queue.events) (wanted router es)
        × (length (wanted router es) ≡ length (all_taken ks ++ sink.queue.events) + lost)
        × (sink.queue.dropped_events ≡ lost % 2 ^ 64)
        × ((i : ℕ)
            → Makes parts (all_taken_at i ks) (posted (sink.seats i).posts ++ (sink.seats i).batch)
              × AllTried marshal config parts.config.retries
                  (sink.seats i).posts
                  (sink.seats i).state.0)
  AdvanceRun-arrives cache states {p} program =
      let (lost, part, count, dropped) =
        AdvanceRun-delivers parts router monitored cache (λ i. ([], states i)) program in
      let (ls, run, written, taken, own) =
        AdvanceRun-Sunk parts router monitored cache (λ i. ([], states i)) program in
      (
        lost,
        part,
        count,
        dropped,
        λ i. (
          subst
              (λ (es' : List Envelope).
                Makes parts es'
                  (posted ((reached p).router.seats i).posts ++ ((reached p).router.seats i).batch))
              (own i) (Run-AllMade parts cache (λ j. ([], states j)) run i),
          Run-AllTried transport marshal config parts is_write sends cache states run i,
        ),
      )
