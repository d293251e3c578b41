-- ===== src/Sink/Queue/Effect.antt =====
-- The two outcomes of a Write that does not panic.
use splunk_firehose_nozzle.Base.{
  ℕ, zero, suc, ◌+◌, ◌%◌, ◌^◌, true, false, [], ◌∷◌, ◌++◌, some, length, ltb, ◌≡◌, arith,
}
use splunk_firehose_nozzle.Sink.Build.{SinkConfig}
use splunk_firehose_nozzle.Sink.Queue.{Queue, note_total, warn, write}

module _ {A : Type 0} where
  warn_keeps :
      (threshold : ℕ) (q q' : Queue A)
      → warn threshold q ≡ some q'
      → (q'.events ≡ q.events) × (q'.dropped_events ≡ q.dropped_events)
  unfolding warn note_total
  warn_keeps zero q q' h = ground arith
  warn_keeps (suc t) q q' h = ground arith

  pub write-queued :
      (config : SinkConfig) (e : A) (q q' : Queue A)
      → write config e q ≡ some q'
      → ltb (length q.events) config.queue_size ≡ true
      → (q'.events ≡ q.events ++ e ∷ []) × (q'.dropped_events ≡ q.dropped_events)
  unfolding write
  write-queued config e q q' h free = ground arith

  pub write-dropped :
      (config : SinkConfig) (e : A) (q q' : Queue A)
      → write config e q ≡ some q'
      → ltb (length q.events) config.queue_size ≡ false
      → (q'.events ≡ q.events) × (q'.dropped_events ≡ (q.dropped_events + 1) % 2 ^ 64)
  unfolding write
  write-dropped config e q q' h full =
      warn_keeps config.drop_warn_threshold
        (record q { dropped_events = (q.dropped_events + 1) % 2 ^ 64 }) q' (rw full at h)
