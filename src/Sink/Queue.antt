-- ===== src/Sink/Queue.antt =====
-- Write: the router's side of the queue. The buffer of the channel is a list, oldest first.
pub mod Burst
pub mod Effect
use splunk_firehose_nozzle.Base.{
  ℕ, zero, suc, ◌+◌, ◌%◌, ◌^◌, Bool, true, false, Option, none, some, List, [], ◌∷◌, ◌++◌, length,
  ltb, eqb, if◌then◌else◌,
}
use splunk_firehose_nozzle.Base.Int.{ℤ, pos, pos_part, neg_part, wrap64}
use splunk_firehose_nozzle.Sink.Build.{SinkConfig}

-- The fields of Splunk that Write uses; `warnings` are the totals that were logged.
pub record Queue (A : Type 0) : Type 0 where
  pub events : List A
  pub dropped_events : ℕ
  pub warnings : List ℕ

abbrev magnitude : ℤ → ℕ
magnitude n = pos_part n + neg_part n

module _ {A : Type 0} where
  -- A total that the threshold divides, read as an int, is logged.
  unfoldable pub note_total : ℕ → Queue A → Queue A
  unfolding wrap64
  note_total threshold q =
      if eqb (magnitude (wrap64 (pos q.dropped_events)) % threshold) 0
      then record q { warnings = q.warnings ++ q.dropped_events ∷ [] }
      else q

  -- `none` is the panic of a division by zero.
  warn : ℕ → Queue A → Option (Queue A)
  warn zero q = none
  warn (suc t) q = some (note_total (suc t) q)

  -- The queue is full: the event is dropped and counted.
  drop_event : SinkConfig → Queue A → Option (Queue A)
  unfolding warn
  drop_event config q =
      warn config.drop_warn_threshold
        (record q { dropped_events = (q.dropped_events + 1) % 2 ^ 64 })

  -- A queue of size zero is full at all times here; Go's unbuffered channel would give an envelope to a
  -- worker that is waiting at that moment.
  unfoldable pub write : SinkConfig → A → Queue A → Option (Queue A)
  unfolding drop_event
  write config fields q =
      if ltb (length q.events) config.queue_size
      then some (record q { events = q.events ++ fields ∷ [] })
      else drop_event config q

  -- A burst of events, while no worker takes one from the queue.
  unfoldable pub write_all : SinkConfig → List A → Queue A → Option (Queue A)
  write_all config [] q = some q
  write_all config (e ∷ es) q = elim (write config e q) [
    | none ↦ none
    | some q' ↦ write_all config es q'
  ]
