-- ===== src/Sink/Status/Sent.antt =====
-- The counts of sent events that LogStatus logs.
use splunk_firehose_nozzle.Base.{
  ℕ, ◌+◌, ◌^◌, ◌≤◌, ◌<◌, Bool, true, false, Option, none, some, List, [], ◌∷◌, ◌≡◌, refl, total,
  total-append, arith,
}
use splunk_firehose_nozzle.Base.Int.{ℤ}
use splunk_firehose_nozzle.Sink.Status.{
  Floats, StatusEntry, queue_pressure, event_count_sent, StatusTurn, status_turn, StatusLoop,
  pressure, log_status, add_sent, run_status,
}

abbrev pub logged : StatusEntry → ℕ
logged (queue_pressure n percent status) = 0
logged (event_count_sent n) = n

abbrev count_of : Option ℕ → ℕ
count_of none = 0
count_of (some n) = n

abbrev pub received_in : StatusTurn → ℕ
received_in (status_turn due waiting count) = count_of count

-- The sent events that were logged, and those that are still to be.
abbrev pub sent_by : StatusLoop → ℕ
sent_by s = total logged s.log + s.sent

module _ (fl : Floats) (queue_size : ℤ) where
  log_status-sent :
      (due : Bool) (waiting : ℕ) (s : StatusLoop)
      → (sent_by (log_status fl queue_size due waiting s) ≡ sent_by s)
        × ((log_status fl queue_size due waiting s).sent ≤ s.sent)
  unfolding log_status pressure
  log_status-sent true waiting s = (
    omega (
      arith,
      total-append logged s.log (pressure fl waiting queue_size ∷ event_count_sent s.sent ∷ []),
    ),
    omega arith,
  )
  log_status-sent false waiting s = (refl, omega arith)

  add_sent-sent :
      (count : Option ℕ) (s : StatusLoop)
      → s.sent + count_of count < 2 ^ 64
      → (sent_by (add_sent count s) ≡ sent_by s + count_of count)
        × ((add_sent count s).sent ≡ s.sent + count_of count)
  unfolding add_sent
  add_sent-sent none s h = omega arith
  add_sent-sent (some n) s h = omega (arith, h)

  -- While fewer than 2 ^ 64 events are sent, every count that LogStatus receives is logged once: the
  -- counts in its log and the one that is still to be logged add up to what they were, and the counts
  -- that were received.
  pub sent_by-run_status :
      (turns : List StatusTurn) (s : StatusLoop)
      → s.sent + total received_in turns < 2 ^ 64
      → sent_by (run_status fl queue_size turns s) ≡ sent_by s + total received_in turns
  unfolding run_status
  sent_by-run_status [] s h = omega arith
  sent_by-run_status (status_turn due waiting count ∷ turns) s h =
      let s1 = log_status fl queue_size due waiting s in
      let (kept, fewer) = log_status-sent due waiting s in
      let room : s1.sent + count_of count < 2 ^ 64 = omega (arith, fewer, h) in
      let (grown, sent) = add_sent-sent count s1 room in
      let rest : (add_sent count s1).sent + total received_in turns < 2 ^ 64 =
        omega (arith, fewer, sent, h) in
      omega (arith, kept, grown, sent_by-run_status turns (add_sent count s1) rest)
