-- ===== src/Sink/Index/Retry.antt =====
-- What indexEvents does with a writer that fails.
use splunk_firehose_nozzle.Base.{
  ℕ, zero, suc, ◌+◌, ◌≤◌, ◌<◌, ◌≡◌, refl, true, false, none, some, List, ◌∷◌, arith,
}
use splunk_firehose_nozzle.Sink.Build.{SinkConfig}
use splunk_firehose_nozzle.Sink.Index.{Writer, report, after_attempt, attempts, index_events}
use splunk_firehose_nozzle.Sink.Index.Backoff.{
  sleeps, waited, backoff, backoff-suc, get_retry_interval_exact,
}

module _ {B Err W : Type 0} (writer : Writer B Err W) where
  -- The batch, as the calls have changed it, and the state behind the writer after k calls.
  abbrev pub after_calls : ℕ → List B → W → List B × W
  after_calls zero batch w = (batch, w)
  after_calls (suc k) batch w = after_calls k (writer batch w).0.batch (writer batch w).1

  -- The first k calls all return an error.
  abbrev pub FailsFor : ℕ → List B → W → Type 0
  FailsFor zero batch w = Unit
  FailsFor (suc k) batch w =
      ((e : Err) × ((writer batch w).0.error ≡ some e))
      × FailsFor k (writer batch w).0.batch (writer batch w).1

  -- The call after the first k takes the batch.
  abbrev pub TakesAt : ℕ → List B → W → Type 0
  TakesAt k batch w = (writer (after_calls k batch w).0 (after_calls k batch w).1).0.error ≡ none

  sleeps-report : (config : SinkConfig) (count : ℕ) → sleeps {Err = Err} (report config count) ≡ 0
  unfolding report
  sleeps-report config count = ground arith

  attempts-TakesAt :
      (config : SinkConfig) (k left i : ℕ) (batch : List B) (w : W)
      → k < left
      → FailsFor k batch w
      → TakesAt k batch w
      → let r = attempts writer config left i batch w in
        (r.accepted ≡ true) × (r.state ≡ (after_calls (suc k) batch w).1) × (sleeps r.actions ≡ k)
  unfolding attempts
  attempts-TakesAt config k zero i batch w h f t = absurd (omega arith)
  attempts-TakesAt config zero (suc left) i batch w h f t =
      rw (t, after_attempt) (refl, refl, sleeps-report config _)
  attempts-TakesAt config (suc k) (suc left) i batch w h ((e, failed), f) t =
      let (taken, reached, slept_k) =
        attempts-TakesAt config k left (i + 1) (writer batch w).0.batch (writer batch w).1
          (omega arith) f t in
      rw (failed, after_attempt) (taken, reached, omega (arith, slept_k))

  attempts-FailsFor :
      (config : SinkConfig) (left i : ℕ) (batch : List B) (w : W)
      → i + left ≤ 35
      → FailsFor left batch w
      → let r = attempts writer config left i batch w in
        (r.accepted ≡ false)
        × (r.state ≡ (after_calls left batch w).1)
        × (sleeps r.actions ≡ left)
        × (waited r.actions ≡ backoff i left)
  unfolding attempts
  attempts-FailsFor config zero i batch w h f = (refl, refl, refl, omega arith)
  attempts-FailsFor config (suc left) i batch w h ((e, failed), f) =
      let (given_up, reached, slept_n, waited_n) =
        attempts-FailsFor config left (i + 1) (writer batch w).0.batch (writer batch w).1
          (omega arith) f in
      rw (failed, after_attempt)
        (
          given_up,
          reached,
          omega (arith, slept_n),
          rw (backoff-suc, get_retry_interval_exact i (omega arith)) (omega (arith, waited_n)),
        )

  -- A call of indexEvents with events, whose writer fails k times and then takes the batch while
  -- attempts are left: the batch is posted k + 1 times, the writer takes it, and the call slept k times.
  index_events-TakesAt :
      (config : SinkConfig) (k : ℕ) (e : B) (batch : List B) (w : W)
      → k < config.retries
      → FailsFor k (e ∷ batch) w
      → TakesAt k (e ∷ batch) w
      → let r = index_events writer config (e ∷ batch) w in
        (r.accepted ≡ true)
        × (r.state ≡ (after_calls (suc k) (e ∷ batch) w).1)
        × (sleeps r.actions ≡ k)
  unfolding index_events
  index_events-TakesAt config k e batch w h f t =
      attempts-TakesAt config k config.retries 0 (e ∷ batch) w h f t

  -- A call of indexEvents with events, whose writer fails every time, for at most 35 retries: the batch is posted exactly as often
  -- as there are retries, it is given up, and the waits add up to the exponential back-off.
  pub index_events-FailsFor :
      (config : SinkConfig) (e : B) (batch : List B) (w : W)
      → config.retries ≤ 35
      → FailsFor config.retries (e ∷ batch) w
      → let r = index_events writer config (e ∷ batch) w in
        (r.accepted ≡ false)
        × (r.state ≡ (after_calls config.retries (e ∷ batch) w).1)
        × (sleeps r.actions ≡ config.retries)
        × (waited r.actions ≡ backoff 0 config.retries)
  unfolding index_events
  index_events-FailsFor config e batch w h f =
      attempts-FailsFor config config.retries 0 (e ∷ batch) w (omega arith) f
