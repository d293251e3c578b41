-- ===== src/Sink/Index.antt =====
-- indexEvents and getRetryInterval: a batch is posted, and posted again after a failure.
pub mod Backoff
pub mod Retry
pub mod Calls
use splunk_firehose_nozzle.Base.{
  ℕ, zero, suc, ◌+◌, ◌-◌, ◌*◌, ◌^◌, Bool, Option, none, some, List, [], ◌∷◌, ◌++◌, length, true,
  false, if◌then◌else◌,
}
use splunk_firehose_nozzle.Base.Int.{ℤ, pos, wrap64, ltb_ℤ}
use splunk_firehose_nozzle.Sink.Build.{SinkConfig}

-- eventwriter.Writer: a call changes the events of the batch in place and the state W behind the
-- writer, and returns an error, or nil, and a count.
pub record Written (B Err : Type 0) : Type 0 where
  pub batch : List B
  pub error : Option Err
  pub count : ℕ

abbrev pub Writer : Type 0 → Type 0 → Type 0 → Type 0
Writer B Err W = List B → W → Written B Err × W

-- What indexEvents does beside the calls of the writer.
pub data Action (Err : Type 0) : Type 0 where
  reported : ℕ → Action Err
  log_failure : Err → ℕ → Action Err
  slept : ℤ → Action Err
  log_dropped : ℕ → Action Err

-- Seconds are 5 + (2 ^ attempt - 1) / 2. The computation in float64 is exact for attempts up to 46;
-- the nanoseconds of the duration wrap in an int64.
unfoldable pub get_retry_interval : ℕ → ℤ
get_retry_interval attempt = wrap64 (pos (1000000 * (500 * (10 + (2 ^ attempt - 1)))))

-- What a call of indexEvents comes to: the batch that it returns, the actions in order, whether the
-- writer took the events, and the state behind the writer.
pub record Indexed (B Err W : Type 0) : Type 0 where
  pub batch : List B
  pub actions : List (Action Err)
  pub accepted : Bool
  pub state : W

-- The count goes to the status monitor, if there is one.
unfoldable pub report : {Err : Type 0} → SinkConfig → ℕ → List (Action Err)
report config count =
    if ltb_ℤ (pos 0) config.status_monitor_interval then reported count ∷ [] else []

module _ {B Err W : Type 0} where
  abbrev pub prepend : List (Action Err) → Indexed B Err W → Indexed B Err W
  prepend before r = record r { actions = before ++ r.actions }

  -- One attempt has been made: the loop ends, or waits and goes on with `retry`.
  unfoldable pub after_attempt :
      SinkConfig → ℕ → Option Err → ℕ → W → Indexed B Err W → Indexed B Err W
  unfolding report
  after_attempt config i none count w retry = record {
    batch = [];
    actions = report config count;
    accepted = true;
    state = w;
  }
  after_attempt config i (some e) count w retry =
      prepend (log_failure e (i + 1) ∷ slept (get_retry_interval i) ∷ []) retry

  -- The loop over the attempts that are left, where `i` have been made.
  unfoldable pub attempts : Writer B Err W → SinkConfig → ℕ → ℕ → List B → W → Indexed B Err W
  unfolding after_attempt
  attempts writer config zero i batch w = record {
    batch = [];
    actions = log_dropped (length batch) ∷ [];
    accepted = false;
    state = w;
  }
  attempts writer config (suc left) i batch w =
      let (r, w') = writer batch w in
      let retry = attempts writer config left (i + 1) r.batch w' in
      after_attempt config i r.error r.count w' retry

  -- An empty batch is returned as it is.
  unfoldable pub index_events : Writer B Err W → SinkConfig → List B → W → Indexed B Err W
  unfolding attempts
  index_events writer config [] w = record { batch = []; actions = []; accepted = true; state = w }
  index_events writer config (e ∷ batch) w = attempts writer config config.retries 0 (e ∷ batch) w
