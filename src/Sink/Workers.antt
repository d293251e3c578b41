-- ===== src/Sink/Workers.antt =====
-- Open, the goroutines of consume, and Close: workers that share a queue, a cache and a counter, and
-- that take their turns in any order. A turn of a worker is one round of its loop, or its end. In the
-- code other workers can come between the receipt of an envelope, the lookup of its app and the
-- count of its event; here they do not, and what is claimed of runs does not depend on whether they do.
pub mod Fifo
pub mod Counter
pub mod Drain
pub mod Posts
pub mod Made
pub mod Finish
use splunk_firehose_nozzle.Base.{
  ℕ, zero, suc, ◌+◌, ◌<◌, Bool, true, false, List, [], ◌∷◌, ◌++◌, some, length, ltb, ◌≡◌,
  if◌then◌else◌,
}
use splunk_firehose_nozzle.Base.Int.{ℤ}
use splunk_firehose_nozzle.Base.Family.{replace}
use splunk_firehose_nozzle.Events.Envelope.{Envelope}
use splunk_firehose_nozzle.Sink.Index.{Action}
use splunk_firehose_nozzle.Sink.Queue.{Queue, write}
use splunk_firehose_nozzle.Sink.Consume.{
  Built, Post, Signal, received, timer, Worker, Parts, flush, consume_step,
}

-- What a worker has for itself: the local variables of consume, the state behind its writer, and
-- whether it has not yet returned.
pub record Seat (Err W : Type 0) : Type 0 where
  pub batch : List Built
  pub state : W
  pub posts : List Post
  pub actions : List (Action Err)
  pub running : Bool

pub record System (Err C W : Type 0) : Type 0 where
  pub queue : Queue Envelope
  pub closed : Bool
  pub cache : C
  pub count : ℕ
  pub seats : ℕ → Seat Err W

-- What happens in a step, for those who watch.
pub data Label : Type 0 where
  queued : Envelope → Label
  dropped : Envelope → Label
  took : ℕ → Envelope → Label
  ticked : ℕ → Label
  closed_queue : Label
  exited : ℕ → Label

module _ {Err C W : Type 0} where
  -- A worker with the shared parts as they stand.
  abbrev pub worker_at : System Err C W → ℕ → Worker Err C W
  worker_at s i = record {
    batch = (s.seats i).batch;
    cache = s.cache;
    count = s.count;
    state = (s.seats i).state;
    posts = (s.seats i).posts;
    actions = (s.seats i).actions;
  }

  abbrev pub seat_of : Bool → Worker Err C W → Seat Err W
  seat_of running w = record {
    batch = w.batch;
    state = w.state;
    posts = w.posts;
    actions = w.actions;
    running = running;
  }

  abbrev pub put_back : ℕ → Bool → Worker Err C W → System Err C W → System Err C W
  put_back i running w s = record s {
    cache = w.cache;
    count = w.count;
    seats = replace s.seats i (seat_of running w);
  }

  -- NewSplunk and Open: an empty queue, and each worker with an empty batch.
  abbrev pub opened : C → (ℕ → W) → System Err C W
  opened cache states = record {
    queue = record { events = []; dropped_events = 0; warnings = [] };
    closed = false;
    cache = cache;
    count = 0;
    seats = λ i. record { batch = []; state = states i; posts = []; actions = []; running = true };
  }

  module _ (parts : Parts Err C W) where
    abbrev pub write_label : Queue Envelope → Envelope → Label
    write_label q e = if ltb (length q.events) parts.config.queue_size then queued e else dropped e

    -- One step of the sink with n workers.
    pub data Step (n : ℕ) (s : System Err C W) : Label → System Err C W → Type 0 where
      writes :
          (e : Envelope) {q : Queue Envelope} {l : Label}
          → s.closed ≡ false
          → write parts.config e s.queue ≡ some q
          → write_label s.queue e ≡ l
          → Step n s l (record s { queue = q })
      takes :
          (i : ℕ) (e : Envelope) (rest : List Envelope) (now : ℤ)
          → i < n
          → (s.seats i).running ≡ true
          → s.queue.events ≡ e ∷ rest
          → Step n s (took i e) (
              put_back i true
                (consume_step parts (worker_at s i) (received e now))
                (record s { queue = record s.queue { events = rest } }))
      ticks :
          (i : ℕ)
          → i < n
          → (s.seats i).running ≡ true
          → Step n s (ticked i) (put_back i true (consume_step parts (worker_at s i) timer) s)
      closes : s.closed ≡ false → Step n s closed_queue (record s { closed = true })
      exits :
          (i : ℕ)
          → i < n
          → (s.seats i).running ≡ true
          → s.closed ≡ true
          → s.queue.events ≡ []
          → Step n s (exited i) (put_back i false (flush parts (worker_at s i)) s)

    -- Runs, the last step outermost; labels in the order of time.
    pub data Run (n : ℕ) (s : System Err C W) : List Label → System Err C W → Type 0 where
      start : Run n s [] s
      later :
          {ls : List Label} {l : Label} {t u : System Err C W}
          → Run n s ls t
          → Step n t l u
          → Run n s (ls ++ l ∷ []) u
