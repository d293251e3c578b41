-- ===== src/Sink/Workers/Counter.antt =====
-- The event counter that the workers share.
use splunk_firehose_nozzle.Base.{
  ℕ, zero, suc, ◌+◌, ◌%◌, ◌^◌, ◌<◌, Bool, true, false, Option, List, [], ◌++◌, some, none, length,
  length-append, ◌≡◌, refl, ap, ◌∙◌, arith,
}
use splunk_firehose_nozzle.Base.Int.{ℤ}
use splunk_firehose_nozzle.Base.Family.{weigh, weigh-replace}
use splunk_firehose_nozzle.Sink.Build.{build_event}
use splunk_firehose_nozzle.Sink.Consume.{
  Built, Signal, received, timer, Worker, Parts, flush, consume_step,
}
use splunk_firehose_nozzle.Sink.Consume.Order.{
  posted, pending, build_parsed, built_in, Builds, consume_step-Builds, flush-Builds,
}
use splunk_firehose_nozzle.Sink.Workers.{
  Seat, System, Label, worker_at, seat_of, put_back, opened, Step, writes, takes, ticks, closes,
  exits, Run, start, later,
}

module _ {Err W : Type 0} where
  -- The events that a worker built: those it posted, and those in its batch.
  abbrev pub built_by : Seat Err W → ℕ
  built_by seat = length (posted seat.posts ++ seat.batch)

module _ {Err C W : Type 0} where
  module _ (parts : Parts Err C W) (traced : parts.config.trace_logging ≡ true) where
    build_parsed-count :
        (now : ℤ) (count : ℕ) (found : Option Built × C)
        → count < 2 ^ 64
        → (build_parsed parts now count found).2
          ≡ (count + length (build_parsed parts now count found).0) % 2 ^ 64
    unfolding build_parsed build_event
    build_parsed-count now count (none, cache) h = omega arith
    build_parsed-count now count (some fields, cache) h = rw traced (omega arith)

    -- The counter moves with the events that are built.
    abbrev Counts : Worker Err C W → Worker Err C W → Type 0
    Counts w w' =
        (k : ℕ) × (length (pending w') ≡ length (pending w) + k)
        × (w'.count ≡ (w.count + k) % 2 ^ 64)

    Builds-Counts :
        (w w' : Worker Err C W) (built : List Built × C × ℕ)
        → built.2 ≡ (w.count + length built.0) % 2 ^ 64
        → Builds parts w built w'
        → Counts w w'
    Builds-Counts w w' (built, cache, count) h (grown, _, same) =
        (length built, ap (λ es. length es) grown ∙ length-append (pending w) built, same ∙ h)

    consume_step-Counts :
        (w : Worker Err C W) (s : Signal) → w.count < 2 ^ 64 → Counts w (consume_step parts w s)
    consume_step-Counts w timer h =
        Builds-Counts w (consume_step parts w timer) (built_in parts w timer) (omega arith)
          (consume_step-Builds parts w timer)
    consume_step-Counts w (received e now) h =
        Builds-Counts w (consume_step parts w (received e now)) (built_in parts w (received e now))
          (build_parsed-count now w.count _ h) (consume_step-Builds parts w (received e now))

    flush-Counts : (w : Worker Err C W) → w.count < 2 ^ 64 → Counts w (flush parts w)
    flush-Counts w h =
        Builds-Counts w (flush parts w) ([], w.cache, w.count) (omega arith) (flush-Builds parts w)

    abbrev IsCounted : ℕ → System Err C W → Type 0
    IsCounted n s = s.count ≡ weigh built_by n s.seats % 2 ^ 64

    put_back-IsCounted :
        {n i : ℕ} (running : Bool) (s : System Err C W) (w' : Worker Err C W)
        → i < n
        → IsCounted n s
        → Counts (worker_at s i) w'
        → IsCounted n (put_back i running w' s)
    put_back-IsCounted {n} {i} running s w' lt h (k, grown, moved) =
        omega (arith, h, grown, moved, weigh-replace built_by n s.seats i (seat_of running w'))

    Step-IsCounted :
        {n : ℕ} {s t : System Err C W} {l : Label}
        → Step parts n s l t
        → IsCounted n s
        → IsCounted n t
    Step-IsCounted (writes e o w l) h = h
    Step-IsCounted {s} (takes i e rest now lt r q) h =
        put_back-IsCounted true (record s { queue = record s.queue { events = rest } })
          (consume_step parts (worker_at s i) (received e now)) lt h
          (consume_step-Counts (worker_at s i) (received e now) (omega (arith, h)))
    Step-IsCounted {s} (ticks i lt r) h =
        put_back-IsCounted true s (consume_step parts (worker_at s i) timer) lt h
          (consume_step-Counts (worker_at s i) timer (omega (arith, h)))
    Step-IsCounted (closes c) h = h
    Step-IsCounted {s} (exits i lt r c q) h =
        put_back-IsCounted false s (flush parts (worker_at s i)) lt h
          (flush-Counts (worker_at s i) (omega (arith, h)))

    weigh-opened :
        (n : ℕ) (cache : C) (states : ℕ → W)
        → weigh built_by n (opened {Err = Err} cache states).seats ≡ 0
    weigh-opened zero cache states = refl
    weigh-opened (suc n) cache states = omega (arith, weigh-opened n cache states)

    -- With event tracing, in every run of an opened sink, the counter is the number of all the events
    -- that the workers built, those posted and those in their batches, modulo 2 ^ 64: no event is
    -- counted twice and none is left out, in whatever order the workers take their turns.
    pub Run-counter :
        (cache : C) (states : ℕ → W) {n : ℕ} {ls : List Label} {t : System Err C W}
        → Run parts n (opened cache states) ls t
        → t.count ≡ weigh built_by n t.seats % 2 ^ 64
    Run-counter cache states {n} start = omega (arith, weigh-opened n cache states)
    Run-counter cache states (later run step) = Step-IsCounted step (Run-counter cache states run)
