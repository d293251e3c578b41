-- ===== src/Sink/Workers/Posts.antt =====
-- The posts of all workers, whatever the order of their turns.
use splunk_firehose_nozzle.Base.{
  ℕ, ◌<◌, Bool, true, false, List, [], ◌++◌, length, sym, subst, arith, All, All-append, Bool-cases,
  inl, inr, eqb,
}
use splunk_firehose_nozzle.Base.Family.{replace}
use splunk_firehose_nozzle.Sink.Parse.{parse_event}
use splunk_firehose_nozzle.Sink.Consume.{
  Signal, received, timer, Worker, Parts, flush, consume_step,
}
use splunk_firehose_nozzle.Sink.Consume.Order.{
  posted, pending, built_in, consume_step-Builds, flush-Builds,
}
use splunk_firehose_nozzle.Sink.Consume.Bounds.{
  Fits, IsBounded, flush-IsBounded, consume_step-IsBounded,
}
use splunk_firehose_nozzle.Sink.Consume.Prepared.{
  Prepares, IsTaken, All-left, posted-IsTaken, build_parsed-Prepares,
}
use splunk_firehose_nozzle.Sink.Workers.{
  Seat, System, Label, worker_at, seat_of, opened, Step, writes, takes, ticks, closes, exits, Run,
  start, later,
}
use splunk_firehose_nozzle.Writer.{WriterConfig}

module _ {Err C W : Type 0} (writer_config : WriterConfig) (parts : Parts Err C W) where
  -- The batch is below its limit, every post fits, and all its events are prepared without a panic.
  record IsSound (seat : Seat Err W) : Type 0 where
    room : length seat.batch < parts.config.batch_size
    posts_fit : All (Fits parts) seat.posts
    prepares : All (Prepares writer_config) (posted seat.posts ++ seat.batch)

  seat_of-IsSound :
      (running : Bool) (w : Worker Err C W)
      → IsBounded parts w
      → All (Prepares writer_config) (pending w)
      → IsSound (seat_of running w)
  seat_of-IsSound running w b p = record { room = b.room; posts_fit = b.posts_fit; prepares = p }

  worker_at-IsBounded :
      (s : System Err C W) (i : ℕ) → IsSound (s.seats i) → IsBounded parts (worker_at s i)
  worker_at-IsBounded s i h = record { room = h.room; posts_fit = h.posts_fit }

  built_in-Prepares :
      (w : Worker Err C W) (sg : Signal) → All (Prepares writer_config) (built_in parts w sg).0
  built_in-Prepares w timer = tt
  built_in-Prepares w (received e now) =
      build_parsed-Prepares writer_config parts now w.count
        (parse_event parts.get_app parts.parse_config e w.cache)

  pub consume_step-Prepares :
      (w : Worker Err C W) (sg : Signal)
      → All (Prepares writer_config) (pending w)
      → All (Prepares writer_config) (pending (consume_step parts w sg))
  consume_step-Prepares w sg h =
      subst (All (Prepares writer_config)) (sym (consume_step-Builds parts w sg).0)
        (All-append (Prepares writer_config) _ _ h (built_in-Prepares w sg))

  pub flush-Prepares :
      (w : Worker Err C W)
      → All (Prepares writer_config) (pending w)
      → All (Prepares writer_config) (pending (flush parts w))
  flush-Prepares w h =
      subst (All (Prepares writer_config)) (sym (flush-Builds parts w).0)
        (All-append (Prepares writer_config) _ [] h tt)

  abbrev AllSound : System Err C W → Type 0
  AllSound s = (i : ℕ) → IsSound (s.seats i)

  replace-IsSound :
      (f : ℕ → Seat Err W) (i : ℕ) (seat : Seat Err W)
      → ((j : ℕ) → IsSound (f j))
      → IsSound seat
      → (j : ℕ) → IsSound (replace f i seat j)
  replace-IsSound f i seat all h j = elim (Bool-cases (eqb i j)) [
    | inl same ↦ rw same h
    | inr other ↦ rw other (all j)
  ]

  consume_step-IsSound :
      (s : System Err C W) (i : ℕ) (sg : Signal)
      → IsSound (s.seats i)
      → IsSound (seat_of true (consume_step parts (worker_at s i) sg))
  consume_step-IsSound s i sg h =
      seat_of-IsSound true (consume_step parts (worker_at s i) sg)
        (consume_step-IsBounded parts (worker_at s i) sg (worker_at-IsBounded s i h))
        (consume_step-Prepares (worker_at s i) sg h.prepares)

  Step-AllSound :
      {n : ℕ} {s t : System Err C W} {l : Label} → Step parts n s l t → AllSound s → AllSound t
  Step-AllSound (writes e o w h) all = all
  Step-AllSound {s} (takes i e rest now lt r q) all = replace-IsSound s.seats i _ all (
      consume_step-IsSound (record s { queue = record s.queue { events = rest } }) i
        (received e now) (all i))
  Step-AllSound {s} (ticks i lt r) all =
      replace-IsSound s.seats i _ all (consume_step-IsSound s i timer (all i))
  Step-AllSound (closes o) all = all
  Step-AllSound {s} (exits i lt r k q) all = replace-IsSound s.seats i _ all (
      seat_of-IsSound false (flush parts (worker_at s i))
        (flush-IsBounded parts (worker_at s i) (omega (arith, (all i).room))
          (omega (arith, (all i).room)) (all i).posts_fit)
        (flush-Prepares (worker_at s i) (all i).prepares))

  Run-AllSound :
      (cache : C) (states : ℕ → W) {n : ℕ} {ls : List Label} {t : System Err C W}
      → 0 < parts.config.batch_size
      → Run parts n (opened cache states) ls t
      → AllSound t
  Run-AllSound cache states pos start = λ i. record { room = pos; posts_fit = tt; prepares = tt }
  Run-AllSound cache states pos (later run step) =
      Step-AllSound step (Run-AllSound cache states pos run)

  -- In every run of an opened sink whose batch limit is above zero, each post of each worker is not
  -- empty, holds at most as many events as the limit, and is prepared by Write without a panic.
  pub Run-posts :
      (cache : C) (states : ℕ → W) {n : ℕ} {ls : List Label} {t : System Err C W}
      → 0 < parts.config.batch_size
      → Run parts n (opened cache states) ls t
      → (i : ℕ) → All (Fits parts) (t.seats i).posts × All (IsTaken writer_config) (t.seats i).posts
  Run-posts cache states {t} pos run i =
      let sound = Run-AllSound cache states pos run i in
      (
        sound.posts_fit,
        posted-IsTaken writer_config (t.seats i).posts
            (All-left writer_config (posted (t.seats i).posts) (t.seats i).batch sound.prepares).0,
      )
