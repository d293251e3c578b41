-- ===== src/Examples/Workers.antt =====
-- The theorems about several workers on a run of two.
use splunk_firehose_nozzle.Base.{
  ℕ, ◌+◌, ◌<◌, ◌%◌, ◌^◌, String, true, List, [], ◌∷◌, ◌++◌, some, ◌≡◌, refl, All, arith,
}
use splunk_firehose_nozzle.Base.Int.{pos}
use splunk_firehose_nozzle.Base.Family.{weigh}
use splunk_firehose_nozzle.Events.Envelope.{Envelope}
use splunk_firehose_nozzle.Sink.Queue.{Queue, write, note_total}
use splunk_firehose_nozzle.Sink.Consume.Bounds.{Fits}
use splunk_firehose_nozzle.Sink.Consume.Prepared.{IsTaken}
use splunk_firehose_nozzle.Sink.Workers.{
  System, Label, opened, writes, takes, ticks, closes, Run, start, later,
}
use splunk_firehose_nozzle.Sink.Consume.Order.{posted}
use splunk_firehose_nozzle.Sink.Workers.Made.{all_taken_at, Makes}
use splunk_firehose_nozzle.Sink.Workers.Finish.{Run-finishes}
use splunk_firehose_nozzle.Sink.Consume.Calls.{Watched, observed, AllAttempts}
use splunk_firehose_nozzle.Sink.Workers.Fifo.{all_queued, all_taken, all_dropped, Run-fifo}
use splunk_firehose_nozzle.Sink.Workers.Counter.{built_by, Run-counter}
use splunk_firehose_nozzle.Sink.Workers.Drain.{turns, work_left, IsDrained, Run-turns}
use splunk_firehose_nozzle.Sink.Workers.Posts.{Run-posts}
use splunk_firehose_nozzle.Examples.World.{log_of, sink_config, parts, writer_config}

abbrev fresh : System String (Unit {0}) ℕ
fresh = opened tt (λ i. 0)

abbrev holding : List Envelope → ℕ → Queue Envelope
holding es n = record { events = es; dropped_events = n; warnings = [] }

abbrev one : Envelope
one = log_of "app-2" "one"

abbrev two : Envelope
two = log_of "" "two"

first_taken : write sink_config one (holding [] 0) ≡ some (holding (one ∷ []) 0)
unfolding write
first_taken = refl

second_taken : write sink_config two (holding (one ∷ []) 0) ≡ some (holding (one ∷ two ∷ []) 0)
unfolding write
second_taken = refl

other_taken : write sink_config two (holding [] 0) ≡ some (holding (two ∷ []) 0)
unfolding write
other_taken = refl

third_dropped :
    write sink_config one (holding (one ∷ two ∷ []) 0) ≡ some (holding (one ∷ two ∷ []) 1)
unfolding write note_total
third_dropped = refl

-- Two envelopes are queued and a third is dropped; worker 1 takes one, worker 0 ticks, and Close comes.
abbrev closed_run : (ls : List Label) × (t : System String (Unit {0}) ℕ) × Run parts 2 fresh ls t
closed_run = (
  _,
  _,
  later
      (later
        (later
          (later
            (later (later start (writes one refl first_taken refl))
              (writes two refl second_taken refl))
            (writes one refl third_dropped refl))
          (takes 1 one (two ∷ []) (pos 5) (omega arith) refl refl))
        (ticks 0 (omega arith) refl))
      (closes refl),
)

Run-fifo_example :
    (all_taken closed_run.0 ++ closed_run.1.queue.events ≡ all_queued closed_run.0)
    × (closed_run.1.queue.dropped_events ≡ all_dropped closed_run.0 % 2 ^ 64)
Run-fifo_example = Run-fifo parts tt (λ i. 0) closed_run.2

Run-counter_example : closed_run.1.count ≡ weigh built_by 2 closed_run.1.seats % 2 ^ 64
Run-counter_example = Run-counter parts refl tt (λ i. 0) closed_run.2

Run-posts_example :
    All (Fits parts) (closed_run.1.seats 1).posts
    × All (IsTaken writer_config) (closed_run.1.seats 1).posts
Run-posts_example = Run-posts writer_config parts tt (λ i. 0) (omega arith) closed_run.2 1

-- The two workers take the last envelope and return.
abbrev last_run :
    (ls : List Label) × (t : System String (Unit {0}) ℕ) × Run parts 2 closed_run.1 ls t
last_run = (_, _, later start (takes 0 two [] (pos 6) (omega arith) refl refl))

Run-turns_example :
    (last_run.1.closed ≡ true)
    × (turns last_run.0 + work_left 2 last_run.1 ≡ work_left 2 closed_run.1)
Run-turns_example = Run-turns parts closed_run.1 refl last_run.2

abbrev watched : System String (Unit {0}) (Watched String ℕ)
watched = opened tt (λ i. ([], 0))

-- An envelope is queued, worker 1 takes it, another is queued, and Close comes.
abbrev watched_run :
    (ls : List Label) × (t : System String (Unit {0}) (Watched String ℕ)) × Run
      (observed parts)
      2
      watched
      ls
      t
watched_run = (
  _,
  _,
  later
      (later
        (later (later start (writes one refl first_taken refl))
          (takes 1 one [] (pos 5) (omega arith) refl refl))
        (writes two refl other_taken refl))
      (closes refl),
)

Run-finishes_example :
    (ls' : List Label) × (u : System String (Unit {0}) (Watched String ℕ)) × Run
      (observed parts)
      2
      watched_run.1
      ls'
      u
    × (turns ls' ≡ work_left 2 watched_run.1)
    × IsDrained 2 u
    × ((i : ℕ)
        → i < 2
        → Makes (observed parts) (all_taken_at i (watched_run.0 ++ ls')) (posted (u.seats i).posts)
          × AllAttempts 5 (u.seats i).posts (u.seats i).state.0)
Run-finishes_example = Run-finishes parts tt (λ i. 0) (omega arith) refl watched_run.2
