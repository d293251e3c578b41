-- ===== src/Sink/Http/Workers.antt =====
-- What each worker says over HTTP, whatever the order of their turns.
use splunk_firehose_nozzle.Base.{
  ℕ, true, false, Option, none, some, List, [], ◌∷◌, ◌++◌, length, leb, ◌≡◌, All, All-append,
  Bool-cases, inl, inr, eqb,
}
use splunk_firehose_nozzle.Base.Int.{ℤ}
use splunk_firehose_nozzle.Base.Family.{replace}
use splunk_firehose_nozzle.Sink.Parse.{parse_event}
use splunk_firehose_nozzle.Sink.Build.{build_event}
use splunk_firehose_nozzle.Sink.Consume.{
  Built, Signal, received, timer, Worker, Parts, flush, add_built, take_parsed, consume_step,
}
use splunk_firehose_nozzle.Sink.Consume.Order.{posted, pending}
use splunk_firehose_nozzle.Sink.Consume.Prepared.{
  Prepares, prepare_all-some, All-left, build_event-Prepares,
}
use splunk_firehose_nozzle.Sink.Workers.{
  Seat, System, Label, worker_at, seat_of, opened, Step, writes, takes, ticks, closes, exits, Run,
  start, later,
}
use splunk_firehose_nozzle.Sink.Workers.Posts.{consume_step-Prepares, flush-Prepares}
use splunk_firehose_nozzle.Sink.Http.{Exchange, recorded, IsWrite, AllTried, untried}
use splunk_firehose_nozzle.Sink.Http.Batch.{posted-AllTried}
use splunk_firehose_nozzle.Writer.{WriterConfig, Encoder, Transport, WriteError}

module _ {C T : Type 0} (transport : Transport T) (marshal : Encoder) (config : WriterConfig)
    (parts : Parts WriteError C (List Exchange × T))
    (is_write : IsWrite (recorded transport) marshal config parts.writer)
    (sends : config.debug ≡ false) where
  -- The exchanges of a worker are those of its posts.
  abbrev IsTold : Worker WriteError C (List Exchange × T) → Type 0
  IsTold w = AllTried marshal config parts.config.retries w.posts w.state.0

  abbrev IsReady : Worker WriteError C (List Exchange × T) → Type 0
  IsReady w = All (Prepares config) (pending w)

  flush-IsTold :
      (w : Worker WriteError C (List Exchange × T)) → IsReady w → IsTold w → IsTold (flush parts w)
  unfolding flush
  flush-IsTold w ready told =
      posted-AllTried transport marshal config parts.writer is_write sends parts.config w.posts
        w.batch w.state.0 w.state.1 told
        (prepare_all-some config w.batch (All-left config (posted w.posts) w.batch ready).1)

  add_built-IsTold :
      (w : Worker WriteError C (List Exchange × T)) (e : Built) (count : ℕ)
      → IsReady w
      → Prepares config e
      → IsTold w
      → IsTold (add_built parts w (e, count))
  unfolding add_built
  add_built-IsTold w e count ready fine told =
      let grown : Worker WriteError C (List Exchange × T) = record w {
        batch = w.batch ++ e ∷ [];
        count = count;
      } in
      let (before, held) = All-left config (posted w.posts) w.batch ready in
      let more : IsReady grown =
        All-append (Prepares config) (posted w.posts) (w.batch ++ e ∷ []) before
          (All-append (Prepares config) w.batch (e ∷ []) held (fine, tt)) in
      elim (Bool-cases (leb parts.config.batch_size (length (w.batch ++ e ∷ [])))) [
        | inl full ↦ rw full (flush-IsTold grown more told)
        | inr room ↦ rw room told
      ]

  take_parsed-IsTold :
      (w : Worker WriteError C (List Exchange × T)) (now : ℤ) (found : Option Built × C)
      → IsReady w
      → IsTold w
      → IsTold (take_parsed parts w now found)
  unfolding take_parsed
  take_parsed-IsTold w now (none, cache) ready told = told
  take_parsed-IsTold w now (some fields, cache) ready told =
      let (e, count) = build_event parts.config parts.runtime now fields w.count in
      add_built-IsTold (record w { cache = cache }) e count ready
        (build_event-Prepares config parts now fields w.count) told

  consume_step-IsTold :
      (w : Worker WriteError C (List Exchange × T)) (signal : Signal)
      → IsReady w
      → IsTold w
      → IsTold (consume_step parts w signal)
  unfolding consume_step
  consume_step-IsTold w timer ready told = flush-IsTold w ready told
  consume_step-IsTold w (received e now) ready told =
      take_parsed-IsTold w now (parse_event parts.get_app parts.parse_config e w.cache) ready told

  -- What holds of each seat.
  record IsKept (seat : Seat WriteError (List Exchange × T)) : Type 0 where
    prepares : All (Prepares config) (posted seat.posts ++ seat.batch)
    told : AllTried marshal config parts.config.retries seat.posts seat.state.0

  abbrev AllKept : System WriteError C (List Exchange × T) → Type 0
  AllKept s = (i : ℕ) → IsKept (s.seats i)

  replace-IsKept :
      (f : ℕ → Seat WriteError (List Exchange × T)) (i : ℕ)
      (seat : Seat WriteError (List Exchange × T))
      → ((j : ℕ) → IsKept (f j))
      → IsKept seat
      → (j : ℕ) → IsKept (replace f i seat j)
  replace-IsKept f i seat all h j = elim (Bool-cases (eqb i j)) [
    | inl same ↦ rw same h
    | inr other ↦ rw other (all j)
  ]

  consume_step-IsKept :
      (s : System WriteError C (List Exchange × T)) (i : ℕ) (signal : Signal)
      → IsKept (s.seats i)
      → IsKept (seat_of true (consume_step parts (worker_at s i) signal))
  consume_step-IsKept s i signal h = record {
    prepares = consume_step-Prepares config parts (worker_at s i) signal h.prepares;
    told = consume_step-IsTold (worker_at s i) signal h.prepares h.told;
  }

  Step-AllKept :
      {n : ℕ} {s t : System WriteError C (List Exchange × T)} {l : Label}
      → Step parts n s l t
      → AllKept s
      → AllKept t
  Step-AllKept (writes e o w h) all = all
  Step-AllKept {s} (takes i e rest now lt r q) all = replace-IsKept s.seats i _ all (
      consume_step-IsKept (record s { queue = record s.queue { events = rest } }) i (received e now)
        (all i))
  Step-AllKept {s} (ticks i lt r) all =
      replace-IsKept s.seats i _ all (consume_step-IsKept s i timer (all i))
  Step-AllKept (closes o) all = all
  Step-AllKept {s} (exits i lt r k q) all = replace-IsKept s.seats i _ all (record {
    prepares = flush-Prepares config parts (worker_at s i) (all i).prepares;
    told = flush-IsTold (worker_at s i) (all i).prepares (all i).told;
  })

  Run-AllKept :
      (cache : C) (states : ℕ → T) {n : ℕ} {ls : List Label}
      {t : System WriteError C (List Exchange × T)}
      → Run parts n (opened cache (λ i. ([], states i))) ls t
      → AllKept t
  Run-AllKept cache states start = λ i. record { prepares = tt; told = untried }
  Run-AllKept cache states (later run step) = Step-AllKept step (Run-AllKept cache states run)

  pub Run-AllTried :
      (cache : C) (states : ℕ → T) {n : ℕ} {ls : List Label}
      {t : System WriteError C (List Exchange × T)}
      → Run parts n (opened cache (λ i. ([], states i))) ls t
      → (i : ℕ) → AllTried marshal config parts.config.retries (t.seats i).posts (t.seats i).state.0
  Run-AllTried cache states run i = (Run-AllKept cache states run i).told
