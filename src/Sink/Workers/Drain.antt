-- ===== src/Sink/Workers/Drain.antt =====
-- After Close the workers empty the queue and return.
use splunk_firehose_nozzle.Base.{
  ℕ, zero, suc, ◌+◌, ◌<◌, true, false, List, [], ◌∷◌, ◌++◌, length, ◌≡◌, refl, ap, ◌∙◌, arith,
  Bool-cases, inl, inr, eqb, if◌then◌else◌,
}
use splunk_firehose_nozzle.Base.Int.{pos}
use splunk_firehose_nozzle.Base.Family.{replace, weigh, weigh-replace, weight-le-weigh}
use splunk_firehose_nozzle.Events.Envelope.{Envelope}
use splunk_firehose_nozzle.Sink.Consume.{received, timer, Worker, Parts, flush, consume_step}
use splunk_firehose_nozzle.Sink.Consume.Order.{batch-index_events}
use splunk_firehose_nozzle.Sink.Workers.{
  Seat, System, Label, took, exited, worker_at, seat_of, opened, Step, writes, takes, ticks, closes,
  exits, Run, start, later,
}

-- The turns that bring the end nearer: those that take an envelope, and the exits.
abbrev pub is_turn : Label → ℕ
is_turn (took i e) = 1
is_turn (exited i) = 1
is_turn _ = 0

abbrev pub turns : List Label → ℕ
turns [] = 0
turns (l ∷ ls) = is_turn l + turns ls

turns-snoc : (ls : List Label) (l : Label) → turns (ls ++ l ∷ []) ≡ turns ls + is_turn l
turns-snoc [] l = omega arith
turns-snoc (k ∷ ls) l = omega (arith, turns-snoc ls l)

module _ {Err W : Type 0} where
  abbrev pub up : Seat Err W → ℕ
  up seat = if seat.running then 1 else 0

  -- A worker that has not returned, if there is one.
  some_up :
      (n : ℕ) (f : ℕ → Seat Err W) → 0 < weigh up n f → (i : ℕ) × (i < n) × ((f i).running ≡ true)
  some_up zero f h = absurd (omega (arith, h))
  some_up (suc n) f h = elim (Bool-cases (f n).running) [
    | inl on ↦ (n, omega arith, on)
    | inr off ↦ let (i, lt, on) = some_up n f (ground (arith, h)) in (i, omega (arith, lt), on)
  ]

  none_up : (n : ℕ) (f : ℕ → Seat Err W) (i : ℕ) → weigh up n f ≡ 0 → i < n → (f i).running ≡ false
  none_up n f i h lt = ground (arith, weight-le-weigh up n f i lt)

module _ {Err C W : Type 0} where
  -- The envelopes that wait, and the workers that have not returned.
  abbrev pub work_left : ℕ → System Err C W → ℕ
  work_left n s = length s.queue.events + weigh up n s.seats

  -- All workers have returned, the queue is empty, and no event is left in a batch.
  abbrev pub IsDrained : ℕ → System Err C W → Type 0
  IsDrained n t =
      (t.queue.events ≡ [])
      × ((i : ℕ) → i < n → ((t.seats i).running ≡ false) × ((t.seats i).batch ≡ []))

  module _ (parts : Parts Err C W) where
    up_running : (s : System Err C W) (i : ℕ) → (s.seats i).running ≡ true → up (s.seats i) ≡ 1
    up_running s i r = rw r

    Step-turn :
        {n : ℕ} {s t : System Err C W} {l : Label}
        → Step parts n s l t
        → s.closed ≡ true
        → (t.closed ≡ true) × (is_turn l + work_left n t ≡ work_left n s)
    Step-turn (writes e o w h) c = absurd (ground arith)
    Step-turn {n} {s} (takes i e rest now lt r q) c = (
      c,
      omega (
        arith,
        ap (λ es. length es) q,
        up_running s i r,
        weigh-replace up n s.seats i
            (seat_of true (consume_step parts (worker_at s i) (received e now))) lt,
      ),
    )
    Step-turn {n} {s} (ticks i lt r) c = (
      c,
      omega (
        arith,
        up_running s i r,
        weigh-replace up n s.seats i (seat_of true (consume_step parts (worker_at s i) timer)) lt,
      ),
    )
    Step-turn (closes o) c = absurd (ground arith)
    Step-turn {n} {s} (exits i lt r k q) c = (
      c,
      omega (
        arith,
        up_running s i r,
        weigh-replace up n s.seats i (seat_of false (flush parts (worker_at s i))) lt,
      ),
    )

    -- After Close, no run has more turns than there are envelopes left and workers up: every turn that
    -- is not a timer's brings the end one nearer.
    pub Run-turns :
        {n : ℕ} (s : System Err C W) {ls : List Label} {t : System Err C W}
        → s.closed ≡ true
        → Run parts n s ls t
        → (t.closed ≡ true) × (turns ls + work_left n t ≡ work_left n s)
    Run-turns s c start = (c, omega arith)
    Run-turns s c (later {ls} {l} run step) =
        let (c', left) = Run-turns s c run in
        let (c2, one) = Step-turn step c' in (c2, omega (arith, left, one, turns-snoc ls l))

    -- Until the queue is closed and empty every worker is up, and one that has returned has nothing
    -- left in its batch.
    record Attends (n : ℕ) (s : System Err C W) : Type 0 where
      gone :
          (i : ℕ)
          → i < n
          → (s.seats i).running ≡ false
          → (s.closed ≡ true) × (s.queue.events ≡ []) × ((s.seats i).batch ≡ [])

    -- A seat that has returned is none that was put back by a running worker.
    other_seat :
        (f : ℕ → Seat Err W) (i j : ℕ) (seat : Seat Err W)
        → seat.running ≡ true
        → (replace f i seat j).running ≡ false
        → ((f j).running ≡ false) × ((replace f i seat j).batch ≡ (f j).batch)
    other_seat f i j seat on off = ground arith

    batch-flush : (w : Worker Err C W) → (flush parts w).batch ≡ []
    unfolding flush
    batch-flush w = batch-index_events parts.writer parts.config w.batch w.state

    exited_batch :
        (s : System Err C W) (i j : ℕ)
        → ((s.seats j).running ≡ false → (s.seats j).batch ≡ [])
        → (replace s.seats i (seat_of false (flush parts (worker_at s i))) j).running ≡ false
        → (replace s.seats i (seat_of false (flush parts (worker_at s i))) j).batch ≡ []
    exited_batch s i j others off = elim (Bool-cases (eqb i j)) [
      | inl same ↦ rw same (batch-flush (worker_at s i))
      | inr other ↦ rw other (others (ground arith))
    ]

    Step-Attends :
        {n : ℕ} {s t : System Err C W} {l : Label} → Step parts n s l t → Attends n s → Attends n t
    Step-Attends (writes e o w h) a = record {
      gone = λ i lt off. absurd (ground (arith, a.gone i lt off));
    }
    Step-Attends {n} {s} (takes i e rest now lt r q) a = record {
      gone =
          λ j ltj off. absurd (ground (arith, a.gone j ltj (other_seat s.seats i j _ refl off).0));
    }
    Step-Attends {n} {s} (ticks i lt r) a = record {
      gone = λ j ltj off.
          let (off', same) =
            other_seat s.seats i j (seat_of true (consume_step parts (worker_at s i) timer)) refl
              off in
          let (c, empty, done) = a.gone j ltj off' in (c, empty, same ∙ done);
    }
    Step-Attends (closes o) a = record {
      gone = λ i lt off. let (c, empty, done) = a.gone i lt off in (refl, empty, done);
    }
    Step-Attends {n} {s} (exits i lt r k q) a = record {
      gone = λ j ltj off. (k, q, exited_batch s i j (λ off'. (a.gone j ltj off').2) off);
    }

    -- A turn that can be taken while work is left, and the state behind it.
    abbrev Turn : ℕ → System Err C W → Type 0
    Turn n s = (l : Label) × (t : System Err C W) × Step parts n s l t × (is_turn l ≡ 1)

    next_turn :
        (n k : ℕ) (s : System Err C W) (events : List Envelope)
        → 0 < n
        → s.closed ≡ true
        → Attends n s
        → s.queue.events ≡ events
        → length events + weigh up n s.seats ≡ suc k
        → Turn n s
    next_turn n k s (e ∷ rest) some_worker c a q left = (
      took 0 e,
      _,
      takes 0 e rest (pos 0) some_worker (ground (arith, a.gone 0 some_worker)) q,
      refl,
    )
    next_turn n k s [] some_worker c a q left =
        let (i, lt, on) = some_up n s.seats (omega (arith, left)) in
        (exited i, _, exits i lt on c q, refl)

    Run-Attends :
        (cache : C) (states : ℕ → W) {n : ℕ} {ls : List Label} {t : System Err C W}
        → Run parts n (opened cache states) ls t
        → Attends n t
    Run-Attends cache states start = record { gone = λ i lt off. absurd (ground arith) }
    Run-Attends cache states (later run step) = Step-Attends step (Run-Attends cache states run)

    drained : (n : ℕ) (t : System Err C W) → Attends n t → work_left n t ≡ 0 → IsDrained n t
    drained n t a left = (
      no_events t.queue.events (omega (arith, left)),
      λ i lt. let off = none_up n t.seats i (omega (arith, left)) lt in (off, (a.gone i lt off).2),
    )
      where
        no_events : (es : List Envelope) → length es ≡ 0 → es ≡ []
        no_events [] h = refl
        no_events (e ∷ es) h = absurd (omega (arith, h))

    drain_from :
        (s : System Err C W) (n k : ℕ) (ls : List Label) (t : System Err C W)
        → 0 < n
        → t.closed ≡ true
        → Attends n t
        → work_left n t ≡ k
        → Run parts n s ls t
        → (ls' : List Label) × (u : System Err C W) × Run parts n s ls' u
          × (turns ls' ≡ turns ls + k)
          × IsDrained n u
    drain_from s n zero ls t some_worker c a left run =
        (ls, t, run, omega arith, drained n t a left)
    drain_from s n (suc k) ls t some_worker c a left run =
        let (l, u, step, one) = next_turn n k t t.queue.events some_worker c a refl left in
        let (c', fewer) = Step-turn step c in
        let (ls', v, run', count, done) =
          drain_from s n k (ls ++ l ∷ []) u some_worker c' (Step-Attends step a)
            (omega (arith, one, fewer, left)) (later run step) in
        (ls', v, run', omega (arith, count, one, turns-snoc ls l), done)

    -- However an opened sink with at least one worker has run until its queue was closed, it can go on
    -- to its end, by as many turns as envelopes are left and workers up: every worker then has
    -- returned, the queue is empty and no batch holds an event.
    pub Run-drains :
        (cache : C) (states : ℕ → W) {n : ℕ} {ls : List Label} {t : System Err C W}
        → 0 < n
        → t.closed ≡ true
        → Run parts n (opened cache states) ls t
        → (ls' : List Label) × (u : System Err C W) × Run parts n t ls' u
          × (turns ls' ≡ work_left n t)
          × IsDrained n u
    Run-drains cache states {n} {ls} {t} some_worker c run =
        let (ls', u, run', count, done) =
          drain_from t n (work_left n t) [] t some_worker c (Run-Attends cache states run) refl
            start in
        (ls', u, run', omega (arith, count), done)
