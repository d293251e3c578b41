-- ===== src/Sink/Workers/Fifo.antt =====
-- No envelope is lost or doubled between Write and the workers.
use mathlib.Core.List.{append_assoc, append-nil}
use splunk_firehose_nozzle.Base.{
  ℕ, ◌+◌, ◌%◌, ◌^◌, ◌<◌, List, [], ◌∷◌, ◌++◌, length, ltb, ◌≡◌, refl, sym, ap, ◌∙◌, ◌≡⟨◌⟩◌, ◌∎,
  arith, Bool-cases, inl, inr,
}
use splunk_firehose_nozzle.Events.Envelope.{Envelope}
use splunk_firehose_nozzle.Sink.Queue.Effect.{write-queued, write-dropped}
use splunk_firehose_nozzle.Sink.Consume.{Parts}
use splunk_firehose_nozzle.Sink.Workers.{
  System, Label, queued, dropped, took, opened, Step, writes, takes, ticks, closes, exits, Run,
  start, later,
}

abbrev queued_by : Label → List Envelope
queued_by (queued e) = e ∷ []
queued_by l = []

abbrev pub taken_by : Label → List Envelope
taken_by (took i e) = e ∷ []
taken_by l = []

abbrev dropped_by : Label → ℕ
dropped_by (dropped e) = 1
dropped_by l = 0

-- The envelopes that Write put into the queue, those that the workers took out, and the number of
-- those that it dropped, in the order of time.
abbrev pub all_queued : List Label → List Envelope
all_queued [] = []
all_queued (l ∷ ls) = queued_by l ++ all_queued ls

abbrev pub all_taken : List Label → List Envelope
all_taken [] = []
all_taken (l ∷ ls) = taken_by l ++ all_taken ls

abbrev pub all_dropped : List Label → ℕ
all_dropped [] = 0
all_dropped (l ∷ ls) = dropped_by l + all_dropped ls

all_queued-snoc :
    (ls : List Label) (l : Label) → all_queued (ls ++ l ∷ []) ≡ all_queued ls ++ queued_by l
all_queued-snoc [] l = append-nil (queued_by l)
all_queued-snoc (k ∷ ls) l =
    rw (all_queued-snoc ls l) (sym (append_assoc (queued_by k) (all_queued ls) (queued_by l)))

pub all_taken-snoc :
    (ls : List Label) (l : Label) → all_taken (ls ++ l ∷ []) ≡ all_taken ls ++ taken_by l
all_taken-snoc [] l = append-nil (taken_by l)
all_taken-snoc (k ∷ ls) l =
    rw (all_taken-snoc ls l) (sym (append_assoc (taken_by k) (all_taken ls) (taken_by l)))

all_dropped-snoc :
    (ls : List Label) (l : Label) → all_dropped (ls ++ l ∷ []) ≡ all_dropped ls + dropped_by l
all_dropped-snoc [] l = omega arith
all_dropped-snoc (k ∷ ls) l = omega (arith, all_dropped-snoc ls l)

module _ {Err C W : Type 0} (parts : Parts Err C W) where
  -- What a step does to the queue.
  abbrev Accounts : System Err C W → Label → System Err C W → Type 0
  Accounts s l t =
      (taken_by l ++ t.queue.events ≡ s.queue.events ++ queued_by l)
      × (t.queue.dropped_events ≡ (s.queue.dropped_events + dropped_by l) % 2 ^ 64)

  Step-Accounts :
      {n : ℕ} {s t : System Err C W} {l : Label}
      → Step parts n s l t
      → s.queue.dropped_events < 2 ^ 64
      → Accounts s l t
  Step-Accounts {s} (writes e {q} {l} open_ w h) small =
      elim (Bool-cases (ltb (length s.queue.events) parts.config.queue_size)) [
        | inl free ↦ ground (arith, write-queued parts.config e s.queue q)
        | inr full ↦
            ground (arith, write-dropped parts.config e s.queue q, append-nil s.queue.events)
      ]
  Step-Accounts {s} (takes i e rest now lt r q) small =
      (sym q ∙ sym (append-nil s.queue.events), omega arith)
  Step-Accounts {s} (ticks i lt r) small = (sym (append-nil s.queue.events), omega arith)
  Step-Accounts {s} (closes h) small = (sym (append-nil s.queue.events), omega arith)
  Step-Accounts {s} (exits i lt r c q) small = (sym (append-nil s.queue.events), omega arith)

  extended :
      (t u : System Err C W) (ls : List Label) (l : Label)
      → all_taken ls ++ t.queue.events ≡ all_queued ls
      → taken_by l ++ u.queue.events ≡ t.queue.events ++ queued_by l
      → all_taken (ls ++ l ∷ []) ++ u.queue.events ≡ all_queued (ls ++ l ∷ [])
  extended t u ls l h k =
      all_taken (ls ++ l ∷ []) ++ u.queue.events
      ≡⟨ (rw all_taken-snoc (append_assoc (all_taken ls) (taken_by l) u.queue.events)) ⟩
        all_taken ls ++ (taken_by l ++ u.queue.events)
      ≡⟨ ap (λ es. all_taken ls ++ es) k ⟩ all_taken ls ++ (t.queue.events ++ queued_by l)
      ≡⟨ sym (append_assoc (all_taken ls) t.queue.events (queued_by l)) ⟩
        (all_taken ls ++ t.queue.events) ++ queued_by l
      ≡⟨ (rw (h, all_queued-snoc)) ⟩ all_queued (ls ++ l ∷ []) ∎

  -- In every run of an opened sink, with any number of workers taking turns in any order: the
  -- envelopes that the workers took, and behind them those that wait in the queue, are exactly those
  -- that Write queued, in their order; every other that was written is counted as dropped, modulo
  -- 2 ^ 64.
  pub Run-fifo :
      (cache : C) (states : ℕ → W) {n : ℕ} {ls : List Label} {t : System Err C W}
      → Run parts n (opened cache states) ls t
      → (all_taken ls ++ t.queue.events ≡ all_queued ls)
        × (t.queue.dropped_events ≡ all_dropped ls % 2 ^ 64)
  Run-fifo cache states start = (refl, omega arith)
  Run-fifo cache states {t = u} (later {ls} {l} {t} run step) =
      let (kept, counted) = Run-fifo cache states run in
      let (moved, lost) = Step-Accounts step (omega (arith, counted)) in
      (extended t u ls l kept moved, omega (arith, counted, lost, all_dropped-snoc ls l))
