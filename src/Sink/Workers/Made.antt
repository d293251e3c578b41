-- ===== src/Sink/Workers/Made.antt =====
-- What each worker makes of the envelopes that it took, whatever the others do in between.
use mathlib.Core.List.{append_assoc, append-nil}
use splunk_firehose_nozzle.Base.{
  ℕ, Bool, true, false, Option, none, some, List, [], ◌∷◌, ◌++◌, length, ltb, ◌≡◌, refl, sym, ap,
  subst, arith, eqb, Bool-cases, inl, inr, if◌then◌else◌,
}
use splunk_firehose_nozzle.Base.Int.{ℤ}
use splunk_firehose_nozzle.Base.Family.{replace}
use splunk_firehose_nozzle.Events.Envelope.{Envelope}
use splunk_firehose_nozzle.Sink.Queue.{Queue}
use splunk_firehose_nozzle.Sink.Parse.{parse_event}
use splunk_firehose_nozzle.Sink.Build.{build_event}
use splunk_firehose_nozzle.Sink.Consume.{Built, received, timer, Worker, Parts, flush, consume_step}
use splunk_firehose_nozzle.Sink.Consume.Order.{
  posted, pending, build_parsed, flush-Builds, consume_step-Builds,
}
use splunk_firehose_nozzle.Sink.Workers.{
  Seat, System, Label, took, ticked, closed_queue, exited, worker_at, seat_of, opened, write_label,
  Step, writes, takes, ticks, closes, exits, Run, start, later,
}

-- The envelopes that a worker took.
abbrev pub taken_at : ℕ → Label → List Envelope
taken_at i (took j e) = if eqb j i then e ∷ [] else []
taken_at i l = []

abbrev pub all_taken_at : ℕ → List Label → List Envelope
all_taken_at i [] = []
all_taken_at i (l ∷ ls) = taken_at i l ++ all_taken_at i ls

pub all_taken_at-snoc :
    (i : ℕ) (ls : List Label) (l : Label)
    → all_taken_at i (ls ++ l ∷ []) ≡ all_taken_at i ls ++ taken_at i l
all_taken_at-snoc i [] l = append-nil (taken_at i l)
all_taken_at-snoc i (k ∷ ls) l =
    rw (all_taken_at-snoc i ls l)
      (sym (append_assoc (taken_at i k) (all_taken_at i ls) (taken_at i l)))

-- The events that are built of envelopes, in order: of each at most one, which is what buildEvent makes
-- of the fields that parseEvent makes of it, at some state of the cache, some time and some count.
pub data Makes {Err C W : Type 0} (parts : Parts Err C W)
    : List Envelope → List Built → Type 0 where
  nothing_made : Makes parts [] []
  passed_over :
      {es : List Envelope} {bs : List Built} (e : Envelope) (cache : C)
      → Makes parts es bs
      → (parse_event parts.get_app parts.parse_config e cache).0 ≡ none
      → Makes parts (es ++ e ∷ []) bs
  made :
      {es : List Envelope} {bs : List Built} (e : Envelope) (cache : C) (fields : Built) (now : ℤ)
      (count : ℕ)
      → Makes parts es bs
      → (parse_event parts.get_app parts.parse_config e cache).0 ≡ some fields
      → Makes parts
          (es ++ e ∷ [])
          (bs ++ (build_event parts.config parts.runtime now fields count).0 ∷ [])

module _ {Err C W : Type 0} (parts : Parts Err C W) where
  parsed-Makes :
      (es : List Envelope) (bs : List Built) (e : Envelope) (now : ℤ) (cache : C) (count : ℕ)
      (found : Option Built × C)
      → parse_event parts.get_app parts.parse_config e cache ≡ found
      → Makes parts es bs
      → Makes parts (es ++ e ∷ []) (bs ++ (build_parsed parts now count found).0)
  unfolding build_parsed
  parsed-Makes es bs e now cache count (none, cache') at h =
      rw (append-nil bs) (passed_over e cache h (ap (λ (x : Option Built × C). x.0) at))
  parsed-Makes es bs e now cache count (some fields, cache') at h =
      made e cache fields now count h (ap (λ (x : Option Built × C). x.0) at)

  abbrev AllMade : List Label → System Err C W → Type 0
  AllMade ls s =
      (i : ℕ) → Makes parts (all_taken_at i ls) (posted (s.seats i).posts ++ (s.seats i).batch)

  written_takes_none :
      (i : ℕ) (q : Queue Envelope) (e : Envelope) (l : Label)
      → write_label parts q e ≡ l
      → taken_at i l ≡ []
  written_takes_none i q e l h = elim (Bool-cases (ltb (length q.events) parts.config.queue_size)) [
    | inl free ↦ ground (arith, h, free)
    | inr full ↦ ground (arith, h, full)
  ]

  same_worker : (i : ℕ) → eqb i i ≡ true
  same_worker i = ground arith

  -- A step in which no worker takes anything.
  none_taken :
      (ls : List Label) (l : Label) (i : ℕ) (bs : List Built)
      → taken_at i l ≡ []
      → Makes parts (all_taken_at i ls) bs
      → Makes parts (all_taken_at i (ls ++ l ∷ [])) bs
  none_taken ls l i bs h m = rw (all_taken_at-snoc i ls l, h, append-nil (all_taken_at i ls)) m

  replace-Makes :
      (f : ℕ → Seat Err W) (i : ℕ) (seat : Seat Err W) (es : ℕ → List Envelope)
      → ((j : ℕ) → (eqb i j ≡ false) → Makes parts (es j) (posted (f j).posts ++ (f j).batch))
      → Makes parts (es i) (posted seat.posts ++ seat.batch)
      → (j : ℕ)
      → Makes parts (es j) (posted (replace f i seat j).posts ++ (replace f i seat j).batch)
  replace-Makes f i seat es others own j = elim (Bool-cases (eqb i j)) [
    | inl same ↦ rw same (
        subst (λ (k : ℕ). Makes parts (es k) (posted seat.posts ++ seat.batch))
          (ground (arith, same)) own)
    | inr other ↦ rw other (others j other)
  ]

  kept-Makes :
      (s : System Err C W) (ls : List Label) (l : Label) (i : ℕ) (running : Bool)
      (w : Worker Err C W)
      → ((j : ℕ) → taken_at j l ≡ [])
      → pending w ≡ pending (worker_at s i) ++ []
      → AllMade ls s
      → (j : ℕ)
      → Makes parts (all_taken_at j (ls ++ l ∷ [])) (
          posted (replace s.seats i (seat_of running w) j).posts
          ++ (replace s.seats i (seat_of running w) j).batch)
  kept-Makes s ls l i running w quiet same all =
      replace-Makes s.seats i (seat_of running w) (λ j. all_taken_at j (ls ++ l ∷ []))
        (λ j other. none_taken ls l j _ (quiet j) (all j))
        (none_taken ls l i _ (quiet i) (rw (same, append-nil (pending (worker_at s i))) (all i)))

  Step-AllMade :
      {n : ℕ} {s t : System Err C W} {l : Label} (ls : List Label)
      → Step parts n s l t
      → AllMade ls s
      → AllMade (ls ++ l ∷ []) t
  Step-AllMade {s} ls (writes e {l = l} o w h) all =
      λ i. none_taken ls l i _ (written_takes_none i s.queue e l h) (all i)
  Step-AllMade {s} ls (takes i e rest now lt r q) all =
      let grown = (consume_step-Builds parts (worker_at s i) (received e now)).0 in
      replace-Makes s.seats i (seat_of true (consume_step parts (worker_at s i) (received e now)))
        (λ j. all_taken_at j (ls ++ took i e ∷ []))
        (λ j other. none_taken ls (took i e) j _ (rw other refl) (all j))
        (rw (all_taken_at-snoc i ls (took i e), grown)
          (rw (same_worker i) (
            parsed-Makes (all_taken_at i ls) (pending (worker_at s i)) e now s.cache s.count
              (parse_event parts.get_app parts.parse_config e s.cache) refl (all i))))
  Step-AllMade {s} ls (ticks i lt r) all =
      kept-Makes s ls (ticked i) i true (consume_step parts (worker_at s i) timer) (λ j. refl)
        (consume_step-Builds parts (worker_at s i) timer).0 all
  Step-AllMade ls (closes c) all = λ i. none_taken ls closed_queue i _ refl (all i)
  Step-AllMade {s} ls (exits i lt r c q) all =
      kept-Makes s ls (exited i) i false (flush parts (worker_at s i)) (λ j. refl)
        (flush-Builds parts (worker_at s i)).0 all

  -- In every run of an opened sink, with any number of workers taking turns in any order: what each
  -- worker has posted or holds in its batch is what it made of the envelopes that it took itself, in the
  -- order in which it took them: of each of them at most one event, which is what buildEvent makes of
  -- the fields of parseEvent, and none only where parseEvent gives no fields.
  pub Run-AllMade :
      (cache : C) (states : ℕ → W) {n : ℕ} {ls : List Label} {t : System Err C W}
      → Run parts n (opened cache states) ls t
      → AllMade ls t
  Run-AllMade cache states start = λ i. nothing_made
  Run-AllMade cache states (later {ls} run step) =
      Step-AllMade ls step (Run-AllMade cache states run)
