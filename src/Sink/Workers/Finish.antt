-- ===== src/Sink/Workers/Finish.antt =====
-- After Close everything that the workers took is posted, by calls of their writers.
use mathlib.Core.List.{append_assoc, append-nil}
use splunk_firehose_nozzle.Base.{
  ℕ, ◌<◌, true, List, [], ◌∷◌, ◌++◌, ◌≡◌, sym, subst, eqb, Bool-cases, inl, inr, ap, ◌∙◌,
}
use splunk_firehose_nozzle.Base.Family.{replace}
use splunk_firehose_nozzle.Sink.Consume.{received, timer, Parts}
use splunk_firehose_nozzle.Sink.Consume.Order.{posted}
use splunk_firehose_nozzle.Sink.Consume.Calls.{
  AllAttempts, none_posted, Watched, observed, consume_step-IsCalled, flush-IsCalled,
}
use splunk_firehose_nozzle.Sink.Workers.{
  Seat, System, Label, worker_at, opened, Step, writes, takes, ticks, closes, exits, Run, start,
  later,
}
use splunk_firehose_nozzle.Sink.Workers.Made.{all_taken_at, Makes, Run-AllMade}
use splunk_firehose_nozzle.Sink.Workers.Drain.{turns, work_left, IsDrained, Run-drains}

module _ {Err C W : Type 0} (parts : Parts Err C W) where
  -- The calls of each worker are those of its posts.
  abbrev AllCalled : System Err C (Watched Err W) → Type 0
  AllCalled s = (i : ℕ) → AllAttempts parts.config.retries (s.seats i).posts (s.seats i).state.0

  replace-AllCalled :
      (f : ℕ → Seat Err (Watched Err W)) (i : ℕ) (seat : Seat Err (Watched Err W))
      → ((j : ℕ) → AllAttempts parts.config.retries (f j).posts (f j).state.0)
      → AllAttempts parts.config.retries seat.posts seat.state.0
      → (j : ℕ)
      → AllAttempts parts.config.retries (replace f i seat j).posts (replace f i seat j).state.0
  replace-AllCalled f i seat all own j = elim (Bool-cases (eqb i j)) [
    | inl same ↦ rw same own
    | inr other ↦ rw other (all j)
  ]

  Step-AllCalled :
      {n : ℕ} {s t : System Err C (Watched Err W)} {l : Label}
      → Step (observed parts) n s l t
      → AllCalled s
      → AllCalled t
  Step-AllCalled (writes e o w h) all = all
  Step-AllCalled {s} (takes i e rest now lt r q) all =
      replace-AllCalled s.seats i _ all
        (consume_step-IsCalled parts (worker_at s i) (received e now) (all i))
  Step-AllCalled {s} (ticks i lt r) all =
      replace-AllCalled s.seats i _ all (consume_step-IsCalled parts (worker_at s i) timer (all i))
  Step-AllCalled (closes c) all = all
  Step-AllCalled {s} (exits i lt r c q) all =
      replace-AllCalled s.seats i _ all (flush-IsCalled parts (worker_at s i) (all i))

  Run-AllCalled :
      (cache : C) (states : ℕ → W) {n : ℕ} {ls : List Label} {t : System Err C (Watched Err W)}
      → Run (observed parts) n (opened cache (λ i. ([], states i))) ls t
      → AllCalled t
  Run-AllCalled cache states start = λ i. none_posted
  Run-AllCalled cache states (later run step) = Step-AllCalled step (Run-AllCalled cache states run)

  Run-append :
      {n : ℕ} {s t u : System Err C (Watched Err W)} {ls ks : List Label}
      → Run (observed parts) n s ls t
      → Run (observed parts) n t ks u
      → Run (observed parts) n s (ls ++ ks) u
  Run-append {n} {s} {t} {ls} run start =
      subst (λ (xs : List Label). Run (observed parts) n s xs t) (sym (append-nil ls)) run
  Run-append {n} {s} {u} {ls} run (later {ls = ks} {l} more step) =
      subst (λ (xs : List Label). Run (observed parts) n s xs u) (append_assoc ls ks (l ∷ []))
        (later (Run-append run more) step)

  -- However an opened sink with at least one worker, the calls of whose writers are recorded, has run
  -- until its queue was closed, it can go on to its end, by as many turns as envelopes are left and
  -- workers up: then every worker has returned, the queue is empty, and what each worker has posted is
  -- all that it made of the envelopes that it took, in order. The calls of its writer are those of its
  -- posts, one post after the other: with the events of the post first, and again while a call returns
  -- an error, for as many calls as retries are configured, of which there can be none.
  pub Run-finishes :
      (cache : C) (states : ℕ → W) {n : ℕ} {ls : List Label} {t : System Err C (Watched Err W)}
      → 0 < n
      → t.closed ≡ true
      → Run (observed parts) n (opened cache (λ i. ([], states i))) ls t
      → (ls' : List Label) × (u : System Err C (Watched Err W)) × Run (observed parts) n t ls' u
        × (turns ls' ≡ work_left n t)
        × IsDrained n u
        × ((i : ℕ)
            → i < n
            → Makes (observed parts) (all_taken_at i (ls ++ ls')) (posted (u.seats i).posts)
              × AllAttempts parts.config.retries (u.seats i).posts (u.seats i).state.0)
  Run-finishes cache states {n} {ls} {t} some_worker closed run =
      let (ls', u, more, count, (empty, gone)) =
        Run-drains (observed parts) cache (λ i. ([], states i)) some_worker closed run in
      let whole = Run-append run more in
      (
        ls',
        u,
        more,
        count,
        (empty, gone),
        λ i lt. (
          subst (λ bs. Makes (observed parts) (all_taken_at i (ls ++ ls')) bs)
              (ap (λ bs. posted (u.seats i).posts ++ bs) (gone i lt).1
                ∙ append-nil (posted (u.seats i).posts))
              (Run-AllMade (observed parts) cache (λ j. ([], states j)) whole i),
          Run-AllCalled cache states whole i,
        ),
      )
