-- ===== src/Splunknozzle/Pipeline/Delivery.antt =====
-- What the source sent and what the workers get.
use mathlib.Core.List.{append-nil}
use splunk_firehose_nozzle.Base.{
  ℕ, ◌+◌, ◌%◌, ◌^◌, Bool, true, false, ◌&&◌, some, List, [], ◌∷◌, ◌++◌, length, ◌≡◌, refl, sym, ap,
  ◌∙◌, arith, Bool-cases, inl, inr, ltb, subst,
}
use splunk_firehose_nozzle.Events.Envelope.{Envelope}
use splunk_firehose_nozzle.Nozzle.{
  Choice, event_received, events_closed, error_received, closing, turn, NozzleLoop, running,
  returned, run_loop,
}
use splunk_firehose_nozzle.Nozzle.Loop.{reached, run_loop-Heard}
use splunk_firehose_nozzle.Router.{Router, route}
use splunk_firehose_nozzle.Sink.Queue.{Queue, write}
use splunk_firehose_nozzle.Sink.Consume.{Parts}
use splunk_firehose_nozzle.Sink.Workers.{
  System, Label, queued, dropped, took, ticked, closed_queue, exited, opened, write_label, writes,
  Run, start, later,
}
use splunk_firehose_nozzle.Sink.Workers.Fifo.{
  all_queued, all_taken, all_dropped, taken_by, all_taken-snoc, Run-fifo,
}
use splunk_firehose_nozzle.Sink.Workers.Made.{taken_at, all_taken_at, all_taken_at-snoc}
use splunk_firehose_nozzle.Splunknozzle.Pipeline.{
  is_event, Program, may_happen, with_sink, started, route_into, put_queue, Advance, receives,
  selects, works, AdvanceRun, begin, onward,
}
use splunk_firehose_nozzle.Splunknozzle.Pipeline.Wanted.{
  is_wanted, wanted, written_by, all_written, all_written-snoc, wanted-append, IsPart,
  all_queued-IsPart, length-all_written,
}

module _ {Err C W : Type 0} (parts : Parts Err C W) (router : Router) (monitored : Bool) where
  abbrev Sink : Type 0
  Sink = System Err C W

  -- A run of the sink alone that the program's run up to p amounts to.
  abbrev Sunk : ℕ → Sink → List Envelope → List Label → Program Err C W → Type 0
  Sunk n s es ks p =
      (ls : List Label) × Run parts n s ls (reached p).router
      × (all_written ls ≡ wanted router es)
      × (all_taken ls ≡ all_taken ks)
      × ((i : ℕ) → all_taken_at i ls ≡ all_taken_at i ks)

  labelled :
      (q : Queue Envelope) (e : Envelope)
      → (written_by (write_label parts q e) ≡ e ∷ [])
        × (taken_by (write_label parts q e) ≡ [])
        × ((i : ℕ) → taken_at i (write_label parts q e) ≡ [])
  labelled q e = elim (Bool-cases (ltb (length q.events) parts.config.queue_size)) [
    | inl free ↦ rw free (refl, refl, λ i. refl)
    | inr full ↦ rw full (refl, refl, λ i. refl)
  ]

  wrote :
      {n : ℕ} {s t : Sink} {ls : List Label} (e : Envelope) (q : Queue Envelope)
      → Run parts n s ls t
      → (is_wanted router e && t.closed) ≡ false
      → route parts.config router e t.queue ≡ some q
      → (ks : List Label) × Run parts n s ks (record t { queue = q })
        × (all_written ks ≡ all_written ls ++ wanted router (e ∷ []))
        × (all_taken ks ≡ all_taken ls)
        × ((i : ℕ) → all_taken_at i ks ≡ all_taken_at i ls)
  unfolding route
  wrote {n} {s} {t} {ls} e q run open_ r = elim (Bool-cases (is_wanted router e)) [
    | inl asked ↦
        let w : write parts.config e t.queue ≡ some q = ground (arith, r, asked) in
        let l = write_label parts t.queue e in
        let (is_e, not_taken, by_none) = labelled t.queue e in
        let still_open : t.closed ≡ false = ground (arith, open_, asked) in
        (
          ls ++ l ∷ [],
          later run (writes e still_open w refl),
          all_written-snoc ls l ∙ rw (is_e, asked) refl,
          all_taken-snoc ls l ∙ rw not_taken (append-nil (all_taken ls)),
          λ i. all_taken_at-snoc i ls l ∙ rw (by_none i) (append-nil (all_taken_at i ls)),
        )
    | inr other ↦
        let same : t.queue ≡ q = ground (arith, r, other) in
        (
          ls,
          subst (λ (x : Queue Envelope). Run parts n s ls (record t { queue = x })) same run,
          rw other (sym (append-nil (all_written ls))),
          refl,
          λ i. refl,
        )
  ]

  -- One turn of the loop that does not receive an envelope leaves the sink alone.
  select_keeps :
      (due : Bool) (chosen : Choice) (l : NozzleLoop Sink)
      → is_event chosen ≡ false
      → (reached
          (run_loop (route_into parts router monitored) monitored (turn due chosen ∷ []) l)).router
        ≡ l.router
  select_keeps due (event_received e) l h = absurd (ground (arith, h))
  select_keeps due events_closed l h =
      (run_loop-Heard (route_into parts router monitored) monitored (turn due events_closed ∷ [])
        l).0
  select_keeps due (error_received e) l h =
      (run_loop-Heard (route_into parts router monitored) monitored
        (turn due (error_received e) ∷ []) l).0
  select_keeps due closing l h =
      (run_loop-Heard (route_into parts router monitored) monitored (turn due closing ∷ []) l).0

  received_queue :
      (due : Bool) (e : Envelope) (l : NozzleLoop Sink) (q : Queue Envelope)
      → route parts.config router e l.router.queue ≡ some q
      → (reached (
          run_loop
            (route_into parts router monitored)
            monitored
            (turn due (event_received e) ∷ [])
            l)).router
        ≡ record l.router { queue = q }
  received_queue due e l q r =
      (run_loop-Heard (route_into parts router monitored) monitored
        (turn due (event_received e) ∷ []) l).0
      ∙ ap (put_queue l.router) r

  reached-with_sink : (s : Sink) (p : Program Err C W) → (reached (with_sink s p)).router ≡ s
  reached-with_sink s (running l) = refl
  reached-with_sink s (returned l) = refl

  worker_writes_none : (l : Label) → may_happen l ≡ true → written_by l ≡ []
  worker_writes_none (queued e) h = cc
  worker_writes_none (dropped e) h = cc
  worker_writes_none (took i e) h = refl
  worker_writes_none (ticked i) h = refl
  worker_writes_none closed_queue h = refl
  worker_writes_none (exited i) h = refl

  Advance-Sunk :
      {n : ℕ} {s : Sink} {fs : List Envelope} {js : List Label} {p p' : Program Err C W}
      (es : List Envelope) (ks : List Label)
      → Advance parts router monitored n p fs js p'
      → Sunk n s es ks p
      → Sunk n s (es ++ fs) (ks ++ js) p'
  Advance-Sunk {n} {s} {p} es ks (receives due e l q at up r) (ls, run, written, taken, own) =
      let here : (reached p).router ≡ l.router =
        ap (λ (x : Program Err C W). (reached x).router) at in
      let (ms, run', w', t', o') =
        wrote e q (subst (λ (x : Sink). Run parts n s ls x) here run) up r in
      let there = received_queue due e l q r in
      (
        ms,
        subst (λ (x : Sink). Run parts n s ms x) (sym there) run',
        w'
            ∙ ap (λ (x : List Envelope). x ++ wanted router (e ∷ [])) written
            ∙ sym (wanted-append router es (e ∷ [])),
        t' ∙ taken ∙ ap (λ (x : List Label). all_taken x) (sym (append-nil ks)),
        λ i. o' i ∙ own i ∙ ap (λ (x : List Label). all_taken_at i x) (sym (append-nil ks)),
      )
  Advance-Sunk {n} {s} {p} es ks (selects due chosen l at quiet) (ls, run, written, taken, own) =
      let here : (reached p).router ≡ l.router =
        ap (λ (x : Program Err C W). (reached x).router) at in
      let there = here ∙ sym (select_keeps due chosen l quiet) in
      (
        ls,
        subst (λ (x : Sink). Run parts n s ls x) there run,
        written ∙ ap (λ (x : List Envelope). wanted router x) (sym (append-nil es)),
        taken ∙ ap (λ (x : List Label). all_taken x) (sym (append-nil ks)),
        λ i. own i ∙ ap (λ (x : List Label). all_taken_at i x) (sym (append-nil ks)),
      )
  Advance-Sunk {n} {s} {p} es ks (works l {s = t} may step) (ls, run, written, taken, own) =
      let there = reached-with_sink t p in
      (
        ls ++ l ∷ [],
        subst (λ (x : Sink). Run parts n s (ls ++ l ∷ []) x) (sym there) (later run step),
        all_written-snoc ls l
            ∙ rw (worker_writes_none l may) (
                append-nil (all_written ls)
                ∙ written
                ∙ ap (λ (x : List Envelope). wanted router x) (sym (append-nil es))),
        all_taken-snoc ls l
            ∙ ap (λ (x : List Envelope). x ++ taken_by l) taken
            ∙ sym (all_taken-snoc ks l),
        λ i.
            all_taken_at-snoc i ls l
            ∙ ap (λ (x : List Envelope). x ++ taken_at i l) (own i)
            ∙ sym (all_taken_at-snoc i ks l),
      )

  pub AdvanceRun-Sunk :
      (cache : C) (states : ℕ → W) {n : ℕ} {es : List Envelope} {ks : List Label}
      {p : Program Err C W}
      → AdvanceRun parts router monitored n (started cache states) es ks p
      → Sunk n (opened cache states) es ks p
  AdvanceRun-Sunk cache states begin = ([], start, refl, refl, λ i. refl)
  AdvanceRun-Sunk cache states (onward {es} {ls} run step) =
      Advance-Sunk es ls step (AdvanceRun-Sunk cache states run)

  -- However the loop and any number of workers take their turns, and whenever the sink is closed: what the workers took, and then what waits in the queue, are envelopes of the selected
  -- types that the source sent, in the order in which it sent them and each at most once; of the
  -- selected types none is missing but those that the sink dropped, whose number it has counted,
  -- modulo 2 ^ 64; and an envelope of another type never reaches a worker.
  pub AdvanceRun-delivers :
      (cache : C) (states : ℕ → W) {n : ℕ} {es : List Envelope} {ks : List Label}
      {p : Program Err C W}
      → AdvanceRun parts router monitored n (started cache states) es ks p
      → let waiting = (reached p).router.queue.events in
        (lost : ℕ) × IsPart (all_taken ks ++ waiting) (wanted router es)
        × (length (wanted router es) ≡ length (all_taken ks ++ waiting) + lost)
        × ((reached p).router.queue.dropped_events ≡ lost % 2 ^ 64)
  AdvanceRun-delivers cache states {es} {ks} {p} program =
      let (ls, run, written, taken, own) = AdvanceRun-Sunk cache states program in
      let (fifo, counted) = Run-fifo parts cache states run in
      let all : all_taken ks ++ (reached p).router.queue.events ≡ all_queued ls =
        ap (λ (x : List Envelope). x ++ (reached p).router.queue.events) (sym taken) ∙ fifo in
      (
        all_dropped ls,
        subst (λ (x : List Envelope). IsPart x (wanted router es)) (sym all)
            (subst (λ (x : List Envelope). IsPart (all_queued ls) x) written
              (all_queued-IsPart ls)),
        ap (λ (x : List Envelope). length x) (sym written)
            ∙ length-all_written ls
            ∙ ap (λ (x : List Envelope). length x + all_dropped ls) (sym all),
        counted,
      )
