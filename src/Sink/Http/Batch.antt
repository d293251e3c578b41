-- ===== src/Sink/Http/Batch.antt =====
-- One batch over HTTP: indexEvents with Write.
use mathlib.Core.List.{append_assoc, append-nil}
use splunk_firehose_nozzle.Base.{
  ℕ, zero, suc, ◌+◌, true, false, Option, some, List, [], ◌∷◌, ◌++◌, ◌≡◌, refl, sym, ◌∙◌, subst,
  Option-cases, inl, inr, arith, length, is_some,
}
use splunk_firehose_nozzle.Sink.Build.{SinkConfig}
use splunk_firehose_nozzle.Sink.Index.{Writer, Indexed, after_attempt, attempts, index_events}
use splunk_firehose_nozzle.Sink.Consume.{Post, post_of}
use splunk_firehose_nozzle.Writer.{
  WriterConfig, Event, Encoder, Transport, WriteError, body_of, request_of, error_of, prepare,
  prepare_all, write, write_prepared, post, send,
}
use splunk_firehose_nozzle.Writer.Index.{prepare_twice}
use splunk_firehose_nozzle.Sink.Http.{
  Exchange, recorded, IsWrite, Tried, gave_up, succeeded, failed, AllTried, tried_next,
}

the_same : (xs ys : List Event) → ◌≡◌ {A = Option (List Event)} (some xs) (some ys) → xs ≡ ys
the_same xs ys h = ground (arith, h)

prepare_all_twice :
    (config : WriterConfig) (events prepared : List Event)
    → prepare_all config events ≡ some prepared
    → prepare_all config prepared ≡ some prepared
unfolding prepare_all
prepare_all_twice config [] prepared h =
    subst (λ (p : List Event). prepare_all config p ≡ some p) (the_same [] prepared h) refl
prepare_all_twice config (e ∷ events) prepared h = elim (Option-cases (prepare config e)) [
  | inl panic ↦ absurd (ground (arith, rw (panic, prepare_all) at h))
  | inr (e', made) ↦ elim (Option-cases (prepare_all config events)) [
    | inl panic ↦ absurd (ground (arith, rw (made, panic, prepare_all) at h))
    | inr (es, all_made) ↦
        subst (λ (p : List Event). prepare_all config p ≡ some p)
          (the_same (e' ∷ es) prepared (rw (made, all_made, prepare_all) at h))
          (rw
            (
              prepare_twice config e e' made,
              prepare_all_twice config events es all_made,
              prepare_all,
            )
            refl)
  ]
]

module _ {T : Type 0} (transport : Transport T) (marshal : Encoder) (config : WriterConfig)
    (writer : Writer Event WriteError (List Exchange × T))
    (is_write : IsWrite (recorded transport) marshal config writer)
    (sends : config.debug ≡ false) where
  -- What a call of the writer does with events that are prepared to those.
  called :
      (events prepared : List Event) (before : List Exchange) (t : T)
      → prepare_all config events ≡ some prepared
      → let request = request_of config (body_of marshal prepared) in
        let (response, t') = transport request t in
        writer events (before, t) ≡ (
          record { batch = prepared; error = error_of response; count = length prepared },
          (before ++ (request, response) ∷ [], t'),
        )
  unfolding write write_prepared post send
  called events prepared before t h =
      is_write events (before, t) _ (rw (h, write) (rw (sends, post)))

  -- indexEvents makes tries of the one request that the batch comes to.
  abbrev Repeats :
      List Event → ℕ → List Exchange → Indexed Event WriteError (List Exchange × T) → Type 0
  Repeats prepared left before r =
      (tries : List Exchange) × (r.state.0 ≡ before ++ tries)
      × Tried (request_of config (body_of marshal prepared)) left tries r.accepted

  module _ (sink_config : SinkConfig) where
    attempts-Repeats :
        (left i : ℕ) (events prepared : List Event) (before : List Exchange) (t : T)
        → prepare_all config events ≡ some prepared
        → Repeats prepared left before (attempts writer sink_config left i events (before, t))
    unfolding attempts
    attempts-Repeats zero i events prepared before t h = ([], sym (append-nil before), gave_up)
    attempts-Repeats (suc left) i events prepared before t h =
        let request = request_of config (body_of marshal prepared) in
        let (response, t') = transport request t in
        rw (called events prepared before t h) (elim (Option-cases (error_of response)) [
          | inl fine ↦
              rw (fine, after_attempt) ((request, response) ∷ [], refl, succeeded response fine)
          | inr (e, wrong) ↦
              let (tries, all, rest) =
                attempts-Repeats left (i + 1) prepared prepared (before ++ (request, response) ∷ [])
                  t' (prepare_all_twice config events prepared h) in
              rw (wrong, after_attempt)
                (
                  (request, response) ∷ tries,
                  all ∙ append_assoc before ((request, response) ∷ []) tries,
                  failed response e wrong rest,
                )
        ])

    -- The batch of a worker, posted.
    pub posted-AllTried :
        (posts : List Post) (events : List Event) (before : List Exchange) (t : T)
        → AllTried marshal config sink_config.retries posts before
        → is_some (prepare_all config events) ≡ true
        → let r = index_events writer sink_config events (before, t) in
          AllTried marshal config sink_config.retries (posts ++ post_of events r.accepted) r.state.0
    unfolding index_events
    posted-AllTried posts [] before t h ready =
        subst (λ (ps : List Post). AllTried marshal config sink_config.retries ps before)
          (sym (append-nil posts)) h
    posted-AllTried posts (e ∷ events) before t h ready =
        elim (Option-cases (prepare_all config (e ∷ events))) [
          | inl panic ↦ absurd (ground (arith, panic, ready))
          | inr (prepared, made) ↦
              let r = attempts writer sink_config sink_config.retries 0 (e ∷ events) (before, t) in
              let (tries, all, tried) =
                attempts-Repeats sink_config.retries 0 (e ∷ events) prepared before t made in
              subst
                (λ (xs : List Exchange).
                  AllTried marshal config sink_config.retries
                    (posts ++ record { events = e ∷ events; accepted = r.accepted } ∷ []) xs)
                (sym all)
                (tried_next (record { events = e ∷ events; accepted = r.accepted }) prepared h made
                  tried)
        ]
