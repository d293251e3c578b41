-- ===== src/Sink/Queue/Burst.antt =====
-- What a burst of events does to the queue.
use mathlib.Core.List.{append_assoc, append-nil}
use splunk_firehose_nozzle.Base.{
  ℕ, zero, suc, ◌+◌, ◌-◌, ◌%◌, ◌^◌, ◌≤◌, ◌<◌, false, some, List, [], ◌∷◌, ◌++◌, length,
  length-append, ltb, lt→ltb, ◌≡◌, refl, sym, ap, ◌∙◌, arith, take, inl, inr, Bool-cases, ltb→lt,
}
use splunk_firehose_nozzle.Sink.Build.{SinkConfig}
use splunk_firehose_nozzle.Sink.Queue.{Queue, note_total, warn, write, write_all}

module _ {A : Type 0} (config : SinkConfig) where
  -- free places in the buffer
  abbrev pub room : Queue A → ℕ
  room q = config.queue_size - length q.events

  write_room :
      (e : A) (q : Queue A)
      → length q.events < config.queue_size
      → write config e q ≡ some (record q { events = q.events ++ e ∷ [] })
  unfolding write
  write_room e q h = rw (lt→ltb (length q.events) config.queue_size h)

  -- the state that a dropped event leaves
  counted : Queue A → Queue A
  counted q =
      note_total config.drop_warn_threshold
        (record q { dropped_events = (q.dropped_events + 1) % 2 ^ 64 })

  warn_pos : (t : ℕ) (q : Queue A) → 0 < t → warn t q ≡ some (note_total t q)
  unfolding warn
  warn_pos zero q h = absurd (omega arith)
  warn_pos (suc t) q h = refl

  write_full :
      (e : A) (q : Queue A)
      → config.queue_size ≤ length q.events
      → 0 < config.drop_warn_threshold
      → write config e q ≡ some (counted q)
  unfolding write counted
  write_full e q h t = rw (not_room, warn_pos config.drop_warn_threshold _ t)
    where
      not_room : ltb (length q.events) config.queue_size ≡ false
      not_room = ground arith

  counted_parts :
      (q : Queue A)
      → ((counted q).events ≡ q.events)
        × ((counted q).dropped_events ≡ (q.dropped_events + 1) % 2 ^ 64)
  unfolding counted note_total
  counted_parts q = ground arith

  take-nil : (n : ℕ) → ◌≡◌ {A = List A} (take n []) []
  take-nil zero = refl
  take-nil (suc n) = refl

  -- What a burst comes to: the first events that there is room for are queued, the others counted.
  abbrev pub Bursts : List A → Queue A → Type 0
  Bursts es q =
      (q' : Queue A) × (write_all config es q ≡ some q')
      × (q'.events ≡ q.events ++ take (room q) es)
      × (q'.dropped_events ≡ (q.dropped_events + (length es - room q)) % 2 ^ 64)

  write_all-cons :
      (e : A) (es : List A) (q q1 : Queue A)
      → write config e q ≡ some q1
      → write_all config (e ∷ es) q ≡ write_all config es q1
  unfolding write_all
  write_all-cons e es q q1 h = rw (h, write_all)

  Bursts-room :
      (e : A) (es : List A) (q : Queue A)
      → length q.events < config.queue_size
      → Bursts es (record q { events = q.events ++ e ∷ [] })
      → Bursts (e ∷ es) q
  Bursts-room e es q h (q', ran, kept, lost) = (
    q',
    write_all-cons e es q _ (write_room e q h) ∙ ran,
    kept ∙ append_assoc q.events (e ∷ []) _ ∙ ap (λ (l : List A). q.events ++ l) (sym first),
    lost ∙ ap (λ (n : ℕ). (q.dropped_events + n) % 2 ^ 64) (omega (arith, longer)),
  )
    where
      longer : length (q.events ++ e ∷ []) ≡ length q.events + 1
      longer = length-append q.events (e ∷ [])

      first : take (room q) (e ∷ es) ≡ e ∷ take (config.queue_size - length (q.events ++ e ∷ [])) es
      first = rw one_less refl
        where
          one_less : room q ≡ suc (config.queue_size - length (q.events ++ e ∷ []))
          one_less = omega (arith, longer)

  Bursts-full :
      (e : A) (es : List A) (q : Queue A)
      → length q.events ≡ config.queue_size
      → 0 < config.drop_warn_threshold
      → Bursts es (counted q)
      → Bursts (e ∷ es) q
  Bursts-full e es q h t (q', ran, kept, lost) = (
    q',
    write_all-cons e es q _ (write_full e q (omega arith) t) ∙ ran,
    kept ∙ rw (same, no_room),
    lost ∙ rw (same, one_more, no_room) (omega arith),
  )
    where
      same : (counted q).events ≡ q.events
      same = (counted_parts q).0

      one_more : (counted q).dropped_events ≡ (q.dropped_events + 1) % 2 ^ 64
      one_more = (counted_parts q).1

      no_room : config.queue_size - length q.events ≡ 0
      no_room = omega (arith, h)

  -- A burst on a queue that is not over its size, with r free places, a threshold above zero and a
  -- count of dropped events below 2 ^ 64 does not fail: the first r events
  -- of the burst are queued behind what is there, in order, and the others are counted as dropped,
  -- modulo 2 ^ 64.
  pub write_all-Bursts :
      (es : List A) (q : Queue A)
      → length q.events ≤ config.queue_size
      → 0 < config.drop_warn_threshold
      → q.dropped_events < 2 ^ 64
      → Bursts es q
  write_all-Bursts [] q h t d =
      (q, unfold write_all in refl, rw (take-nil (room q), append-nil), omega arith)
  write_all-Bursts (e ∷ es) q h t d = elim (Bool-cases (ltb (length q.events) config.queue_size)) [
    | inl free ↦
        let lt = ltb→lt (length q.events) config.queue_size free in
        Bursts-room e es q lt (
          write_all-Bursts es (record q { events = q.events ++ e ∷ [] })
            (omega (arith, length-append q.events (e ∷ []), lt)) t d)
    | inr full ↦
        let (same, one_more) = counted_parts q in
        Bursts-full e es q (ground arith) t
          (write_all-Bursts es (counted q) (rw same h) t (omega (arith, one_more)))
  ]
