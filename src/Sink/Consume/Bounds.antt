-- ===== src/Sink/Consume/Bounds.antt =====
-- How large the batches are that a worker posts.
use splunk_firehose_nozzle.Base.{
  ℕ, ◌≤◌, ◌<◌, Option, none, some, List, [], ◌∷◌, ◌++◌, ◌≡◌, arith, length, length-append, All,
  All-append, Bool, leb, Bool-cases, inl, inr,
}
use splunk_firehose_nozzle.Base.Int.{ℤ}
use splunk_firehose_nozzle.Sink.Build.{build_event}
use splunk_firehose_nozzle.Sink.Consume.{
  Built, Signal, received, timer, Post, Worker, Parts, post_of, flush, add_built, take_parsed,
  consume_step, consume,
}
use splunk_firehose_nozzle.Sink.Consume.Order.{batch-index_events}

module _ {Err C W : Type 0} (parts : Parts Err C W) where
  -- not empty, and no larger than the batch limit
  abbrev pub Fits : Post → Type 0
  Fits p = (1 ≤ length p.events) × (length p.events ≤ parts.config.batch_size)

  -- Between two signals: the batch is below its limit, and every post fits.
  pub record IsBounded (w : Worker Err C W) : Type 0 where
    pub room : length w.batch < parts.config.batch_size
    pub posts_fit : All Fits w.posts

  post_of-Fits :
      (batch : List Built) (accepted : Bool)
      → length batch ≤ parts.config.batch_size
      → All Fits (post_of batch accepted)
  post_of-Fits [] accepted h = tt
  post_of-Fits (e ∷ batch) accepted h = ((omega arith, h), tt)

  pub flush-IsBounded :
      (w : Worker Err C W)
      → 1 ≤ parts.config.batch_size
      → length w.batch ≤ parts.config.batch_size
      → All Fits w.posts
      → IsBounded (flush parts w)
  unfolding flush
  flush-IsBounded w pos h fit = record {
    room = rw batch-index_events pos;
    posts_fit = All-append Fits w.posts _ fit (post_of-Fits w.batch _ h);
  }

  add_built-IsBounded :
      (w : Worker Err C W) (e : Built) (count : ℕ)
      → IsBounded w
      → IsBounded (add_built parts w (e, count))
  unfolding add_built
  add_built-IsBounded w e count h =
      elim (Bool-cases (leb parts.config.batch_size (length (w.batch ++ e ∷ [])))) [
        | inl full ↦ rw full (
            flush-IsBounded (record w { batch = w.batch ++ e ∷ []; count = count })
              (omega (arith, h.room)) (omega (arith, length-append w.batch (e ∷ []), h.room))
              h.posts_fit)
        | inr room ↦ rw room (record { room = ground arith; posts_fit = h.posts_fit })
      ]

  take_parsed-IsBounded :
      (w : Worker Err C W) (now : ℤ) (parsed : Option Built × C)
      → IsBounded w
      → IsBounded (take_parsed parts w now parsed)
  unfolding take_parsed
  take_parsed-IsBounded w now (none, cache) h = record { room = h.room; posts_fit = h.posts_fit }
  take_parsed-IsBounded w now (some fields, cache) h =
      let (e, count') = build_event parts.config parts.runtime now fields w.count in
      add_built-IsBounded (record w { cache = cache }) e count'
        (record { room = h.room; posts_fit = h.posts_fit })

  pub consume_step-IsBounded :
      (w : Worker Err C W) (s : Signal) → IsBounded w → IsBounded (consume_step parts w s)
  unfolding consume_step
  consume_step-IsBounded w timer h =
      flush-IsBounded w (omega (arith, h.room)) (omega (arith, h.room)) h.posts_fit
  consume_step-IsBounded w (received event now) h = take_parsed-IsBounded w now _ h

  -- Whatever a worker receives whose batch is below the batch limit, if its posts until then fit: the
  -- batches that it posts are not empty and hold at most as many events as the limit, and at the end no
  -- event is left in its batch.
  consume-IsBounded :
      (w : Worker Err C W) (signals : List Signal)
      → IsBounded w
      → All Fits (consume parts w signals).posts × ((consume parts w signals).batch ≡ [])
  unfolding consume
  consume-IsBounded w [] h = (
    (flush-IsBounded w (omega (arith, h.room)) (omega (arith, h.room)) h.posts_fit).posts_fit,
    unfold flush in batch-index_events parts.writer parts.config w.batch w.state,
  )
  consume-IsBounded w (s ∷ signals) h =
      consume-IsBounded (consume_step parts w s) signals (consume_step-IsBounded w s h)
