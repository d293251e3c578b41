-- ===== src/Sink/Consume/Calls.antt =====
-- The calls of the writer that a worker makes.
use mathlib.Core.List.{append-nil}
use splunk_firehose_nozzle.Base.{
  ℕ, Option, none, some, List, [], ◌∷◌, ◌++◌, leb, length, ◌≡◌, sym, subst, Bool-cases, inl, inr,
}
use splunk_firehose_nozzle.Base.Int.{ℤ}
use splunk_firehose_nozzle.Sink.Parse.{parse_event}
use splunk_firehose_nozzle.Sink.Build.{build_event}
use splunk_firehose_nozzle.Sink.Index.{index_events}
use splunk_firehose_nozzle.Sink.Index.Calls.{
  Call, observed_writer, Attempts, index_events-Calls, index_events_empty,
}
use splunk_firehose_nozzle.Sink.Consume.{
  Built, Post, post_of, Signal, received, timer, Worker, Parts, flush, add_built, take_parsed,
  consume_step, consume,
}
use splunk_firehose_nozzle.Sink.Consume.Order.{posted, produced, posted-consume}

-- The calls for posts, one post after the other.
pub data AllAttempts {Err : Type 0} (retries : ℕ) : List Post → List (Call Built Err) → Type 0 where
  none_posted : AllAttempts retries [] []
  posted_next :
      {posts : List Post} {before calls : List (Call Built Err)} (p : Post)
      → AllAttempts retries posts before
      → Attempts retries p.events calls p.accepted
      → AllAttempts retries (posts ++ p ∷ []) (before ++ calls)

-- The calls of a worker, with what is behind its writer.
abbrev pub Watched : Type 0 → Type 0 → Type 0
Watched Err W = List (Call Built Err) × W

module _ {Err C W : Type 0} (parts : Parts Err C W) where
  -- The same parts with a writer whose calls are recorded.
  abbrev pub observed : Parts Err C (Watched Err W)
  observed = record {
    get_app = parts.get_app;
    writer = observed_writer parts.writer;
    config = parts.config;
    parse_config = parts.parse_config;
    runtime = parts.runtime;
  }

  -- The calls of the worker so far are those of its posts.
  abbrev pub IsCalled : Worker Err C (Watched Err W) → Type 0
  IsCalled w = AllAttempts parts.config.retries w.posts w.state.0

  posts-AllAttempts :
      (posts : List Post) (batch : List Built) (before : List (Call Built Err)) (w : W)
      → AllAttempts parts.config.retries posts before
      → let r = index_events (observed_writer parts.writer) parts.config batch (before, w) in
        AllAttempts parts.config.retries (posts ++ post_of batch r.accepted) r.state.0
  posts-AllAttempts posts [] before w h =
      rw (append-nil posts, index_events_empty parts.writer parts.config w before) h
  posts-AllAttempts posts (e ∷ batch) before w h =
      let r = index_events (observed_writer parts.writer) parts.config (e ∷ batch) (before, w) in
      let (calls, all, tried) = index_events-Calls parts.writer parts.config e batch before w in
      subst
        (λ (xs : List (Call Built Err)).
          AllAttempts parts.config.retries
            (posts ++ record { events = e ∷ batch; accepted = r.accepted } ∷ []) xs)
        (sym all) (posted_next (record { events = e ∷ batch; accepted = r.accepted }) h tried)

  pub flush-IsCalled : (w : Worker Err C (Watched Err W)) → IsCalled w → IsCalled (flush observed w)
  unfolding flush
  flush-IsCalled w h = posts-AllAttempts w.posts w.batch w.state.0 w.state.1 h

  add_built-IsCalled :
      (w : Worker Err C (Watched Err W)) (e : Built) (count : ℕ)
      → IsCalled w
      → IsCalled (add_built observed w (e, count))
  unfolding add_built
  add_built-IsCalled w e count h =
      elim (Bool-cases (leb parts.config.batch_size (length (w.batch ++ e ∷ [])))) [
        | inl full ↦
            rw full (flush-IsCalled (record w { batch = w.batch ++ e ∷ []; count = count }) h)
        | inr room ↦ rw room h
      ]

  take_parsed-IsCalled :
      (w : Worker Err C (Watched Err W)) (now : ℤ) (found : Option Built × C)
      → IsCalled w
      → IsCalled (take_parsed observed w now found)
  unfolding take_parsed
  take_parsed-IsCalled w now (none, cache) h = h
  take_parsed-IsCalled w now (some fields, cache) h =
      let (e, count) = build_event parts.config parts.runtime now fields w.count in
      add_built-IsCalled (record w { cache = cache }) e count h

  pub consume_step-IsCalled :
      (w : Worker Err C (Watched Err W)) (s : Signal)
      → IsCalled w
      → IsCalled (consume_step observed w s)
  unfolding consume_step
  consume_step-IsCalled w timer h = flush-IsCalled w h
  consume_step-IsCalled w (received e now) h =
      take_parsed-IsCalled w now (parse_event parts.get_app parts.parse_config e w.cache) h

  consume-IsCalled :
      (w : Worker Err C (Watched Err W)) (signals : List Signal)
      → IsCalled w
      → IsCalled (consume observed w signals)
  unfolding consume
  consume-IsCalled w [] h = flush-IsCalled w h
  consume-IsCalled w (s ∷ signals) h =
      consume-IsCalled (consume_step observed w s) signals (consume_step-IsCalled w s h)

  -- A worker that starts.
  abbrev pub fresh : C → ℕ → W → Worker Err C (Watched Err W)
  fresh cache count w = record {
    batch = [];
    cache = cache;
    count = count;
    state = ([], w);
    posts = [];
    actions = [];
  }

  -- What a worker that starts hands to its writer, whose calls are recorded: the events that it builds
  -- of what it receives are cut into posts, all of them and in their order; and the calls are, post by
  -- post, with the events of the post first, then, while a call returns an error, with the events as
  -- that call has left them, up to the first call without an error or the configured number of
  -- retries, whichever is first. Where that number is zero there is no call, and no post is accepted.
  pub consume-calls :
      (cache : C) (count : ℕ) (w : W) (signals : List Signal)
      → let end = consume observed (fresh cache count w) signals in
        (posted end.posts ≡ produced observed signals cache count)
        × AllAttempts parts.config.retries end.posts end.state.0
  consume-calls cache count w signals = (
    posted-consume observed (fresh cache count w) signals,
    consume-IsCalled (fresh cache count w) signals none_posted,
  )
