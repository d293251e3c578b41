-- ===== src/Sink/Consume/Prepared.antt =====
-- The writer's Write takes every batch of a worker.
use splunk_firehose_nozzle.Base.{
  ℕ, true, Option, none, some, List, [], ◌∷◌, ◌++◌, ◌≡◌, refl, ◌∙◌, is_some, All, All-append, arith,
}
use splunk_firehose_nozzle.Base.Int.{ℤ}
use splunk_firehose_nozzle.Sink.Parse.{parse_event}
use splunk_firehose_nozzle.Sink.Build.{build_event}
use splunk_firehose_nozzle.Sink.Build.Posted.{prepare-build_event}
use splunk_firehose_nozzle.Sink.Consume.{
  Built, Signal, received, timer, Post, Worker, Parts, consume,
}
use splunk_firehose_nozzle.Sink.Consume.Order.{posted, produced, build_parsed, posted-consume}
use splunk_firehose_nozzle.Writer.{WriterConfig, prepare, prepare_all}

module _ (writer_config : WriterConfig) where
  -- Write prepares the event without a panic.
  abbrev pub Prepares : Built → Type 0
  Prepares e = is_some (prepare writer_config e) ≡ true

  pub prepare_all-some :
      (events : List Built)
      → All Prepares events
      → is_some (prepare_all writer_config events) ≡ true
  unfolding prepare_all
  prepare_all-some [] _ = refl
  prepare_all-some (e ∷ events) (h, hs) = ground (arith, h, prepare_all-some events hs)

  pub All-left : (xs ys : List Built) → All Prepares (xs ++ ys) → All Prepares xs × All Prepares ys
  All-left [] ys h = (tt, h)
  All-left (x ∷ xs) ys (p, h) = let (a, b) = All-left xs ys h in ((p, a), b)

  -- The post is prepared by Write without a panic.
  abbrev pub IsTaken : Post → Type 0
  IsTaken p = is_some (prepare_all writer_config p.events) ≡ true

  pub posted-IsTaken : (ps : List Post) → All Prepares (posted ps) → All IsTaken ps
  posted-IsTaken [] _ = tt
  posted-IsTaken (p ∷ ps) h =
      let (a, b) = All-left p.events (posted ps) h in
      (prepare_all-some p.events a, posted-IsTaken ps b)

  module _ {Err C W : Type 0} (parts : Parts Err C W) where
    pub build_event-Prepares :
        (now : ℤ) (fields : Built) (count : ℕ)
        → Prepares (build_event parts.config parts.runtime now fields count).0
    build_event-Prepares now fields count =
        let (e, prepared, index) =
          prepare-build_event writer_config parts.config parts.runtime now fields count in
        rw prepared refl

    pub build_parsed-Prepares :
        (now : ℤ) (count : ℕ) (found : Option Built × C)
        → All Prepares (build_parsed parts now count found).0
    unfolding build_parsed
    build_parsed-Prepares now count (none, cache) = tt
    build_parsed-Prepares now count (some fields, cache) =
        (build_event-Prepares now fields count, tt)

    produced-Prepares :
        (signals : List Signal) (cache : C) (count : ℕ)
        → All Prepares (produced parts signals cache count)
    unfolding produced
    produced-Prepares [] cache count = tt
    produced-Prepares (timer ∷ signals) cache count = produced-Prepares signals cache count
    produced-Prepares (received event now ∷ signals) cache count =
        let found = parse_event parts.get_app parts.parse_config event cache in
        let next = build_parsed parts now count found in
        All-append Prepares _ _ (build_parsed-Prepares now count found)
          (produced-Prepares signals next.1 next.2)

    -- A worker that starts with an empty batch and has posted nothing posts only batches that Write
    -- prepares without a panic, whatever the signals and whatever the answers of the writer.
    consume-IsTaken :
        (w : Worker Err C W) (signals : List Signal)
        → w.batch ≡ []
        → w.posts ≡ []
        → All IsTaken (consume parts w signals).posts
    consume-IsTaken w signals no_batch no_posts =
        posted-IsTaken (consume parts w signals).posts
          (rw from_signals (produced-Prepares signals w.cache w.count))
      where
        from_signals :
            posted (consume parts w signals).posts ≡ produced parts signals w.cache w.count
        from_signals = posted-consume parts w signals ∙ rw (no_posts, no_batch) refl
