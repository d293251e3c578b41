-- ===== src/Sink/Consume/Order.antt =====
-- What a worker posts, as a list of events: those that it built, in order.
use mathlib.Core.List.{append_assoc, append-nil}
use splunk_firehose_nozzle.Base.{
  ℕ, ◌+◌, zero, suc, Bool, Option, none, some, List, [], ◌∷◌, ◌++◌, ◌≡◌, refl, sym, ◌∙◌, arith, leb,
  length, Bool-cases, inl, inr,
}
use splunk_firehose_nozzle.Base.Int.{ℤ}
use splunk_firehose_nozzle.Sink.Parse.{parse_event}
use splunk_firehose_nozzle.Sink.Build.{SinkConfig, build_event}
use splunk_firehose_nozzle.Sink.Index.{Writer, index_events, attempts}
use splunk_firehose_nozzle.Sink.Consume.{
  Built, Signal, received, timer, Post, Worker, Parts, post_of, flush, add_built, take_parsed,
  consume_step, consume,
}

-- the events of all posts, oldest first
abbrev pub posted : List Post → List Built
posted [] = []
posted (p ∷ ps) = p.events ++ posted ps

pub posted-append : (ps qs : List Post) → posted (ps ++ qs) ≡ posted ps ++ posted qs
posted-append [] qs = refl
posted-append (p ∷ ps) qs =
    rw (posted-append ps qs) (sym (append_assoc p.events (posted ps) (posted qs)))

posted-post_of : (batch : List Built) (accepted : Bool) → posted (post_of batch accepted) ≡ batch
posted-post_of [] accepted = refl
posted-post_of (e ∷ batch) accepted = rw append-nil

module _ {B Err W : Type 0} (writer : Writer B Err W) (config : SinkConfig) where
  batch-attempts :
      (left i : ℕ) (batch : List B) (w : W) → (attempts writer config left i batch w).batch ≡ []
  unfolding attempts
  batch-attempts zero i batch w = refl
  batch-attempts (suc left) i batch w =
      ground (arith, batch-attempts left (i + 1) (writer batch w).0.batch (writer batch w).1)

  -- Whatever the writer does, no event is left in the batch.
  pub batch-index_events :
      (batch : List B) (w : W) → (index_events writer config batch w).batch ≡ []
  unfolding index_events
  batch-index_events [] w = refl
  batch-index_events (e ∷ batch) w = batch-attempts config.retries 0 (e ∷ batch) w

-- everything that was posted or waits in the batch
abbrev pub pending : {Err C W : Type 0} → Worker Err C W → List Built
pending w = posted w.posts ++ w.batch

module _ {Err C W : Type 0} (parts : Parts Err C W) where
  -- The event that is built of a parsed envelope, if any, with the cache and the counter behind it.
  unfoldable pub build_parsed : ℤ → ℕ → Option Built × C → List Built × C × ℕ
  build_parsed now count (none, cache) = ([], cache, count)
  build_parsed now count (some fields, cache) =
      let (e, count') = build_event parts.config parts.runtime now fields count in
      (e ∷ [], cache, count')

  -- The events that the signals come to, in order, whatever is done with them.
  unfoldable pub produced : List Signal → C → ℕ → List Built
  unfolding build_parsed
  produced [] cache count = []
  produced (timer ∷ signals) cache count = produced signals cache count
  produced (received event now ∷ signals) cache count =
      let (built, cache', count') =
        build_parsed now count (parse_event parts.get_app parts.parse_config event cache) in
      built ++ produced signals cache' count'

  pending-flush : (w : Worker Err C W) → pending (flush parts w) ≡ pending w
  unfolding flush
  pending-flush w = rw (
    batch-index_events parts.writer parts.config w.batch w.state,
    posted-append w.posts,
    posted-post_of w.batch,
    append-nil,
  )

  posted-flush : (w : Worker Err C W) → posted (flush parts w).posts ≡ pending w
  unfolding flush
  posted-flush w = rw (posted-append w.posts, posted-post_of w.batch)

  -- A built event goes to the end of what is pending.
  abbrev pub Builds : Worker Err C W → List Built × C × ℕ → Worker Err C W → Type 0
  Builds w (built, cache, count) w' =
      (pending w' ≡ pending w ++ built) × (w'.cache ≡ cache) × (w'.count ≡ count)

  pub flush-Builds : (w : Worker Err C W) → Builds w ([], w.cache, w.count) (flush parts w)
  flush-Builds w =
      (rw pending-flush (sym (append-nil (pending w))), unfold flush in refl, unfold flush in refl)

  add_built-Builds :
      (w : Worker Err C W) (e : Built) (count : ℕ)
      → Builds w (e ∷ [], w.cache, count) (add_built parts w (e, count))
  unfolding add_built
  add_built-Builds w e count =
      elim (Bool-cases (leb parts.config.batch_size (length (w.batch ++ e ∷ [])))) [
        | inl full ↦ rw full (
          pending-flush (record w { batch = w.batch ++ e ∷ []; count = count })
              ∙ sym (append_assoc (posted w.posts) w.batch (e ∷ [])),
          unfold flush in refl,
          unfold flush in refl,
        )
        | inr room ↦ rw room (sym (append_assoc (posted w.posts) w.batch (e ∷ [])), refl, refl)
      ]

  take_parsed-Builds :
      (w : Worker Err C W) (now : ℤ) (parsed : Option Built × C)
      → Builds w (build_parsed now w.count parsed) (take_parsed parts w now parsed)
  unfolding take_parsed build_parsed
  take_parsed-Builds w now (none, cache) = (sym (append-nil (pending w)), refl, refl)
  take_parsed-Builds w now (some fields, cache) =
      let (e, count') = build_event parts.config parts.runtime now fields w.count in
      add_built-Builds (record w { cache = cache }) e count'

  -- What a turn of a worker builds.
  abbrev pub built_in : Worker Err C W → Signal → List Built × C × ℕ
  built_in w timer = ([], w.cache, w.count)
  built_in w (received event now) =
      build_parsed now w.count (parse_event parts.get_app parts.parse_config event w.cache)

  pub consume_step-Builds :
      (w : Worker Err C W) (s : Signal) → Builds w (built_in w s) (consume_step parts w s)
  unfolding consume_step
  consume_step-Builds w timer = flush-Builds w
  consume_step-Builds w (received event now) =
      take_parsed-Builds w now (parse_event parts.get_app parts.parse_config event w.cache)

  Builds-produced :
      (w w' : Worker Err C W) (built : List Built) (cache : C) (count : ℕ) (signals : List Signal)
      → Builds w (built, cache, count) w'
      → posted w'.posts ++ (w'.batch ++ produced signals w'.cache w'.count)
        ≡ posted w.posts ++ (w.batch ++ (built ++ produced signals cache count))
  Builds-produced w w' built cache count signals (grown, same_cache, same_count) =
      rw (same_cache, same_count, ← append_assoc (posted w'.posts), grown) (simp append_assoc)

  -- A worker posts every event that it built, once and in the order in which the envelopes came, and
  -- nothing else: its posts are those that it had made, its batch, and the events of the signals.
  pub posted-consume :
      (w : Worker Err C W) (signals : List Signal)
      → posted (consume parts w signals).posts
        ≡ posted w.posts ++ (w.batch ++ produced signals w.cache w.count)
  unfolding consume produced
  posted-consume w [] = rw append-nil (posted-flush w)
  posted-consume w (timer ∷ signals) =
      posted-consume (consume_step parts w timer) signals
      ∙ Builds-produced w (consume_step parts w timer) [] w.cache w.count signals
          (consume_step-Builds w timer)
  posted-consume w (received event now ∷ signals) =
      posted-consume (consume_step parts w (received event now)) signals
      ∙ Builds-produced w (consume_step parts w (received event now)) _ _ _ signals
          (consume_step-Builds w (received event now))
