-- ===== src/Sink/Consume.antt =====
-- consume: one worker, which collects parsed events and posts them in batches. A run of the loop is
-- the list of what its select received; after the list the channel is closed and drained.
pub mod Order
pub mod Prepared
pub mod Bounds
pub mod Calls
use splunk_firehose_nozzle.Base.{
  ℕ, Bool, true, false, Option, none, some, List, [], ◌∷◌, ◌++◌, length, leb, if◌then◌else◌,
}
use splunk_firehose_nozzle.Base.Int.{ℤ}
use splunk_firehose_nozzle.Base.Dict.{Dict}
use splunk_firehose_nozzle.Value.{Value}
use splunk_firehose_nozzle.Cache.App.{GetApp}
use splunk_firehose_nozzle.Events.Envelope.{Envelope}
use splunk_firehose_nozzle.Events.Annotate
use splunk_firehose_nozzle.Sink.Parse.{parse_event}
use splunk_firehose_nozzle.Sink.Build.{SinkConfig, Runtime, build_event}
use splunk_firehose_nozzle.Sink.Index.{Writer, Action, Indexed, index_events}

abbrev pub Built : Type 0
Built = Dict Value

-- An envelope with the time of the clock when it is built, or the flush timer.
pub data Signal : Type 0 where
  received : Envelope → ℤ → Signal
  timer : Signal

-- A call of indexEvents that had events: the events, and whether the writer took them.
pub record Post : Type 0 where
  pub events : List Built
  pub accepted : Bool

-- The loop's batch, with the state that its calls reach: the cache, the counter of events, what is
-- behind the writer. `posts` and `actions` record what was done.
pub record Worker (Err C W : Type 0) : Type 0 where
  pub batch : List Built
  pub cache : C
  pub count : ℕ
  pub state : W
  pub posts : List Post
  pub actions : List (Action Err)

-- The components that a sink is made of.
pub record Parts (Err C W : Type 0) : Type 0 where
  pub get_app : GetApp C
  pub writer : Writer Built Err W
  pub config : SinkConfig
  pub parse_config : Annotate.Config
  pub runtime : Runtime

-- an empty batch is not posted
abbrev pub post_of : List Built → Bool → List Post
post_of [] accepted = []
post_of (e ∷ batch) accepted = record { events = e ∷ batch; accepted = accepted } ∷ []

module _ {Err C W : Type 0} (parts : Parts Err C W) where
  -- batch = s.indexEvents(writer, batch)
  unfoldable pub flush : Worker Err C W → Worker Err C W
  flush w =
      let r = index_events parts.writer parts.config w.batch w.state in
      record w {
        batch = r.batch;
        state = r.state;
        posts = w.posts ++ post_of w.batch r.accepted;
        actions = w.actions ++ r.actions;
      }

  -- batch = append(batch, finalEvent), and the test of the batch limit
  unfoldable pub add_built : Worker Err C W → Built × ℕ → Worker Err C W
  add_built w (e, count) =
      let grown = record w { batch = w.batch ++ e ∷ []; count = count } in
      if leb parts.config.batch_size (length grown.batch) then flush grown else grown

  unfoldable pub take_parsed : Worker Err C W → ℤ → Option Built × C → Worker Err C W
  take_parsed w now (none, cache) = record w { cache = cache }
  take_parsed w now (some fields, cache) =
      add_built (record w { cache = cache })
        (build_event parts.config parts.runtime now fields w.count)

  unfoldable pub consume_step : Worker Err C W → Signal → Worker Err C W
  consume_step w (received event now) =
      take_parsed w now (parse_event parts.get_app parts.parse_config event w.cache)
  consume_step w timer = flush w

  unfoldable pub consume : Worker Err C W → List Signal → Worker Err C W
  consume w [] = flush w
  consume w (s ∷ signals) = consume (consume_step w s) signals
