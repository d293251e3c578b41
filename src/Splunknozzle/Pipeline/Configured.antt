-- ===== src/Splunknozzle/Pipeline/Configured.antt =====
-- The parts as EventSink and EventRouter make them of a configuration, at work.
use splunk_firehose_nozzle.Base.{
  ℕ, ◌<◌, ◌≤◌, Char, String, Bool, false, Option, List, [], ◌∷◌, ◌++◌, length, ◌≡◌, refl, subst,
  All, All-split, arith, Bool-cases, inl, inr, if◌then◌else◌,
}
use splunk_firehose_nozzle.Base.Int.{pos, pos_part, ltb_ℤ}
use splunk_firehose_nozzle.Base.Dict.{Dict}
use splunk_firehose_nozzle.Base.Result.{Result, ok, Result-cases}
use splunk_firehose_nozzle.Utils.Host.{Network}
use splunk_firehose_nozzle.Events.Extra.{parse_extra_fields}
use splunk_firehose_nozzle.Events.Envelope.{Envelope, event_name}
use splunk_firehose_nozzle.Events.Select.{mem_text}
use splunk_firehose_nozzle.Events.Select.Laws.{wanted_names}
use splunk_firehose_nozzle.Router.{Router, lookup-new}
use splunk_firehose_nozzle.Splunknozzle.Config.{Config}
use splunk_firehose_nozzle.Splunknozzle.Wiring.{
  EventSink, SinkError, sink_config, writer_config, make_sink, event_sink, event_router,
  parse_config,
}
use splunk_firehose_nozzle.Splunknozzle.Pipeline.{Program, started, AdvanceRun}
use splunk_firehose_nozzle.Splunknozzle.Pipeline.Wanted.{wanted, IsPart}
use splunk_firehose_nozzle.Splunknozzle.Pipeline.Delivery.{AdvanceRun-Sunk, AdvanceRun-delivers}
use splunk_firehose_nozzle.Nozzle.Loop.{reached}
use splunk_firehose_nozzle.Cache.App.{GetApp}
use splunk_firehose_nozzle.Sink.Build.{Runtime}
use splunk_firehose_nozzle.Sink.Index.{Writer}
use splunk_firehose_nozzle.Sink.Consume.{Parts, Post}
use splunk_firehose_nozzle.Sink.Workers.{Label}
use splunk_firehose_nozzle.Sink.Workers.Fifo.{all_taken}
use splunk_firehose_nozzle.Sink.Workers.Posts.{Run-posts}
use splunk_firehose_nozzle.Sink.Http.{Exchange, recorded, IsWrite, AllTried}
use splunk_firehose_nozzle.Sink.Http.Workers.{Run-AllTried}
use splunk_firehose_nozzle.Sink.Http.Says.{Says, IsRaw, Makes-IsRaw, AllTried-Says}
use splunk_firehose_nozzle.Sink.Workers.Made.{Run-AllMade}
use splunk_firehose_nozzle.Sink.Consume.Order.{posted}
use splunk_firehose_nozzle.Writer.{Event, Encoder, Transport, WriteError}

-- What a sink takes over from the configuration.
record TakesOver (c : Config) (sink : EventSink) : Type 0 where
  pub retries : sink.config.retries ≡ pos_part c.retries
  pub batch_size : sink.config.batch_size ≡ pos_part c.batch_size
  pub writer : sink.writer_config ≡ writer_config c

same_sink : (a b : EventSink) → ◌≡◌ {A = Result SinkError EventSink} (ok a) (ok b) → a ≡ b
same_sink a b h = cc

make_sink-TakesOver :
    (fold : Char → Char) (network : Network) (uuid : String) (extra : Dict String) (c : Config)
    (sink : EventSink)
    → make_sink fold network uuid extra c ≡ ok sink
    → TakesOver c sink
unfolding make_sink sink_config
make_sink-TakesOver fold network uuid extra c sink h =
    elim (Bool-cases (ltb_ℤ c.queue_size (pos 0))) [
      | inl bad ↦ absurd (ground (arith, h, bad))
      | inr good ↦ elim (Bool-cases (ltb_ℤ c.hec_workers (pos 0))) [
        | inl bad ↦ absurd (ground (arith, h, good, bad))
        | inr fine ↦
            subst (λ s. TakesOver c s) (same_sink _ sink (rw (good, fine) at h))
              (record { retries = refl; batch_size = refl; writer = refl })
      ]
    ]

event_sink-TakesOver :
    (fold : Char → Char) (network : Network) (uuid : String) (c : Config) (sink : EventSink)
    → event_sink fold network uuid c ≡ ok sink
    → TakesOver c sink
unfolding event_sink
event_sink-TakesOver fold network uuid c sink h =
    elim (Result-cases (parse_extra_fields c.extra_fields)) [
      | inl (extra, good) ↦
          make_sink-TakesOver fold network uuid extra c sink (rw (good, event_sink) at h)
      | inr (e, bad) ↦ absurd (ground (arith, rw (bad, event_sink) at h))
    ]

-- The envelopes of the types that a text asks for.
abbrev pub asked_for : (String → Option (List String)) → String → List Envelope → List Envelope
asked_for decode text [] = []
asked_for decode text (e ∷ es) =
    let rest = asked_for decode text es in
    if mem_text (event_name e.event_type) (wanted_names decode text) then e ∷ rest else rest

wanted-asked_for :
    (decode : String → Option (List String)) (fold : Char → Char) (c : Config) (router : Router)
    (es : List Envelope)
    → event_router decode fold c ≡ ok router
    → wanted router es ≡ asked_for decode c.wanted_events es
unfolding event_router parse_config
wanted-asked_for decode fold c router [] h = refl
wanted-asked_for decode fold c router (e ∷ es) h = ground (
  arith,
  lookup-new decode (parse_config fold c) router (event_name e.event_type) h,
  wanted-asked_for decode fold c router es h,
)

-- NewSplunk with what EventSink made, and the cache, the writer and the library that it is given.
abbrev pub wired :
    {Err C W : Type 0} → EventSink → GetApp C → Writer Event Err W → Runtime → Parts Err C W
wired sink get_app writer runtime = record {
  get_app = get_app;
  writer = writer;
  config = sink.config;
  parse_config = sink.parse_config;
  runtime = runtime;
}

module _ {C T : Type 0} (fold : Char → Char) (network : Network) (uuid : String)
    (decode : String → Option (List String)) (c : Config) (sink : EventSink) (router : Router)
    (get_app : GetApp C) (runtime : Runtime) (transport : Transport T) (marshal : Encoder)
    (writer : Writer Event WriteError (List Exchange × T))
    (makes_sink : event_sink fold network uuid c ≡ ok sink)
    (makes_router : event_router decode fold c ≡ ok router)
    (is_write : IsWrite (recorded transport) marshal sink.writer_config writer)
    (sends : c.debug ≡ false) (monitored : Bool) where
  -- When EventSink and EventRouter have made their parts of a configuration that is not for debugging
  -- and whose batch size is above zero, and the workers' writers are Write with the configuration that
  -- EventSink gives them, then in every run of these parts: what the workers took, and then what waits
  -- in the queue, are, in order, envelopes that the source sent of the types that the flag's text asks
  -- for; every post holds an event and at most as many as the configured batch size; what a worker says
  -- over HTTP are the tries of its posts, at most as many for each as retries are configured; and every
  -- request that it makes is a POST to the collector at the configured host, with the configured token,
  -- whose body is the text of events that each name the index of their app or else the configured one,
  -- if that is not empty.
  pub configured-arrives :
      (cache : C) (states : ℕ → T) {n : ℕ} {es : List Envelope} {ks : List Label}
      {p : Program WriteError C (List Exchange × T)}
      → 0 < pos_part c.batch_size
      → AdvanceRun
          (wired sink get_app writer runtime)
          router
          monitored
          n
          (started cache (λ i. ([], states i)))
          es
          ks
          p
      → let seats = (reached p).router.seats in
        IsPart
          (all_taken ks ++ (reached p).router.queue.events)
          (asked_for decode c.wanted_events es)
        × ((i : ℕ)
            → All
                (λ (q : Post). (1 ≤ length q.events) × (length q.events ≤ pos_part c.batch_size))
                (seats i).posts
              × AllTried marshal
                  (writer_config c)
                  (pos_part c.retries)
                  (seats i).posts
                  (seats i).state.0
              × All
                  (λ (x : Exchange). Says c.splunk_host c.splunk_token c.splunk_index marshal x.0)
                  (seats i).state.0)
  unfolding writer_config
  configured-arrives cache states {es} {ks} {p} some_room program =
      let parts = wired sink get_app writer runtime in
      let taken = event_sink-TakesOver fold network uuid c sink makes_sink in
      let starts_empty : ℕ → List Exchange × T = λ i. ([], states i) in
      let is_configured =
        subst (λ w. IsWrite (recorded transport) marshal w writer) taken.writer is_write in
      let (lost, part, counted, dropped) =
        AdvanceRun-delivers parts router monitored cache starts_empty program in
      let (ls, run, written, of_taken, own) =
        AdvanceRun-Sunk parts router monitored cache starts_empty program in
      let tried =
        Run-AllTried transport marshal (writer_config c) parts is_configured sends cache states
          run in
      (
        subst (λ xs. IsPart (all_taken ks ++ (reached p).router.queue.events) xs)
            (wanted-asked_for decode fold c router es makes_router) part,
        λ i. (
          subst
              (λ (limit : ℕ).
                All (λ (q : Post). (1 ≤ length q.events) × (length q.events ≤ limit))
                  ((reached p).router.seats i).posts)
              taken.batch_size
              (Run-posts (writer_config c) parts cache starts_empty (rw taken.batch_size some_room)
                run i).0,
          subst
              (λ tries.
                AllTried marshal (writer_config c) tries ((reached p).router.seats i).posts
                  ((reached p).router.seats i).state.0)
              taken.retries (tried i),
          AllTried-Says (writer_config c) marshal (tried i)
              (All-split IsRaw (posted ((reached p).router.seats i).posts)
                ((reached p).router.seats i).batch
                (Makes-IsRaw parts (Run-AllMade parts cache starts_empty run i))).0,
        ),
      )
