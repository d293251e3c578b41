-- ===== src/Sink/Http/Says.antt =====
-- What stands in the requests: host, token and the index of each event, in the words of HTTP.
use Prim.Native.String
use splunk_firehose_nozzle.Base.{
  ℕ, String, Bool, Option, none, some, List, [], ◌∷◌, ◌++◌, ◌==◌, if◌then◌else◌, ◌≡◌, refl, ◌∙◌,
  subst, All, All-append, All-split, Option-cases, inl, inr, arith,
}
use splunk_firehose_nozzle.Base.Dict.{lookup}
use splunk_firehose_nozzle.Value.{str, obj, Fields, entries, is_nil}
use splunk_firehose_nozzle.Events.Annotate.{value_at}
use splunk_firehose_nozzle.Events.Envelope.{Envelope}
use splunk_firehose_nozzle.Sink.Build.Contents.{lookup-build_event}
use splunk_firehose_nozzle.Sink.Consume.{Built, Post, Parts}
use splunk_firehose_nozzle.Sink.Consume.Order.{posted, posted-append}
use splunk_firehose_nozzle.Sink.Workers.Made.{Makes, nothing_made, passed_over, made}
use splunk_firehose_nozzle.Sink.Http.{
  Exchange, Tried, gave_up, succeeded, failed, AllTried, untried, tried_next,
}
use splunk_firehose_nozzle.Writer.{
  WriterConfig, Event, Encoder, Request, prepare, prepare_all, body_of, request_of,
}
use splunk_firehose_nozzle.Writer.Index.{prepare-event}

-- An event that was posted: it has a map of fields under "event", and the index that is first among
-- that of the app in the fields, and the configured one if that is not empty.
abbrev pub Names : String → Event → Type 0
Names index e =
    (shown : Fields) × (lookup "event" e ≡ some (obj shown))
    × (lookup "index" e ≡ (
        if is_nil (value_at "info_splunk_index" (entries shown))
        then (if index == "" then none else some (str index))
        else some (value_at "info_splunk_index" (entries shown))))

-- A request to the collector of the host, with the token, whose body is the text of such events.
pub record Says (host token index : String) (marshal : Encoder) (request : Request) : Type 0 where
  pub method : request.method ≡ "POST"
  pub endpoint : request.endpoint ≡ String.◌++◌ host "/services/collector"
  pub credential : lookup "Authorization" request.headers ≡ some (String.◌++◌ "Splunk " token)
  pub body :
      (events : List Event) × (request.body ≡ body_of marshal events) × All (Names index) events

-- An event as buildEvent leaves it: a map under "event", and no index.
abbrev pub IsRaw : Built → Type 0
IsRaw e = ((shown : Fields) × (lookup "event" e ≡ some (obj shown))) × (lookup "index" e ≡ none)

pub Makes-IsRaw :
    {Err C W : Type 0} (parts : Parts Err C W) {es : List Envelope} {bs : List Built}
    → Makes parts es bs
    → All IsRaw bs
Makes-IsRaw parts nothing_made = tt
Makes-IsRaw parts (passed_over e cache h none_here) = Makes-IsRaw parts h
Makes-IsRaw parts (made {bs} e cache fields now count h found) =
    All-append IsRaw bs _ (Makes-IsRaw parts h) (
      (
        (_, lookup-build_event parts.config parts.runtime now fields count "event" refl),
        lookup-build_event parts.config parts.runtime now fields count "index" refl,
      ),
      tt,
    )

module _ (config : WriterConfig) where
  prepare-Names :
      (event e : Event) → IsRaw event → prepare config event ≡ some e → Names config.index e
  prepare-Names event e ((shown, at), no_index) made_so =
      let (kept, index) = prepare-event config event e shown at made_so in
      (shown, kept, index ∙ rw no_index refl)

  prepare_all-Names :
      (events prepared : List Event)
      → All IsRaw events
      → prepare_all config events ≡ some prepared
      → All (Names config.index) prepared
  unfolding prepare_all
  prepare_all-Names [] prepared raw h =
      subst (λ (es : List Event). All (Names config.index) es) (the_same [] prepared h) tt
    where
      the_same : (a b : List Event) → ◌≡◌ {A = Option (List Event)} (some a) (some b) → a ≡ b
      the_same a b k = ground (arith, k)
  prepare_all-Names (e ∷ events) prepared (raw, rest) h = elim (Option-cases (prepare config e)) [
    | inl panic ↦ absurd (ground (arith, rw (panic, prepare_all) at h))
    | inr (e', one) ↦ elim (Option-cases (prepare_all config events)) [
      | inl panic ↦ absurd (ground (arith, rw (one, panic, prepare_all) at h))
      | inr (es, others) ↦
          subst (λ (xs : List Event). All (Names config.index) xs)
            (the_same (e' ∷ es) prepared (rw (one, others, prepare_all) at h))
            (prepare-Names e e' raw one, prepare_all-Names events es rest others)
    ]
  ]
    where
      the_same : (a b : List Event) → ◌≡◌ {A = Option (List Event)} (some a) (some b) → a ≡ b
      the_same a b k = ground (arith, k)

  module _ (marshal : Encoder) where
    abbrev pub SaysIn : Exchange → Type 0
    SaysIn x = Says config.host config.token config.index marshal x.0

    request_of-Says :
        (events : List Event)
        → All (Names config.index) events
        → Says config.host config.token config.index marshal
            (request_of config (body_of marshal events))
    unfolding request_of lookup
    request_of-Says events named = record {
      method = refl;
      endpoint = refl;
      credential = refl;
      body = (events, refl, named);
    }

    Tried-Says :
        (request : Request) {left : ℕ} {tries : List Exchange} {accepted : Bool}
        → Says config.host config.token config.index marshal request
        → Tried request left tries accepted
        → All SaysIn tries
    Tried-Says request says gave_up = tt
    Tried-Says request says (succeeded response fine) = (says, tt)
    Tried-Says request says (failed response e wrong rest) = (says, Tried-Says request says rest)

    split-IsRaw :
        (posts : List Post) (p : Post)
        → All IsRaw (posted (posts ++ p ∷ []))
        → All IsRaw (posted posts) × All IsRaw p.events
    split-IsRaw posts p raw =
        let (before, own) =
          All-split IsRaw (posted posts) (p.events ++ [])
            (subst (λ es. All IsRaw es) (posted-append posts (p ∷ [])) raw) in
        (before, (All-split IsRaw p.events [] own).0)

    -- All that is said for posts whose events are as buildEvent leaves them.
    pub AllTried-Says :
        {retries : ℕ} {posts : List Post} {exchanges : List Exchange}
        → AllTried marshal config retries posts exchanges
        → All IsRaw (posted posts)
        → All SaysIn exchanges
    AllTried-Says untried raw = tt
    AllTried-Says (tried_next {posts} {before} {tries} p prepared told ready tried) raw =
        let (before_raw, own_raw) = split-IsRaw posts p raw in
        let says = request_of-Says prepared (prepare_all-Names p.events prepared own_raw ready) in
        All-append SaysIn before tries (AllTried-Says told before_raw)
          (Tried-Says (request_of config (body_of marshal prepared)) says tried)
