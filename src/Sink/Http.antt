-- ===== src/Sink/Http.antt =====
-- The sink whose writers are those of eventwriter/splunk.go: what its workers say over HTTP.
pub mod Batch
pub mod Workers
pub mod Says
use splunk_firehose_nozzle.Base.{ℕ, suc, Bool, true, false, none, some, List, [], ◌∷◌, ◌++◌, ◌≡◌}
use splunk_firehose_nozzle.Sink.Index.{Written, Writer}
use splunk_firehose_nozzle.Sink.Consume.{Post}
use splunk_firehose_nozzle.Writer.{
  WriterConfig, Event, Encoder, Request, Response, Transport, WriteError, body_of, request_of,
  error_of, prepare_all, write,
}

-- A request and what came of it.
abbrev pub Exchange : Type 0
Exchange = Request × Response

-- A transport that keeps a record, oldest first.
abbrev pub recorded : {T : Type 0} → Transport T → Transport (List Exchange × T)
recorded transport request (before, t) =
    let (response, t') = transport request t in (response, (before ++ (request, response) ∷ [], t'))

-- The writer is Write, on every batch on which Write does not panic.
abbrev pub IsWrite :
    {W : Type 0} → Transport W → Encoder → WriterConfig → Writer Event WriteError W → Type 0
IsWrite {W} transport marshal config writer =
    (batch : List Event) (w : W) (r : Written Event WriteError × W)
    → write transport marshal config batch w ≡ some r
    → writer batch w ≡ r

-- The tries of one request, as many as are allowed: each but the last fails, and the last succeeds, or
-- it fails and no try is left.
pub data Tried (request : Request) : ℕ → List Exchange → Bool → Type 0 where
  gave_up : Tried request 0 [] false
  succeeded :
      {left : ℕ} (response : Response)
      → error_of response ≡ none
      → Tried request (suc left) ((request, response) ∷ []) true
  failed :
      {left : ℕ} {rest : List Exchange} {accepted : Bool} (response : Response) (e : WriteError)
      → error_of response ≡ some e
      → Tried request left rest accepted
      → Tried request (suc left) ((request, response) ∷ rest) accepted

-- The exchanges of posts, one post after the other: each is the request of its prepared events.
pub data AllTried (marshal : Encoder) (config : WriterConfig) (retries : ℕ)
    : List Post → List Exchange → Type 0 where
  untried : AllTried marshal config retries [] []
  tried_next :
      {posts : List Post} {before tries : List Exchange} (p : Post) (prepared : List Event)
      → AllTried marshal config retries posts before
      → prepare_all config p.events ≡ some prepared
      → Tried (request_of config (body_of marshal prepared)) retries tries p.accepted
      → AllTried marshal config retries (posts ++ p ∷ []) (before ++ tries)
