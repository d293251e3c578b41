-- ===== src/Examples/Http.antt =====
-- What a worker says over HTTP, on a run of two workers and a server that fails once.
use splunk_firehose_nozzle.Base.{
  ℕ, ◌+◌, Option, none, some, List, [], ◌∷◌, ◌≡◌, refl, ap, if◌then◌else◌, ltb, arith,
}
use splunk_firehose_nozzle.Base.Int.{pos}
use splunk_firehose_nozzle.Events.Envelope.{Envelope}
use splunk_firehose_nozzle.Sink.Queue.{Queue, write}
use splunk_firehose_nozzle.Sink.Index.{Writer}
use splunk_firehose_nozzle.Sink.Consume.{Parts}
use splunk_firehose_nozzle.Sink.Workers.{
  System, Label, opened, writes, takes, ticks, Run, start, later,
}
use splunk_firehose_nozzle.Sink.Http.{Exchange, recorded, IsWrite}
use splunk_firehose_nozzle.Writer.{
  WriterConfig, Event, Encoder, Response, failed, answered, Transport, WriteError,
}
use splunk_firehose_nozzle.Writer
use splunk_firehose_nozzle.Examples.World.{
  log_of, sink_config, writer_config, some_config, table_cache, runtime,
}

-- A server that is not reached by the first request, and takes the others.
abbrev pub server : Transport ℕ
server request n = (if ltb n 1 then failed "timeout" else answered 200 "", n + 1)

abbrev pub no_marshal : Encoder
no_marshal e = none

abbrev or_else : {A : Type 0} → A → Option A → A
or_else other none = other
or_else other (some x) = x

-- Write, where it does not panic.
abbrev pub http_writer : WriterConfig → Writer Event WriteError (List Exchange × ℕ)
http_writer config batch w =
    or_else (record { batch = batch; error = none; count = 0 }, w)
      (Writer.write (recorded server) no_marshal config batch w)

pub http_writer-IsWrite :
    (config : WriterConfig) → IsWrite (recorded server) no_marshal config (http_writer config)
http_writer-IsWrite config batch w r h =
    ap (or_else (record { batch = batch; error = none; count = 0 }, w)) h

abbrev pub http_parts : Parts WriteError (Unit {0}) (List Exchange × ℕ)
http_parts = record {
  get_app = table_cache;
  writer = http_writer writer_config;
  config = sink_config;
  parse_config = some_config;
  runtime = runtime;
}

abbrev fresh : System WriteError (Unit {0}) (List Exchange × ℕ)
fresh = opened tt (λ i. ([], 0))

abbrev holding : List Envelope → Queue Envelope
holding es = record { events = es; dropped_events = 0; warnings = [] }

abbrev one : Envelope
one = log_of "app-2" "one"

taken : write sink_config one (holding []) ≡ some (holding (one ∷ []))
unfolding write
taken = refl

-- Worker 1 takes an envelope, and posts it when its timer ticks.
abbrev posted_run :
    (ls : List Label) × (t : System WriteError (Unit {0}) (List Exchange × ℕ)) × Run http_parts 2
      fresh ls t
posted_run = (
  _,
  _,
  later
      (later (later start (writes one refl taken refl))
        (takes 1 one [] (pos 5) (omega arith) refl refl))
      (ticks 1 (omega arith) refl),
)
