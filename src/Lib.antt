-- ===== src/Lib.antt =====
-- splunk-firehose-nozzle reads the envelopes of a Cloud Foundry firehose and posts them, as events, to
-- Splunk's HTTP Event Collector. The parts work together as follows. The nozzle (nozzle) reads the
-- envelopes of the source and gives them to its router until it is closed. The router (eventrouter)
-- gives the envelopes of the selected types to the sink (eventsink), whose Write puts them in a queue of
-- bounded size or drops them. A worker of the sink takes them from the queue, turns each into a map of
-- fields (events), with the metadata of its app from the cache (cache), collects the built events in
-- a batch, and hands the batch to its writer (eventwriter), again and again while the writer fails.
--
-- Where each part is modelled; the Go name is written in camel case, the definition in snake case:
--   Value, Base            Go's interface{} values and maps (Base/Dict: an association list with one
--                          entry for a key), int64 as ℤ with wrap64 where the code can overflow,
--                          float64 as its 64 bits, strings as text.
--   Utils                  utils/utils.go: FormatUUID (Uuid), NanoSecondsToSeconds (Seconds),
--                          ConcatFormat (Text), ToJson (Json), and the functions of strings and
--                          strconv that the program calls.
--   Events                 events/events.go. Envelope has the messages of the firehose with the fields
--                          that are read; Convert the functions HttpStart to ContainerMetric; Annotate
--                          the three Annotate methods; Select ParseSelectedEvents and the lists of
--                          authorized names; Extra ParseExtraFields.
--   Cache                  cache/boltdb.go (Boltdb: the maps, the database and every operation as a
--                          function from state to state; Boltdb/Lifetime: Open with the loops that it
--                          starts, and all that can happen to an open cache; Names: the caches of spaces
--                          and orgs; Goroutines: the operations of boltdb.go as goroutines that run at
--                          the same time, one access to the shared maps a step, with apps as objects at
--                          addresses, Goroutines/Alone one of them with no other between its steps),
--                          cache/no_cache.go (NoCache) and cache/cache_easyjson.go (Json: an app as JSON,
--                          both ways). The timers are the three constructors of Tick, and the clock is
--                          an argument.
--   Sink                   eventsink/splunk.go. Parse is parseEvent; Queue is Write and the channel;
--                          Consume is one worker's loop, a function on the signals it selects;
--                          Index is indexEvents; Build is buildEvent; Workers is Open, Close and all
--                          the workers, a step relation on a queue, a cache and a counter that they
--                          share, with Made on what each builds of what it took and Finish on their end;
--                          Index/Calls and Consume/Calls are the calls that the writer then gets, over
--                          any writer, by a record of them; Log and Status are Log and
--                          LogStatus. Http is the sink with the Write of eventwriter/splunk.go as its
--                          writer, over a transport whose exchanges are recorded.
--   Writer                 eventwriter/splunk.go: Write and send.
--   Router                 eventrouter/default.go.
--   Nozzle                 nozzle/nozzle.go: Start, on the turns of its selects, with the state behind
--                          the router and the router's errors abstract, and handleError; Closing is Start
--                          and Close together, with the channels that they share.
--   Splunknozzle           splunknozzle/config.go (Config) and splunknozzle/nozzle.go: Wiring has the
--                          methods that make the parts of a configuration, Run what Run opens and
--                          closes, in order, and Pipeline what it then leaves to work: the goroutine
--                          of the nozzle's loop, whose router writes into the queue of Sink/Workers;
--                          Pipeline/Arrival follows it to HTTP, and Pipeline/Configured does so for the
--                          parts that EventSink and EventRouter make of a configuration.
--   Eventsource            eventsource/firehose.go, on the consumer of noaa.
--   Main                   main.go: what the process logs around the configuration and Run.
--   Tools                  tools/data_gen/data_gen.go (DataGen) and tools/dump_app_info/dump_app_info.go
--                          (DumpAppInfo).
--   Examples               the theorems about the above at concrete inputs, and runs.
--
-- Parameters stand for code that is not the program's: the Cloud Controller client (AppClient), the
-- database and the JSON codec of apps (Storage), the JSON decoder of log messages (Decoder), the JSON
-- encoder of events (Encoder), the HTTP transport (Transport), letter case beyond ASCII (fold), float64
-- arithmetic (Floats), the command line (CommandLine), host names (Network), the token client, the
-- consumer of the firehose (ConsumerApi), the environment and its numbers (Getenv, ParseInt), and
-- easyjson's lexer and writer (Jlexer, Jwriter). A theorem that relies on one of them names what it
-- relies on: StorageLaws says that put writes one key and that decoding an encoded app gives its guid
-- back, AnswersGuid that the API answers a query by guid with the app of that guid, WritesLines that an
-- encoded event is not empty and has no line feed in it, MovesForward that a lexer does not go back, and
-- ReadsPieces and WritesPieces that it reads, piece by piece, what a writer wrote. IsWrite says that a writer
-- is Write on every batch on which Write does not panic.
--
-- Bounds: every loop is by structural recursion on its input. indexEvents counts down the tries that
-- are left, and a number's decimal text is computed with the number plus one as fuel, more than the
-- number of its digits. The decoder of an app has as much fuel as its text has bytes, and is proved to
-- need no more. The event counter and the counter of dropped events wrap at 2 ^ 64.
--
-- Not modelled: signals, construction of clients and their I/O, what the consumer of the firehose does,
-- the printing sink, the texts that the tools print and the test doubles. In Sink/Workers a round of a
-- worker's loop is one step, with the lookup of an app and the count of an event in it: in the code
-- another worker can come between the receipt of an envelope, that lookup and that count. So nothing is
-- claimed about which of the values of the counter, or which state of the cache, an event gets in a run;
-- the order of the queue, the total of the counter, and what each worker makes, posts and says of its
-- own envelopes do not depend on it. A queue of size zero is always full here, where Go's channel hands an
-- envelope to a worker that waits. The back-off is computed in integers, which float64 agrees with up to
-- attempt 46. In Cache/Boltdb an operation of the cache is one step; Cache/Goroutines takes the same
-- operations apart at each access under a lock, and an update of the fields of an app, which the code
-- makes without one, is a step there too; GetAllApps, which holds the lock while it copies, is left to
-- Cache/Boltdb. Run is followed on the path where the signal to stop comes, or the nozzle ends; Pipeline
-- begins with the sink open, lets it be closed at any time, once, and ends where Write panics on a sink
-- that is closed. DataGen ends with the loop of lines, and leaves out the loop behind it that says for
-- ever that it is done.
pub mod Base
pub mod Utils
pub mod Value
pub mod Events
pub mod Cache
pub mod Sink
pub mod Router
pub mod Writer
pub mod Nozzle
pub mod Splunknozzle
pub mod Eventsource
pub mod Tools
pub mod Main
pub mod Examples
