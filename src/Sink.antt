-- ===== src/Sink.antt =====
-- eventsink/splunk.go: the queue behind the router, and the workers that post batches to Splunk.
pub mod Parse
pub mod Build
pub mod Index
pub mod Consume
pub mod Queue
pub mod Workers
pub mod Log
pub mod Status
pub mod Http
