-- ===== src/Examples.antt =====
-- The theorems at concrete inputs that meet their hypotheses, and tests of the definitions.
mod World
mod Pieces
mod Utils
mod Json
mod Sink
mod Cache
mod Writer
mod Router
mod Nozzle
mod Workers
mod Http
mod Extra
mod Splunknozzle
mod Logging
mod Pipeline
mod Configured
mod Goroutines
mod Tools
