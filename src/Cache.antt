-- ===== src/Cache.antt =====
-- Package cache: what the nozzle knows of the applications that log.
pub mod App
pub mod Names
pub mod Json
pub mod Boltdb
pub mod Goroutines
pub mod NoCache
