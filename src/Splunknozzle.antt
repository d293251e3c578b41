-- ===== src/Splunknozzle.antt =====
-- splunknozzle: the configuration, and how the program is put together and run.
pub mod Config
pub mod Wiring
pub mod Run
pub mod Pipeline
