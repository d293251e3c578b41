-- ===== src/Utils.antt =====
-- utils/utils.go, a module for each function or family of functions.
pub mod Decimal
pub mod Seconds
pub mod Uuid
pub mod Text
pub mod Json
pub mod Host
