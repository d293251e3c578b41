-- ===== src/Tools.antt =====
-- The developer's tools of tools.
pub mod DataGen
pub mod DumpAppInfo
