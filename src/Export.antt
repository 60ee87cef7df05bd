-- ===== src/Export.antt =====
-- src/export: pushing readings to external networks, and the time arithmetic behind it.
pub mod Run
pub mod TimeUtil
pub mod Runner
pub mod Schedule
pub mod Webhook
pub mod Dsn
