-- ===== src/Worker.antt =====
-- internal/worker: what the loops that poll feeds and deliver webhooks keep in memory.
pub mod Inflight
pub mod Pauses
pub mod Dispatch
pub mod Polling
pub mod Tests
