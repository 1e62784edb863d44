-- ===== src/Service.antt =====
-- internal/service: what a refresh keeps in memory between polls.
pub mod TtlCache
pub mod HostLimit
pub mod Tests
