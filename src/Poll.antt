-- ===== src/Poll.antt =====
-- The polling of feeds: when a feed is polled, and what a poll does.
pub mod Refresh
pub mod Tests
pub mod Schedule
pub mod Window
pub mod NextCheck
