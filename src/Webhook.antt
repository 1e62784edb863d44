-- ===== src/Webhook.antt =====
-- The delivery of webhooks: internal/worker/webhooks.go, webhook_digest.go and webhook_flood.go, and
-- what they use of internal/storage.
pub mod Tests
pub mod Backoff
pub mod OnSuccess
pub mod Delivery
pub mod Digest
