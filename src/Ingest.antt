-- ===== src/Ingest.antt =====
-- services/ingest: webhooks of the provider are received, stored or forwarded to the payment manager.
pub mod Dto
pub mod ApiClient
pub mod Inbox
pub mod Webhook
pub mod Worker
mod Tests
