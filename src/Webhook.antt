-- ===== src/Webhook.antt =====
-- modules/webhooks.
pub mod Service
pub mod Events
pub mod Once
mod Tests
