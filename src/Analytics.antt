-- ===== src/Analytics.antt =====
-- apps/analytics-webhook-service: learning events, their delivery to webhooks, and dead letters.
pub mod State
pub mod Events
pub mod Backoff
pub mod Delivery
pub mod Reports
pub mod Activity
mod Examples
