-- ===== src/Billing.antt =====
-- apps/auth-org-service/src/billing: Stripe subscriptions, webhooks and checkouts.
pub mod Stripe
pub mod Subscriptions
pub mod Webhooks
pub mod Checkout
mod Examples
