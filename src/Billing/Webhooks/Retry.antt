-- ===== src/Billing/Webhooks/Retry.antt =====
-- apps/auth-org-service/src/billing/stripe-billing.service.ts: a Stripe event that failed is recorded
-- with its error, and worked on again when it is delivered again.
-- The primary key: one event id, one row.
use nestjs_saas.Prelude.{List, Memᴰ, ◌≡◌}
use nestjs_saas.Prisma.{Prisma}
use nestjs_saas.Auth.State.{StripeWebhookEvent}

abbrev pub HasDistinctEvents : List StripeWebhookEvent → Type 0
HasDistinctEvents rows =
    (a b : StripeWebhookEvent)
    → Memᴰ a rows
    → Memᴰ b rows
    → a.stripe_event_id ≡ b.stripe_event_id
    → a ≡ b
