-- ===== src/Billing/Webhooks/Entitled.antt =====
-- apps/auth-org-service/src/billing/stripe-billing.service.ts: every Stripe event leaves the tenants
-- with a tier, seats and a subscription that belong together.
use nestjs_saas.Prelude.{
  ℕ, String, Option, none, some, List, ◌≡◌, ◌⊎◌, arith, Option-cases, Bool-cases, inl, inr, is_some,
  All,
}
use nestjs_saas.Exec.{Action, ◌>>=◌, Result-cases}
use nestjs_saas.Prisma.{Prisma}
use nestjs_saas.Auth.State.{StripeWebhookEvent, Db}
use nestjs_saas.Exec.Keeps.{after_or_throw, after_lift}
use nestjs_saas.Billing.Stripe.{EventBody, Event, Stripe, BillingEnv, trimmed}
use nestjs_saas.Billing.Webhooks.{
  WebhookInputs, is_event, new_event, attempt, process_webhook_event_once, handle_event,
  handle_webhook_payload,
}
use nestjs_saas.Billing.Webhooks.Keeps.{after_handle_event}
use nestjs_saas.Billing.Subscriptions.Entitled.{
  IsEntitled, AllEntitled, write_subscription-AllEntitled, clear_subscription-AllEntitled,
  link_customer-AllEntitled,
}

module _ (prisma : Prisma) (env : BillingEnv) where
  handle_event-AllEntitled :
      (stripe : Option Stripe) (inputs : WebhookInputs) (body : EventBody) (db : Db)
      → AllEntitled prisma env db
      → AllEntitled prisma env (handle_event prisma env stripe inputs body db).1
  handle_event-AllEntitled =
      after_handle_event prisma env (AllEntitled prisma env)
        (write_subscription-AllEntitled prisma env) (clear_subscription-AllEntitled prisma env)
        (link_customer-AllEntitled prisma env)

  attempt-tenants :
      (event : Event) (now : ℕ) (handler : Action Db (Unit {0})) (db : Db)
      → (attempt prisma env event now handler db).1.tenants ≡ (handler db).1.tenants
  unfolding ◌>>=◌
  attempt-tenants event now handler db = elim (Result-cases (handler db).0) [
    | inl (done, fine) ↦ ground arith
    | inr (x, thrown) ↦ ground arith
  ]

  process-AllEntitled :
      (event : Event) (inputs : WebhookInputs) (handler : Action Db (Unit {0})) (db : Db)
      → ((db : Db) → AllEntitled prisma env db → AllEntitled prisma env (handler db).1)
      → AllEntitled prisma env db
      → AllEntitled prisma env (process_webhook_event_once prisma env event inputs handler db).1
  unfolding ◌>>=◌ process_webhook_event_once
  process-AllEntitled event inputs handler db keeps h =
      elim (process_writes (Option-cases (prisma.find_first (is_event event.id) rows))) [
        | inl same ↦ rw same h
        | inr (more, same) ↦ rw same (keeps (record db { stripe_webhook_events = more }) h)
      ]
    where
      rows : List StripeWebhookEvent
      rows = db.stripe_webhook_events

      after : Db
      after = (process_webhook_event_once prisma env event inputs handler db).1

      process_writes :
          (prisma.find_first (is_event event.id) rows ≡ none)
            ⊎ ((row : StripeWebhookEvent) × (prisma.find_first (is_event event.id) rows ≡ some row))
          → (after.tenants ≡ db.tenants)
            ⊎ ((more : List StripeWebhookEvent) × (after.tenants
                  ≡ (handler (record db { stripe_webhook_events = more })).1.tenants))
      process_writes (inl missing) =
          elim (Option-cases
            (prisma.create (is_event event.id) (new_event event inputs.received_at) rows)) [
              | inl clash ↦ inl (ground arith)
              | inr (more, made) ↦
                  let same =
                    attempt-tenants event inputs.finished_at handler
                      (record db { stripe_webhook_events = more }) in
                  inr (more, ground arith)
            ]
      process_writes (inr (row, found)) = elim (Bool-cases (is_some row.processed_at)) [
        | inl done ↦ inl (ground arith)
        | inr waiting ↦
            let same = attempt-tenants event inputs.finished_at handler db in
            inr (rows, ground arith)
      ]

  -- If every tenant above FREE has a subscription on record and at least one seat, and every FREE
  -- tenant has the configured number of free seats or none on record, then this is so after any
  -- webhook delivery, whatever the event, and whether it is answered or throws.
  pub handle_webhook_payload-IsEntitled :
      (stripe : Option Stripe) (raw_body : String) (signature : Option String)
      (inputs : WebhookInputs) (db : Db)
      → All (IsEntitled env.auth) db.tenants
      → All
          (IsEntitled env.auth)
          (handle_webhook_payload prisma env stripe raw_body signature inputs db).1.tenants
  unfolding handle_webhook_payload
  handle_webhook_payload-IsEntitled stripe raw_body signature inputs db h =
      after_or_throw (AllEntitled prisma env) (trimmed env.stripe_webhook_secret) _ _ db h
        (λ secret e. after_or_throw (AllEntitled prisma env) stripe _ _ db h (λ s e.
          after_or_throw (AllEntitled prisma env) (trimmed signature) _ _ db h (λ sig e.
            after_lift (AllEntitled prisma env) _ _ db h (λ event e.
              process-AllEntitled event inputs _ db
                (handle_event-AllEntitled stripe inputs event.body) h))))
