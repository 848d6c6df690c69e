-- ===== src/Billing/Webhooks/Failures.antt =====
-- apps/auth-org-service/src/billing/stripe-billing.service.ts: what becomes of an invoice event whose
-- subscription Stripe does not give, and of a subscription that ended.
use nestjs_saas.Prelude.{
  ℕ, String, Option, some, true, false, ◌∷◌, ◌≡◌, ◌⊎◌, refl, ap, arith, Option-cases, Bool-cases,
  inl, inr, is_some, All, All-of_each,
}
use nestjs_saas.Exec.{Error, ok, err, Action, ◌>>=◌}
use nestjs_saas.Prisma.{Prisma}
use nestjs_saas.Auth.State.{StripeWebhookEvent, Db}
use nestjs_saas.Prisma.Rows.{create_free, All-update_many}
use nestjs_saas.Billing.Stripe.{
  Subscription, Invoice, SubscriptionEvent, InvoiceEvent, subscription_event, invoice_event, Event,
  Stripe, BillingEnv, truthy,
}
use nestjs_saas.Billing.Subscriptions.{
  customer_id_of, has_subscription, clear_subscription_by_stripe_id, sync_subscription_by_id,
  on_invoice_subscription_sync,
}
use nestjs_saas.Billing.Webhooks.{
  WebhookInputs, is_event, new_event, process_webhook_event_once, handle_event,
}
use nestjs_saas.Billing.Webhooks.Keeps.{handle_event-events}
use nestjs_saas.Billing.Webhooks.Once.{IsDone, worked}

module _ (prisma : Prisma) (env : BillingEnv) where
  failed_sync :
      (stripe : Stripe) (inputs : WebhookInputs) (kind : InvoiceEvent) (invoice : Invoice)
      (id : String) (x : Error) (db : Db)
      → truthy (customer_id_of invoice.subscription) ≡ some id
      → stripe.retrieve_subscription id ≡ err x
      → handle_event prisma env (some stripe) inputs (invoice_event kind invoice) db ≡ (ok tt, db)
  unfolding ◌>>=◌ handle_event on_invoice_subscription_sync sync_subscription_by_id
  failed_sync stripe inputs kind invoice id x db e e' = ground arith

  answered :
      (event : Event) (inputs : WebhookInputs) (handler : Action Db (Unit {0})) (db : Db)
      → ((db : Db) → handler db ≡ (ok tt, db))
      → ((process_webhook_event_once prisma env event inputs handler db).0 ≡ ok tt)
        × ((process_webhook_event_once prisma env event inputs handler db).1.tenants ≡ db.tenants)
  unfolding ◌>>=◌ process_webhook_event_once
  answered event inputs handler db quiet =
      let rows = db.stripe_webhook_events in
      elim (Option-cases (prisma.find_first (is_event event.id) rows)) [
        | inl missing ↦
            let new = new_event event inputs.received_at in
            let made =
              create_free prisma (is_event event.id) new rows
                (prisma.find_first_complete (is_event event.id) rows missing) in
            let q = quiet (record db { stripe_webhook_events = new ∷ rows }) in ground arith
        | inr (row, found) ↦ elim (Bool-cases (is_some row.processed_at)) [
          | inl done ↦ ground arith
          | inr waiting ↦ let q = quiet db in ground arith
        ]
      ]

  -- If Stripe does not give the subscription that an invoice event names, the delivery is answered
  -- without an error, no tenant changes, and the event is marked as processed: it is not tried again.
  pub invoice_event_lost :
      (stripe : Stripe) (event : Event) (inputs : WebhookInputs) (kind : InvoiceEvent)
      (invoice : Invoice) (id : String) (x : Error) (db : Db)
      → event.body ≡ invoice_event kind invoice
      → truthy (customer_id_of invoice.subscription) ≡ some id
      → stripe.retrieve_subscription id ≡ err x
      → let after =
          process_webhook_event_once prisma env event inputs
            (handle_event prisma env (some stripe) inputs event.body)
            db in
        (after.0 ≡ ok tt)
        × (after.1.tenants ≡ db.tenants)
        × (row : StripeWebhookEvent) × (prisma.find_first
              (is_event event.id)
              after.1.stripe_webhook_events
            ≡ some row)
        × (is_some row.processed_at ≡ true)
  unfolding IsDone
  invoice_event_lost stripe event inputs kind invoice id x db is_invoice named refused =
      let handler = handle_event prisma env (some stripe) inputs event.body in
      let quiet : (db : Db) → handler db ≡ (ok tt, db) =
        λ db. rw is_invoice (failed_sync stripe inputs kind invoice id x db named refused) in
      let (fine, same) = answered event inputs handler db quiet in
      let after = process_webhook_event_once prisma env event inputs handler db in
      let (row, found, done) =
        worked prisma env event inputs handler db after.1
          (handle_event-events prisma env (some stripe) inputs event.body)
          (ap (λ r. (r, after.1)) fine) in
      (fine, same, row, found, done)

  cleared :
      (now : ℕ) (id : String) (db : Db)
      → All
          (λ t. has_subscription prisma env id t ≡ false)
          (clear_subscription_by_stripe_id prisma env now id db).1.tenants
  unfolding ◌>>=◌ clear_subscription_by_stripe_id
  cleared now id db =
      All-update_many prisma (λ t. has_subscription prisma env id t ≡ false) _ _ db.tenants
        (All-of_each
          (λ t. elim (Bool-cases (has_subscription prisma env id t)) [
            | inl had ↦ rw had refl
            | inr other ↦ rw other other
          ])
          db.tenants)

  -- After a subscription was deleted or paused no tenant has it on record any more.
  pub subscription_ended :
      (stripe : Option Stripe) (inputs : WebhookInputs) (kind : SubscriptionEvent)
      (sub : Subscription) (db : Db)
      → (kind ≡ SubscriptionEvent.deleted) ⊎ (kind ≡ SubscriptionEvent.paused)
      → All
          (λ t. has_subscription prisma env sub.id t ≡ false)
          (handle_event prisma env stripe inputs (subscription_event kind sub) db).1.tenants
  unfolding handle_event
  subscription_ended stripe inputs kind sub db (inl ends) =
      rw ends (cleared inputs.synced_at sub.id db)
  subscription_ended stripe inputs kind sub db (inr ends) =
      rw ends (cleared inputs.synced_at sub.id db)
