-- ===== src/Billing/Webhooks.antt =====
-- apps/auth-org-service/src/billing/stripe-billing.service.ts: `processWebhookEventOnce`,
-- `onCheckoutSessionCompleted` and `handleWebhookPayload`.
pub mod Keeps
pub mod Once
pub mod Retry
pub mod Entitled
pub mod Failures
use nestjs_saas.Prelude.{
  ℕ, ◌-◌, String, Option, none, some, Bool, false, not, if◌then◌else◌, ◌==◌, is_some,
}
use nestjs_saas.Exec.{
  Error, prisma_error, Result, ok, err, Action, pure, throw, gets, lift, or_throw, ◌>>=◌, ◌>>◌,
  modify, try_catch, message_of, bad_request, service_unavailable,
}
use nestjs_saas.Prisma.{Prisma}
use nestjs_saas.Js.Text.{slice_start}
use nestjs_saas.Auth.State.{StripeWebhookEvent, Db}
use nestjs_saas.Billing.Stripe.{
  Expandable, by_id, expanded, Subscription, customer, CheckoutMode, CheckoutSession,
  SubscriptionEvent, InvoiceEvent, EventBody, checkout_session_completed, subscription_event,
  invoice_event, other_event, Event, Stripe, BillingEnv, truthy, trimmed,
}
use nestjs_saas.Billing.Subscriptions.{
  customer_id_of, sync_subscription_record, sync_subscription_by_id, on_invoice_subscription_sync,
  handle_subscription_lifecycle_event,
}

-- The readings of the clock: of the SDK's check, of the event's row, of the tenant's rows and of the end of the work.
pub record WebhookInputs : Type 0 where
  pub verified_at : ℕ
  pub received_at : ℕ
  pub linked_at : ℕ
  pub synced_at : ℕ
  pub finished_at : ℕ

abbrev subscription_event_text : SubscriptionEvent → String
subscription_event_text SubscriptionEvent.created = "customer.subscription.created"
subscription_event_text SubscriptionEvent.updated = "customer.subscription.updated"
subscription_event_text SubscriptionEvent.deleted = "customer.subscription.deleted"
subscription_event_text SubscriptionEvent.paused = "customer.subscription.paused"
subscription_event_text SubscriptionEvent.resumed = "customer.subscription.resumed"
subscription_event_text SubscriptionEvent.pending_update_applied =
    "customer.subscription.pending_update_applied"
subscription_event_text SubscriptionEvent.pending_update_expired =
    "customer.subscription.pending_update_expired"
subscription_event_text SubscriptionEvent.trial_will_end = "customer.subscription.trial_will_end"

abbrev invoice_event_text : InvoiceEvent → String
invoice_event_text InvoiceEvent.paid = "invoice.paid"
invoice_event_text InvoiceEvent.payment_succeeded = "invoice.payment_succeeded"
invoice_event_text InvoiceEvent.payment_failed = "invoice.payment_failed"
invoice_event_text InvoiceEvent.finalized = "invoice.finalized"
invoice_event_text InvoiceEvent.voided = "invoice.voided"

abbrev pub type_of : EventBody → String
type_of (checkout_session_completed s) = "checkout.session.completed"
type_of (subscription_event kind sub) = subscription_event_text kind
type_of (invoice_event kind invoice) = invoice_event_text kind
type_of (other_event type) = type

abbrev pub is_event : String → StripeWebhookEvent → Bool
is_event id e = e.stripe_event_id == id

abbrev pub new_event : Event → ℕ → StripeWebhookEvent
new_event event now = record {
  stripe_event_id = event.id;
  event_type = type_of event.body;
  created_at = now;
  updated_at = now;
  processed_at = none;
  handling_error = none;
}

abbrev pub processed : ℕ → StripeWebhookEvent → StripeWebhookEvent
processed now e = record e { updated_at = now; processed_at = some now; handling_error = none }

abbrev pub failed : ℕ → Error → StripeWebhookEvent → StripeWebhookEvent
failed now x e = record e {
  updated_at = now;
  handling_error = some (slice_start 1000 (message_of x));
}

module _ (prisma : Prisma) (env : BillingEnv) where
  -- `stripeWebhookEvent.update`, of a row that is there by then
  abbrev pub update_event : String → (StripeWebhookEvent → StripeWebhookEvent) → Db → Db
  update_event id change db = record db {
    stripe_webhook_events = (prisma.update_many (is_event id) change db.stripe_webhook_events).1;
  }

  -- The row is created where the event is new; one that failed before is there already.
  abbrev pub note_event : Event → ℕ → Option StripeWebhookEvent → Action Db (Unit {0})
  note_event event now (some existing) = pure tt
  note_event event now none = do
    db ← gets (λ db. db)
    let row = new_event event now
    rows ←
        or_throw (prisma.create (is_event event.id) row db.stripe_webhook_events)
          (prisma_error "P2002")
    modify (λ db. record db { stripe_webhook_events = rows })

  -- The `try` with its `catch`.
  abbrev pub attempt : Event → ℕ → Action Db (Unit {0}) → Action Db (Unit {0})
  attempt event now handler =
      try_catch (do handler; modify (update_event event.id (processed now)))
        (λ x. do modify (update_event event.id (failed now x)); throw x)

  abbrev pub work_on :
      Event
      → WebhookInputs
      → Action Db (Unit {0})
      → Option StripeWebhookEvent
      → Action Db (Unit {0})
  work_on event inputs handler existing = do
    note_event event inputs.received_at existing
    attempt event inputs.finished_at handler

  -- `existing?.processedAt`
  abbrev pub is_processed : Option StripeWebhookEvent → Bool
  is_processed none = false
  is_processed (some e) = is_some e.processed_at

  unfoldable pub process_webhook_event_once :
      Event → WebhookInputs → Action Db (Unit {0}) → Action Db (Unit {0})
  unfolding slice_start
  process_webhook_event_once event inputs handler = do
    existing ← gets (λ db. prisma.find_first (is_event event.id) db.stripe_webhook_events)
    if is_processed existing then pure tt else work_on event inputs handler existing

  -- `if (tenantId && customerId) …`
  abbrev pub link_customer : ℕ → Option String → Option String → Db → Db
  link_customer now (some tenant_id) (some customer_id) db = record db {
    tenants =
        (prisma.update_many (λ t. t.id == tenant_id)
          (λ t. record t { updated_at = now; stripe_customer_id = some customer_id }) db.tenants).1;
  }
  link_customer now _ _ db = db

  abbrev pub sync_reference :
      Option Stripe → ℕ → Option (Expandable Subscription) → Action Db (Unit {0})
  sync_reference stripe now none = pure tt
  sync_reference stripe now (some (expanded sub)) =
      sync_subscription_record prisma env stripe now sub
  sync_reference stripe now (some (by_id id)) =
      if id == "" then pure tt else sync_subscription_by_id prisma env stripe now id

  -- `if (session.mode !== 'subscription') return`
  abbrev pub sync_checkout :
      Option Stripe → ℕ → CheckoutMode → Option (Expandable Subscription) → Action Db (Unit {0})
  sync_checkout stripe now CheckoutMode.subscription reference = sync_reference stripe now reference
  sync_checkout stripe now _ reference = pure tt

  unfoldable pub on_checkout_session_completed :
      Option Stripe → WebhookInputs → CheckoutSession → Action Db (Unit {0})
  unfolding trimmed sync_subscription_record sync_subscription_by_id
  on_checkout_session_completed stripe inputs session = do
    modify (
        link_customer inputs.linked_at (trimmed session.metadata_tenant_id)
          (truthy (customer_id_of session.customer)))
    sync_checkout stripe inputs.synced_at session.mode session.subscription

  -- The switch on `event.type`.
  unfoldable pub handle_event : Option Stripe → WebhookInputs → EventBody → Action Db (Unit {0})
  unfolding on_checkout_session_completed on_invoice_subscription_sync
  handle_event stripe inputs (checkout_session_completed session) =
      on_checkout_session_completed stripe inputs session
  handle_event stripe inputs (subscription_event kind sub) =
      handle_subscription_lifecycle_event prisma env stripe inputs.synced_at kind sub
  handle_event stripe inputs (invoice_event kind invoice) =
      on_invoice_subscription_sync prisma env stripe inputs.synced_at invoice
  handle_event stripe inputs (other_event type) = pure tt

  -- A payload whose signature fails is a 400, whatever the SDK says.
  abbrev pub verified_event : Result Event → Result Event
  verified_event (ok event) = ok event
  verified_event (err e) = err (bad_request "Invalid Stripe webhook signature")

  unfoldable pub handle_webhook_payload :
      Option Stripe → String → Option String → WebhookInputs → Action Db (Unit {0})
  unfolding trimmed process_webhook_event_once handle_event
  handle_webhook_payload stripe raw_body signature inputs = do
    webhook_secret ←
        or_throw (trimmed env.stripe_webhook_secret)
          (service_unavailable "STRIPE_WEBHOOK_SECRET is not configured")
    s ← or_throw stripe (service_unavailable "STRIPE_SECRET_KEY is not configured")
    sig ← or_throw (trimmed signature) (bad_request "Missing Stripe-Signature header")
    event ← lift (verified_event (s.construct_event raw_body sig webhook_secret inputs.verified_at))
    process_webhook_event_once event inputs (handle_event stripe inputs event.body)
