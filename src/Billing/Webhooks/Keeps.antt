-- ===== src/Billing/Webhooks/Keeps.antt =====
-- apps/auth-org-service/src/billing/stripe-billing.service.ts: what every handler of a Stripe event
-- keeps, for a predicate that its writes keep.
use nestjs_saas.Prelude.{
  ℕ, String, Option, none, some, Bool, true, false, if◌then◌else◌, ◌≡◌, refl, ◌==◌,
}
use nestjs_saas.Exec.{Action, pure, lift, ◌>>=◌, modify}
use nestjs_saas.Prisma.{Prisma}
use nestjs_saas.Auth.State.{Db}
use nestjs_saas.Exec.Keeps.{after_lift, after_try_catch}
use nestjs_saas.Billing.Stripe.{
  Expandable, by_id, expanded, Subscription, CheckoutMode, SubscriptionEvent, EventBody,
  checkout_session_completed, subscription_event, invoice_event, other_event, Stripe, BillingEnv,
  truthy, trimmed,
}
use nestjs_saas.Billing.Subscriptions.{
  customer_id_of, resolve_tenant_id, write_subscription, sync_subscription_record,
  clear_subscription_by_stripe_id, sync_subscription_by_id, on_invoice_subscription_sync,
  handle_subscription_lifecycle_event,
}
use nestjs_saas.Billing.Webhooks.{
  WebhookInputs, sync_reference, sync_checkout, link_customer, on_checkout_session_completed,
  handle_event,
}

module _ (prisma : Prisma) (env : BillingEnv) (P : Db → Type 0)
    (keeps_sync : (now : ℕ) (sub : Subscription) (id : String) (db : Db)
      → P db
      → P (write_subscription prisma env now sub id db))
    (keeps_clear : (now : ℕ) (id : String) (db : Db)
      → P db
      → P (clear_subscription_by_stripe_id prisma env now id db).1)
    (keeps_link : (now : ℕ) (tenant_id customer_id : String) (db : Db)
      → P db
      → P (link_customer prisma env now (some tenant_id) (some customer_id) db)) where
  after_record_sync :
      (stripe : Option Stripe) (now : ℕ) (sub : Subscription) (db : Db)
      → P db
      → P (sync_subscription_record prisma env stripe now sub db).1
  unfolding ◌>>=◌ sync_subscription_record
  after_record_sync stripe now sub db h =
      after_lift P (resolve_tenant_id prisma env stripe sub) _ db h (λ id e. go id)
    where
      go :
          (id : Option String)
          → P
              (elim id as (λ id. Action Db (Unit {0})) [
                | none ↦ pure tt
                | some id ↦ modify (write_subscription prisma env now sub id)
              ]
                db).1
      go none = h
      go (some id) = keeps_sync now sub id db h

  after_sync_by_id :
      (stripe : Option Stripe) (now : ℕ) (id : String) (db : Db)
      → P db
      → P (sync_subscription_by_id prisma env stripe now id db).1
  unfolding sync_subscription_by_id ◌>>=◌
  after_sync_by_id none now id db h = h
  after_sync_by_id (some s) now id db h =
      let synced =
        after_lift P (s.retrieve_subscription id) (sync_subscription_record prisma env (some s) now)
          db h (λ sub e. after_record_sync (some s) now sub db h) in
      after_try_catch P
        (lift (s.retrieve_subscription id) >>= sync_subscription_record prisma env (some s) now)
        (λ e. pure tt) db synced (λ x. synced)

  after_link :
      (now : ℕ) (tenant_id customer_id : Option String) (db : Db)
      → P db
      → P (link_customer prisma env now tenant_id customer_id db)
  after_link now (some t) (some c) db h = keeps_link now t c db h
  after_link now (some t) none db h = h
  after_link now none c db h = h

  after_reference :
      (stripe : Option Stripe) (now : ℕ) (reference : Option (Expandable Subscription)) (db : Db)
      → P db
      → P (sync_reference prisma env stripe now reference db).1
  unfolding ◌>>=◌
  after_reference stripe now none db h = h
  after_reference stripe now (some (expanded sub)) db h = after_record_sync stripe now sub db h
  after_reference stripe now (some (by_id id)) db h = go (id == "")
    where
      go :
          (blank : Bool)
          → P ((if blank then pure tt else sync_subscription_by_id prisma env stripe now id) db).1
      go true = h
      go false = after_sync_by_id stripe now id db h

  after_checkout :
      (stripe : Option Stripe) (now : ℕ) (mode : CheckoutMode)
      (reference : Option (Expandable Subscription)) (db : Db)
      → P db
      → P (sync_checkout prisma env stripe now mode reference db).1
  unfolding ◌>>=◌
  after_checkout stripe now CheckoutMode.payment reference db h = h
  after_checkout stripe now CheckoutMode.setup reference db h = h
  after_checkout stripe now CheckoutMode.subscription reference db h =
      after_reference stripe now reference db h

  after_invoice :
      (stripe : Option Stripe) (now : ℕ) (id : Option String) (db : Db)
      → P db
      → P
          (elim id as (λ id. Action Db (Unit {0})) [
            | none ↦ pure tt
            | some id ↦ sync_subscription_by_id prisma env stripe now id
          ]
            db).1
  unfolding ◌>>=◌
  after_invoice stripe now none db h = h
  after_invoice stripe now (some id) db h = after_sync_by_id stripe now id db h

  after_lifecycle :
      (stripe : Option Stripe) (now : ℕ) (kind : SubscriptionEvent) (sub : Subscription) (db : Db)
      → P db
      → P (handle_subscription_lifecycle_event prisma env stripe now kind sub db).1
  after_lifecycle stripe now SubscriptionEvent.deleted sub db h = keeps_clear now sub.id db h
  after_lifecycle stripe now SubscriptionEvent.paused sub db h = keeps_clear now sub.id db h
  after_lifecycle stripe now _ sub db h = after_record_sync stripe now sub db h

  pub after_handle_event :
      (stripe : Option Stripe) (inputs : WebhookInputs) (body : EventBody) (db : Db)
      → P db
      → P (handle_event prisma env stripe inputs body db).1
  unfolding ◌>>=◌ handle_event on_checkout_session_completed on_invoice_subscription_sync
  after_handle_event stripe inputs (checkout_session_completed session) db h =
      after_checkout stripe inputs.synced_at session.mode session.subscription _ (
        after_link inputs.linked_at (trimmed session.metadata_tenant_id)
          (truthy (customer_id_of session.customer)) db h)
  after_handle_event stripe inputs (subscription_event kind sub) db h =
      after_lifecycle stripe inputs.synced_at kind sub db h
  after_handle_event stripe inputs (invoice_event kind invoice) db h =
      after_invoice stripe inputs.synced_at (truthy (customer_id_of invoice.subscription)) db h
  after_handle_event stripe inputs (other_event type) db h = h

module _ (prisma : Prisma) (env : BillingEnv) where
  -- The handlers of events leave the table of events alone.
  abbrev pub SameEvents : Db → Db → Type 0
  SameEvents db db' = db'.stripe_webhook_events ≡ db.stripe_webhook_events

  pub handle_event-events :
      (stripe : Option Stripe) (inputs : WebhookInputs) (body : EventBody) (db : Db)
      → SameEvents db (handle_event prisma env stripe inputs body db).1
  unfolding clear_subscription_by_stripe_id ◌>>=◌
  handle_event-events stripe inputs body db =
      after_handle_event prisma env (SameEvents db) (λ now sub id s h. h) (λ now id s h. h)
        (λ now t c s h. h) stripe inputs body db refl
