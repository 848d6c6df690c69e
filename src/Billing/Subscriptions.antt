-- ===== src/Billing/Subscriptions.antt =====
-- apps/auth-org-service/src/billing/stripe-billing.service.ts: `resolveTenantId`,
-- `syncSubscriptionRecord`, `clearSubscriptionByStripeId`, `syncSubscriptionById` and
-- `handleSubscriptionLifecycleEvent`. `now` is the `updatedAt` that the client writes.
pub mod Entitled
use nestjs_saas.Prelude.{
  ℕ, String, Option, none, some, Bool, true, false, List, map, if◌then◌else◌, ◌==◌, or_default,
}
use nestjs_saas.Exec.{
  Result, ok, err, Action, pure, lift, or_throw, ◌>>=◌, modify, try_catch, service_unavailable,
}
use nestjs_saas.Prisma.{Prisma}
use nestjs_saas.Js.Number.{pos}
use nestjs_saas.Common.Tiers.{SubscriptionTier, free, tier_eq}
use nestjs_saas.Common.Catalog.{
  Catalog, SubscriptionLine, resolve_subscription_entitlements, parse_stripe_billing_catalog,
}
use nestjs_saas.Auth.State.{Tenant, Db, Env, free_tier_seat_limit}
use nestjs_saas.Billing.Stripe.{
  Expandable, SubscriptionStatus, SubscriptionItem, Subscription, RetrievedCustomer,
  deleted_customer, customer, Invoice, SubscriptionEvent, Stripe, BillingEnv, id_of, truthy,
  trimmed,
}

abbrev pub is_paying_subscription_status : SubscriptionStatus → Bool
is_paying_subscription_status SubscriptionStatus.active = true
is_paying_subscription_status SubscriptionStatus.trialing = true
is_paying_subscription_status _ = false

abbrev pub line_of : SubscriptionItem → SubscriptionLine
line_of item = record {
  price_id = id_of item.price;
  quantity = some (pos (or_default item.quantity 1));
}

abbrev pub subscription_lines : Subscription → List SubscriptionLine
subscription_lines sub = map line_of sub.items

abbrev pub customer_id_of : Option (Expandable String) → Option String
customer_id_of none = none
customer_id_of (some c) = some (id_of c)

abbrev tenant_of_customer : RetrievedCustomer → Option String
tenant_of_customer deleted_customer = none
tenant_of_customer (customer metadata_tenant_id) = trimmed metadata_tenant_id

-- `...(customerId ? { stripeCustomerId: customerId } : {})`
abbrev pub with_customer : Option String → Tenant → Tenant
with_customer none t = t
with_customer (some id) t = record t { stripe_customer_id = some id }

abbrev pub without_subscription : Env → ℕ → Tenant → Tenant
without_subscription env now t = record t {
  updated_at = now;
  subscription_tier = free;
  included_learner_seats = some (free_tier_seat_limit env);
  stripe_subscription_id = none;
}

module _ (prisma : Prisma) (env : BillingEnv) where
  unfoldable pub catalog : Catalog
  unfolding parse_stripe_billing_catalog
  catalog = parse_stripe_billing_catalog env.stripe_price_pro env.stripe_price_enterprise

  -- The tier, and the seats to write for it.
  abbrev pub normalized_seats : SubscriptionTier × Option ℕ → ℕ
  normalized_seats (tier, seats) =
      if tier_eq tier free
      then free_tier_seat_limit env.auth
      else or_default seats (free_tier_seat_limit env.auth)

  unfoldable pub with_subscription : ℕ → Subscription → Tenant → Tenant
  unfolding catalog resolve_subscription_entitlements free_tier_seat_limit
  with_subscription now sub t =
      let entitled = resolve_subscription_entitlements (subscription_lines sub) catalog in
      record t {
        updated_at = now;
        subscription_tier = entitled.0;
        included_learner_seats = some (normalized_seats entitled);
        stripe_subscription_id = some sub.id;
      }

  -- `this.stripe` is null where no key is configured.
  unfoldable pub resolve_tenant_id : Option Stripe → Subscription → Result (Option String)
  unfolding trimmed
  resolve_tenant_id stripe sub = elim (trimmed sub.metadata_tenant_id) [
    | some from_sub ↦ ok (some from_sub)
    | none ↦ elim (truthy (customer_id_of sub.customer)) [
      | none ↦ ok none
      | some customer_id ↦ elim stripe [
        | none ↦ ok none
        | some s ↦ elim (s.retrieve_customer customer_id) [
          | err e ↦ err e
          | ok c ↦ ok (tenant_of_customer c)
        ]
      ]
    ]
  ]

  abbrev pub write_subscription : ℕ → Subscription → String → Db → Db
  write_subscription now sub tenant_id db = record db {
    tenants =
        (prisma.update_many (λ t. t.id == tenant_id)
          (λ t. with_customer (truthy (customer_id_of sub.customer)) (
            if is_paying_subscription_status sub.status
            then with_subscription now sub t
            else without_subscription env.auth now t))
          db.tenants).1;
  }

  unfoldable pub sync_subscription_record : Option Stripe → ℕ → Subscription → Action Db (Unit {0})
  sync_subscription_record stripe now sub = do
    tenant_id ← lift (resolve_tenant_id stripe sub)
    elim tenant_id [ none ↦ pure tt | some id ↦ modify (write_subscription now sub id) ]

  -- `where: { stripeSubscriptionId: subscriptionId }`
  abbrev pub has_subscription : String → Tenant → Bool
  has_subscription id t = elim t.stripe_subscription_id [ none ↦ false | some s ↦ s == id ]

  unfoldable pub clear_subscription_by_stripe_id : ℕ → String → Action Db (Unit {0})
  clear_subscription_by_stripe_id now id = modify (λ db. record db {
    tenants =
        (prisma.update_many (has_subscription id) (without_subscription env.auth now) db.tenants).1;
  })

  -- A failure of the retrieval or of the update is logged and goes no further.
  unfoldable pub sync_subscription_by_id : Option Stripe → ℕ → String → Action Db (Unit {0})
  sync_subscription_by_id stripe now id = do
    s ← or_throw stripe (service_unavailable "STRIPE_SECRET_KEY is not configured")
    try_catch (do sub ← lift (s.retrieve_subscription id); sync_subscription_record stripe now sub)
        (λ e. pure tt)

  unfoldable pub on_invoice_subscription_sync : Option Stripe → ℕ → Invoice → Action Db (Unit {0})
  on_invoice_subscription_sync stripe now invoice =
      elim (truthy (customer_id_of invoice.subscription)) [
        | none ↦ pure tt
        | some id ↦ sync_subscription_by_id stripe now id
      ]

  abbrev pub handle_subscription_lifecycle_event :
      Option Stripe → ℕ → SubscriptionEvent → Subscription → Action Db (Unit {0})
  handle_subscription_lifecycle_event stripe now SubscriptionEvent.deleted sub =
      clear_subscription_by_stripe_id now sub.id
  handle_subscription_lifecycle_event stripe now SubscriptionEvent.paused sub =
      clear_subscription_by_stripe_id now sub.id
  handle_subscription_lifecycle_event stripe now _ sub = sync_subscription_record stripe now sub
