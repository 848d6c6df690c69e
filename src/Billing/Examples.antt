-- ===== src/Billing/Examples.antt =====
-- Concrete inputs for the theorems about Stripe billing.
use nestjs_saas.Prelude.{
  ℕ, none, some, true, false, arith, ltb, ◌&&◌, ◌⊎◌, [], ◌∷◌, map, Memᴰ, if◌then◌else◌, ◌≡◌, refl,
  inl, ◌==◌, is_some, All,
}
use nestjs_saas.Exec.{Error, plain_error, ok, err, Action, throw, ◌>>=◌}
use nestjs_saas.Js.Text.{trim}
use nestjs_saas.Common.Roles.{org_admin}
use nestjs_saas.Common.Tiers.{free, pro}
use nestjs_saas.Common.Catalog.{
  resolve_subscription_entitlements, parse_stripe_billing_catalog, tier_by_price,
}
use nestjs_saas.Auth.State.{Tenant, User, StripeWebhookEvent, Db, Env, free_tier_seat_limit}
use nestjs_saas.Billing.Stripe.{
  by_id, SubscriptionStatus, Subscription, Invoice, SubscriptionEvent, InvoiceEvent,
  subscription_event, invoice_event, Event, Stripe, BillingEnv, trimmed,
}
use nestjs_saas.Billing.Subscriptions.{
  catalog, with_subscription, resolve_tenant_id, sync_subscription_record, has_subscription,
  sync_subscription_by_id, on_invoice_subscription_sync,
}
use nestjs_saas.Billing.Webhooks.{
  WebhookInputs, is_event, process_webhook_event_once, handle_event, handle_webhook_payload,
}
use nestjs_saas.Billing.Checkout.{CheckoutBody, create_checkout_session, create_checkout}
use nestjs_saas.Billing.Subscriptions.Entitled.{IsEntitled}
use nestjs_saas.Prisma.ByLists.{by_lists}
use nestjs_saas.Billing.Webhooks.Once.{IsRefusal, handle_webhook_payload_once}
use nestjs_saas.Billing.Webhooks.Entitled.{handle_webhook_payload-IsEntitled}
use nestjs_saas.Billing.Webhooks.Failures.{invoice_event_lost, subscription_ended}
use nestjs_saas.Billing.Checkout.Authority.{
  entitlement, create_checkout-actor, create_checkout-entitlements,
}

abbrev settings : Env
settings = record {
  free_included_learner_seats = none;
  seat_grace_days = none;
  jwt_access_ttl_sec = none;
  refresh_ttl_days_ms = some 0;
  smtp_host = none;
  smtp_user = none;
  smtp_pass = none;
}

abbrev billing_settings : BillingEnv
billing_settings = record {
  auth = settings;
  stripe_price_pro = some "price_pro";
  stripe_price_enterprise = none;
  stripe_webhook_secret = some "whsec";
  billing_checkout_return_base_url = none;
  internal_service_secret = some "inner";
}

abbrev globex : Tenant
globex = record {
  id = "t1";
  updated_at = 0;
  name = "Globex";
  subscription_tier = free;
  allowed_domains = [];
  stripe_customer_id = none;
  stripe_subscription_id = none;
  included_learner_seats = none;
  seat_billing_period_days = 30;
}

abbrev hank : User
hank = record {
  id = "u1";
  tenant_id = "t1";
  email = "hank@globex.org";
  display_name = none;
  password_hash = "";
  last_login_at = none;
  role = org_admin;
}

abbrev globex_db : Db
globex_db = record {
  tenants = globex ∷ [];
  users = hank ∷ [];
  memberships = [];
  refresh_tokens = [];
  invites = [];
  stripe_webhook_events = [];
}

abbrev pro_plan : Subscription
pro_plan = record {
  id = "sub_1";
  status = SubscriptionStatus.active;
  metadata_tenant_id = some " t1 ";
  customer = some (by_id "cus_1");
  items = record { price = by_id "price_pro"; quantity = some 2 } ∷ [];
}

abbrev plan_created : Event
plan_created = record { id = "evt_1"; body = subscription_event SubscriptionEvent.created pro_plan }

abbrev unpaid_invoice : Invoice
unpaid_invoice = record { subscription = some (by_id "sub_1") }

abbrev invoice_failed : Event
invoice_failed = record {
  id = "evt_2";
  body = invoice_event InvoiceEvent.payment_failed unpaid_invoice;
}

-- Stripe signs what it sends with the body itself, and knows no subscription.
abbrev outage : Stripe
outage = record {
  retrieve_customer = λ id. err (plain_error "timeout");
  retrieve_subscription = λ id. err (plain_error "timeout");
  create_customer = λ tenant_id. ok "cus_9";
  create_session = λ request. ok (record { id = "cs_1"; url = some "https://stripe.test/cs_1" });
  construct_event = λ raw signature secret now.
      if (raw == signature) && ltb now 300 then ok plan_created else err (plain_error "signature");
  parse_event = λ raw. plan_created;
  construct_event_lem = λ raw signature secret now event e. ground (arith, e);
}

abbrev at : ℕ → WebhookInputs
at t = record { verified_at = t; received_at = t; linked_at = t; synced_at = t; finished_at = t }

-- Named on a line to open all that a webhook delivery computes with.
abbrev webhook_definitions : Unit {0}
unfolding handle_webhook_payload process_webhook_event_once handle_event sync_subscription_record
    resolve_tenant_id with_subscription catalog parse_stripe_billing_catalog tier_by_price
    resolve_subscription_entitlements free_tier_seat_limit trimmed trim ◌>>=◌ create_checkout
    create_checkout_session on_invoice_subscription_sync sync_subscription_by_id
webhook_definitions = tt

delivered_db : Db
unfolding webhook_definitions
delivered_db =
    (handle_webhook_payload by_lists billing_settings (some outage) "body" (some "body") (at 5)
      globex_db).1

delivered_lem :
    handle_webhook_payload by_lists billing_settings
      (some outage)
      "body"
      (some "body")
      (at 5)
      globex_db
    ≡ (ok tt, delivered_db)
unfolding webhook_definitions delivered_db
delivered_lem = refl

-- Two lines of the PRO plan come with twenty seats.
entitled_test :
    map (entitlement by_lists billing_settings) delivered_db.tenants
    ≡ ("t1", pro, some 20, some "sub_1") ∷ []
unfolding webhook_definitions delivered_db
entitled_test = refl

-- Stripe answers by then, and sends the event again with another signature.
abbrev recovered : Stripe
recovered = record outage {
  retrieve_subscription = λ id. ok pro_plan;
  construct_event = λ raw signature secret now.
      if signature == "v2" then ok plan_created else err (plain_error "signature");
  construct_event_lem = λ raw signature secret now event e. ground (arith, e);
}

handle_webhook_payload_once_example :
    let second =
      handle_webhook_payload by_lists billing_settings
        (some recovered)
        "body"
        (some "v2")
        (at 900)
        delivered_db in
    (second ≡ (ok tt, delivered_db))
    ⊎ ((x : Error) × IsRefusal by_lists billing_settings x × (second ≡ (err x, delivered_db)))
handle_webhook_payload_once_example =
    handle_webhook_payload_once by_lists billing_settings outage recovered "body" (some "body")
      (some "v2") (at 5) (at 900) globex_db delivered_db refl delivered_lem

globex-IsEntitled : IsEntitled settings globex
globex-IsEntitled = record {
  paid = λ p. absurd (p refl);
  seated = λ p. absurd (p refl);
  free_seats = λ _. inl refl;
}

handle_webhook_payload-IsEntitled_example :
    All
      (IsEntitled settings)
      (handle_webhook_payload by_lists billing_settings
        (some outage)
        "body"
        (some "body")
        (at 5)
        globex_db).1.tenants
handle_webhook_payload-IsEntitled_example =
    handle_webhook_payload-IsEntitled by_lists billing_settings (some outage) "body" (some "body")
      (at 5) globex_db (globex-IsEntitled, tt)

-- A handler that throws what Stripe threw.
abbrev timing_out : Action Db (Unit {0})
timing_out = throw (plain_error "timeout")

failed_db : Db
unfolding webhook_definitions
failed_db =
    (process_webhook_event_once by_lists billing_settings plan_created (at 5) timing_out
      globex_db).1

invoice_event_lost_example :
    let after =
      process_webhook_event_once by_lists billing_settings invoice_failed
        (at 5)
        (handle_event by_lists billing_settings (some outage) (at 5) invoice_failed.body)
        globex_db in
    (after.0 ≡ ok tt)
    × (after.1.tenants ≡ globex ∷ [])
    × (row : StripeWebhookEvent) × (by_lists.find_first
          (is_event "evt_2")
          after.1.stripe_webhook_events
        ≡ some row)
    × (is_some row.processed_at ≡ true)
invoice_event_lost_example =
    invoice_event_lost by_lists billing_settings outage invoice_failed (at 5)
      InvoiceEvent.payment_failed unpaid_invoice "sub_1" (plain_error "timeout") globex_db refl refl
      refl

subscription_ended_example :
    All
      (λ t. has_subscription by_lists billing_settings "sub_1" t ≡ false)
      (handle_event by_lists billing_settings
        (some outage)
        (at 9)
        (subscription_event SubscriptionEvent.deleted pro_plan)
        delivered_db).1.tenants
subscription_ended_example =
    subscription_ended by_lists billing_settings (some outage) (at 9) SubscriptionEvent.deleted
      pro_plan delivered_db (inl refl)

abbrev upgrade : CheckoutBody
upgrade = record { tenant_id = "t1"; tier = pro; actor_role = org_admin; actor_user_id = some "u1" }

upgraded : Db
unfolding webhook_definitions
upgraded =
    (create_checkout by_lists billing_settings (some outage) 7 upgrade (some "inner") globex_db).1

upgrade_lem :
    create_checkout by_lists billing_settings (some outage) 7 upgrade (some "inner") globex_db
    ≡ (ok ("https://stripe.test/cs_1", "cs_1"), upgraded)
unfolding webhook_definitions upgraded
upgrade_lem = refl

create_checkout-actor_example :
    (actor : User) × Memᴰ actor (hank ∷ [])
    × (trimmed (some "u1") ≡ some actor.id)
    × (actor.role ≡ org_admin)
    × (actor.role ≡ org_admin → actor.tenant_id ≡ "t1")
    × (trimmed (some "inner") ≡ some (trim "inner"))
create_checkout-actor_example =
    create_checkout-actor by_lists billing_settings (some outage) 7 upgrade (some "inner") globex_db
      upgraded ("https://stripe.test/cs_1", "cs_1") upgrade_lem

create_checkout-entitlements_example :
    map
      (entitlement by_lists billing_settings)
      (create_checkout by_lists billing_settings
        (some outage)
        7
        upgrade
        (some "inner")
        globex_db).1.tenants
    ≡ ("t1", free, none, none) ∷ []
create_checkout-entitlements_example =
    create_checkout-entitlements by_lists billing_settings (some outage) 7 upgrade (some "inner")
      globex_db
