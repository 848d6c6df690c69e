-- ===== src/Billing/Checkout.antt =====
-- apps/auth-org-service/src/billing: `createCheckoutSession` of stripe-billing.service.ts, and
-- billing-checkout.controller.ts, which guards it.
pub mod Authority
use nestjs_saas.Prelude.{
  ℕ, String, Option, none, some, not, ◌&&◌, [], ◌∷◌, if◌then◌else◌, ◌==◌, or_default,
}
use nestjs_saas.Exec.{
  Action, pure, gets, lift, or_throw, ◌>>=◌, ◌>>◌, throw_if, modify, bad_request, unauthorized,
  forbidden, not_found, service_unavailable,
}
use nestjs_saas.Prisma.{Prisma}
use nestjs_saas.Js.Text.{trim}
use nestjs_saas.Common.Roles.{Role, org_admin, role_eq}
use nestjs_saas.Common.Tiers.{SubscriptionTier, free, pro, enterprise, tier_eq}
use nestjs_saas.Common.Catalog.{Catalog, TierPrice}
use nestjs_saas.Auth.State.{Tenant, Db}
use nestjs_saas.Billing.Stripe.{Stripe, BillingEnv, truthy, trimmed}
use nestjs_saas.Billing.Subscriptions.{catalog}
use Prim.Native.String.{◌++◌ as append}

pub record CreateCheckout : Type 0 where
  pub tenant_id : String
  pub tier : SubscriptionTier
  pub actor_user_id : Option String

pub record CheckoutBody : Type 0 where
  pub tenant_id : String
  pub tier : SubscriptionTier
  pub actor_role : Role
  pub actor_user_id : Option String

-- `find((t) => t.tier === payload.tier)`
abbrev pub find_tier_price : SubscriptionTier → Catalog → Option TierPrice
find_tier_price tier [] = none
find_tier_price tier (t ∷ ts) = if tier_eq t.tier tier then some t else find_tier_price tier ts

abbrev tier_text : SubscriptionTier → String
tier_text free = "FREE"
tier_text pro = "PRO"
tier_text enterprise = "ENTERPRISE"

module _ (prisma : Prisma) (env : BillingEnv) where
  abbrev return_base : String
  return_base = or_default (trimmed env.billing_checkout_return_base_url) "http://localhost:3000"

  -- The tenant's customer, made and stored where there is none.
  abbrev customer_for : Stripe → ℕ → String → Tenant → Action Db String
  customer_for stripe now tenant_id tenant = elim (truthy tenant.stripe_customer_id) [
    | some id ↦ pure id
    | none ↦ do
      id ← lift (stripe.create_customer tenant_id)
      modify (λ db. record db {
        tenants =
            (prisma.update_many (λ t. t.id == tenant_id)
              (λ t. record t { updated_at = now; stripe_customer_id = some id }) db.tenants).1;
      })
      pure id
  ]

  -- The url and the id of the session.
  unfoldable pub create_checkout_session :
      Option Stripe → ℕ → CreateCheckout → Action Db (String × String)
  unfolding trim trimmed catalog
  create_checkout_session stripe now payload =
      let tenant_id = trim payload.tenant_id in
      do
        s ← or_throw stripe (service_unavailable "STRIPE_SECRET_KEY is not configured")
        throw_if (tenant_id == "") (bad_request "tenantId is required")
        tier_def ←
            or_throw (find_tier_price payload.tier (catalog prisma env))
              (bad_request (append "No Stripe price configured for tier " (tier_text payload.tier)))
        db ← gets (λ db. db)
        tenant ←
            or_throw (prisma.find_first (λ t. t.id == tenant_id) db.tenants)
              (not_found "Tenant not found")
        customer_id ← customer_for s now tenant_id tenant
        session ← lift (
            s.create_session record {
              customer = customer_id;
              price = tier_def.price_id;
              quantity = 1;
              success_url = append return_base "/billing/success?session_id={CHECKOUT_SESSION_ID}";
              cancel_url = append return_base "/billing/cancel";
              tenant_id = tenant_id;
              initiated_by_user_id = truthy payload.actor_user_id;
            })
        url ←
            or_throw (truthy session.url)
              (service_unavailable "Stripe did not return a checkout URL")
        pure (url, session.id)

  abbrev pub assert_internal_auth : Option String → Action Db (Unit {0})
  assert_internal_auth header = do
    expected ←
        or_throw (trimmed env.internal_service_secret)
          (unauthorized "INTERNAL_SERVICE_SECRET is not configured")
    throw_if (not (trim (or_default header "") == expected))
        (unauthorized "Invalid internal auth header")

  -- The body has passed its DTO: the ids are trimmed, the role is one of the two allowed.
  unfoldable pub create_checkout :
      Option Stripe → ℕ → CheckoutBody → Option String → Action Db (String × String)
  unfolding trim trimmed create_checkout_session
  create_checkout stripe now body internal_auth = do
    assert_internal_auth internal_auth
    actor_user_id ← or_throw (trimmed body.actor_user_id) (bad_request "actorUserId is required")
    db ← gets (λ db. db)
    actor ←
        or_throw (prisma.find_first (λ u. u.id == actor_user_id) db.users)
          (unauthorized "Actor user not found")
    throw_if (not (role_eq actor.role body.actor_role)) (forbidden "Actor role mismatch")
    throw_if (role_eq actor.role org_admin && not (actor.tenant_id == body.tenant_id))
        (forbidden "ORG_ADMIN can only create checkout for their own tenant")
    create_checkout_session stripe now
        record { tenant_id = body.tenant_id; tier = body.tier; actor_user_id = some actor_user_id }
